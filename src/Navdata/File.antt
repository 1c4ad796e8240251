-- ===== src/Navdata/File.antt =====
-- What extract_airport_blocks of src/navdata/navdata_service.cpp takes from an apt.dat, whose lines are described by
-- their fields and the ends that they have.
use zoal_atc.Common.{
  ℕ, ◌≡◌, ◌≢◌, inr, refl, ◌∙◌, Bool, true, false, ◌||◌, List, [], ◌∷◌, ◌++◌, map, if◌then◌else◌,
  Bytes, codes, text_eq, text_eq_iff, text_eq_self, text_ne, All, All-append, arith,
}
use zoal_atc.Navdata.Lines.{to_upper, without_cr, header_icao, is_terminator}
use zoal_atc.Navdata.Blocks.{Geometry, extract_airport_blocks, contains_icao}
use zoal_atc.Navdata.Scan.{
  Airport, IsRow, IsAirport, file_of, rows_text, wanted_text, join_lines,
  extract_airport_blocks-file_of,
}
use zoal_atc.Navdata.Ends.{ended, IsLine, without_cr-ended, ended-All}
use zoal_atc.Navdata.Fields.{
  Kind, airport, seaplane_base, heliport, row_code, Header, header_text, IsHeader, Row, row_text,
  IsPlain, Stops, same_ident, header_icao-header_text, header_icao-row_text, is_terminator-row_text,
  text_eq-to_upper,
}

-- A row with the end that it has, and an airport of the file.
abbrev pub FileRow : Type 0
FileRow = Bool × Row

pub record Airfield : Type 0 where
  pub crlf : Bool
  pub header : Header
  pub rows : List FileRow

abbrev pub raw_row : FileRow → Bytes
raw_row (crlf, row) = ended crlf (row_text row)

abbrev pub raw_airport : Airfield → Airport
raw_airport a = record { header = ended a.crlf (header_text a.header); rows = map raw_row a.rows }

abbrev pub last_row : Bool → Bytes → FileRow
last_row crlf behind = (crlf, record { code = codes "99"; behind = behind })

-- The text of the file: rows before the first airport, the airports, and the row that ends them.
abbrev pub file_text : List FileRow → List Airfield → FileRow → Bytes
file_text before airfields end =
    join_lines (map raw_row before ++ file_of (map raw_airport airfields) (raw_row end ∷ []))

abbrev pub IsFileRow : FileRow → Type 0
IsFileRow (crlf, row) = IsPlain row × IsLine (row_text row) × (row.code ≢ codes "99")

abbrev pub IsAirfield : Airfield → Type 0
IsAirfield a = IsHeader a.header × IsLine (header_text a.header) × All IsFileRow a.rows

abbrev pub any_same : List Bytes → Bytes → Bool
any_same [] ident = false
any_same (name ∷ names) ident = same_ident name ident || any_same names ident

-- The lines of the airports that are wanted, each ended by a newline alone.
abbrev pub clean_lines : Airfield → List Bytes
clean_lines a = header_text a.header ∷ map (λ (r : FileRow). row_text r.1) a.rows

abbrev pub selected : List Bytes → List Airfield → Bytes
selected wanted [] = []
selected wanted (a ∷ airfields) =
    let rest = selected wanted airfields in
    if any_same wanted a.header.ident.word then join_lines (clean_lines a) ++ rest else rest

contains_icao-any_same :
    (wanted : List Bytes) (ident : Bytes)
    → contains_icao (map to_upper wanted) (to_upper ident) ≡ any_same wanted ident
contains_icao-any_same [] ident = refl
contains_icao-any_same (name ∷ wanted) ident =
    rw (text_eq-to_upper name ident, contains_icao-any_same wanted ident) refl

raw_row-IsRow : (r : FileRow) → IsFileRow r → IsRow (raw_row r)
raw_row-IsRow (crlf, row) (p, l, n) = rw (without_cr-ended crlf (row_text row) l) (
  header_icao-row_text row p,
  is_terminator-row_text row p ∙ ground (arith, n, text_eq_iff row.code (codes "99")),
)

rows-IsRow : (rows : List FileRow) → All IsFileRow rows → All IsRow (map raw_row rows)
rows-IsRow [] h = tt
rows-IsRow (r ∷ rows) (h, hs) = (raw_row-IsRow r h, rows-IsRow rows hs)

not_nil : (text : Bytes) → text ≢ [] → to_upper text ≢ []
not_nil [] h = h
not_nil (c ∷ text) h = λ e. cc

ident_not_nil : (h : Header) → IsHeader h → h.ident.word ≢ []
ident_not_nil h ((e, (t, (b, ((space, gap, (n, w)), _)))), s) = n

airports-IsAirport :
    (airfields : List Airfield)
    → All IsAirfield airfields
    → All IsAirport (map raw_airport airfields)
airports-IsAirport [] h = tt
airports-IsAirport (a ∷ airfields) ((h, l, rs), hs) = (
  (
    rw (without_cr-ended a.crlf (header_text a.header) l, header_icao-header_text a.header h)
        (not_nil a.header.ident.word (ident_not_nil a.header h)),
    rows-IsRow a.rows rs,
  ),
  airports-IsAirport airfields hs,
)

rows_text-clean :
    (rows : List FileRow)
    → All IsFileRow rows
    → rows_text (map raw_row rows) ≡ join_lines (map (λ (r : FileRow). row_text r.1) rows)
rows_text-clean [] h = refl
rows_text-clean ((crlf, row) ∷ rows) ((p, l, n), hs) =
    rw (without_cr-ended crlf (row_text row) l, rows_text-clean rows hs) refl

wanted_text-selected :
    (wanted : List Bytes) (airfields : List Airfield)
    → All IsAirfield airfields
    → wanted_text (map to_upper wanted) (map raw_airport airfields) ≡ selected wanted airfields
wanted_text-selected wanted [] h = refl
wanted_text-selected wanted (a ∷ airfields) ((h, l, rs), hs) =
    rw
      (
        without_cr-ended a.crlf (header_text a.header) l,
        header_icao-header_text a.header h,
        contains_icao-any_same wanted a.header.ident.word,
        rows_text-clean a.rows rs,
        wanted_text-selected wanted airfields hs,
      )
      refl

rows-All :
    (rows : List FileRow)
    → All IsFileRow rows
    → All (λ (line : Bytes). All (λ (c : ℕ). c ≢ 10) line) (map raw_row rows)
rows-All [] h = tt
rows-All ((crlf, row) ∷ rows) ((p, l, n), hs) = (ended-All crlf (row_text row) l, rows-All rows hs)

file-All :
    (airfields : List Airfield) (behind : List Bytes)
    → All IsAirfield airfields
    → All (λ (line : Bytes). All (λ (c : ℕ). c ≢ 10) line) behind
    → All
        (λ (line : Bytes). All (λ (c : ℕ). c ≢ 10) line)
        (file_of (map raw_airport airfields) behind)
file-All [] behind h b = b
file-All (a ∷ airfields) behind ((h, l, rs), hs) b = (
  ended-All a.crlf (header_text a.header) l,
  All-append _ (map raw_row a.rows) _ (rows-All a.rows rs) (file-All airfields behind hs b),
)

not_kind : (kind : Kind) → codes "99" ≢ row_code kind
not_kind airport = text_ne (codes "99") (codes "1") (unfold text_eq in refl)
not_kind seaplane_base = text_ne (codes "99") (codes "16") (unfold text_eq in refl)
not_kind heliport = text_ne (codes "99") (codes "17") (unfold text_eq in refl)

-- Of a file of rows before the first airport, each airport's header (of code 1, 16 or 17, with
-- white space of any length between the fields) and rows, and at last a row of code 99, where a
-- row is empty or begins with another code, and each line ends in a newline, with or without a
-- carriage return in front of it, and holds neither otherwise: what is taken are the lines of the
-- airports whose identifier is among the wanted ones but for small and capital letters, in their
-- order, each ended by a newline alone.
pub extract_airport_blocks-file_text :
    {Double : Type 0} (g : Geometry Double) (before : List FileRow) (airfields : List Airfield)
    (crlf : Bool) (behind : Bytes) (wanted : List Bytes)
    → All IsFileRow before
    → All IsAirfield airfields
    → Stops behind
    → IsLine (codes "99" ++ behind)
    → extract_airport_blocks g (file_text before airfields (last_row crlf behind)) wanted
      ≡ selected wanted airfields
extract_airport_blocks-file_text g before airfields crlf behind wanted b a s l =
    let end = raw_row (last_row crlf behind) in
    let row : Row = record { code = codes "99"; behind = behind } in
    let plain : IsPlain row = inr (((λ e. cc), (refl, (refl, tt))), s, not_kind) in
    let closes : (header_icao (without_cr end) ≡ []) × (is_terminator (without_cr end) ≡ true) =
      rw (without_cr-ended crlf (row_text row) l) (
        header_icao-row_text row plain,
        is_terminator-row_text row plain ∙ text_eq_self (codes "99"),
      ) in
    let lines =
      All-append _ (map raw_row before) _ (rows-All before b)
        (file-All airfields (end ∷ []) a (ended-All crlf (row_text row) l, tt)) in
    extract_airport_blocks-file_of g (map raw_row before) (map raw_airport airfields) end wanted
      (rows-IsRow before b) (airports-IsAirport airfields a) closes lines
    ∙ wanted_text-selected wanted airfields a
