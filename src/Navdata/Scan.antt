-- ===== src/Navdata/Scan.antt =====
-- What is read of an apt.dat whose airports are known (src/navdata/navdata_service.cpp).
use zoal_atc.Common.{
  ℕ, ◌≡◌, ◌≢◌, refl, sym, ap, ◌∙◌, true, false, List, [], ◌∷◌, ◌++◌, Option, none, some, map,
  if◌then◌else◌, Bytes, append_assoc, append-nil, All, ◌==◌, arith,
}
use zoal_atc.Endpoint.{is_nil}
use zoal_atc.Navdata.Lines.{
  to_upper, get_lines, without_cr, header_icao, is_terminator, line_fields,
}
use zoal_atc.Navdata.Blocks.{
  Geometry, AirportBlock, extended, new_block, flush, scan_lines, scan_airport_blocks,
  extract_airport_blocks, contains_icao, texts_where, update_block_reference, with_line,
}

-- An airport of the file: the row of its header and those behind it.
pub record Airport : Type 0 where
  pub header : Bytes
  pub rows : List Bytes

-- A row that neither begins nor ends a block.
abbrev pub IsRow : Bytes → Type 0
IsRow line = (header_icao (without_cr line) ≡ []) × (is_terminator (without_cr line) ≡ false)

abbrev pub IsAirport : Airport → Type 0
IsAirport airport = (header_icao (without_cr airport.header) ≢ []) × All IsRow airport.rows

abbrev pub file_of : List Airport → List Bytes → List Bytes
file_of [] behind = behind
file_of (airport ∷ airports) behind = (airport.header ∷ airport.rows) ++ file_of airports behind

is_nil-false : (text : Bytes) → text ≢ [] → is_nil text ≡ false
is_nil-false [] h = absurd (h refl)
is_nil-false (c ∷ text) h = refl

-- The rows as text, each with a newline and less a carriage return at its end.
abbrev pub rows_text : List Bytes → Bytes
rows_text [] = []
rows_text (row ∷ rows) = without_cr row ++ 10 ∷ rows_text rows

-- The text of the airports that are wanted.
abbrev pub wanted_text : List Bytes → List Airport → Bytes
wanted_text targets [] = []
wanted_text targets (airport ∷ airports) =
    let rest = wanted_text targets airports in
    if contains_icao targets (header_icao (without_cr airport.header))
    then rows_text (airport.header ∷ airport.rows) ++ rest
    else rest

abbrev pub join_lines : List Bytes → Bytes
join_lines [] = []
join_lines (line ∷ lines) = line ++ 10 ∷ join_lines lines

get_lines-line :
    (line rest : Bytes)
    → All (λ (c : ℕ). c ≢ 10) line
    → get_lines (line ++ 10 ∷ rest) ≡ line ∷ get_lines rest
unfolding get_lines
get_lines-line [] rest h = refl
get_lines-line (c ∷ line) rest (h, hs) =
    let n : (c == 10) ≡ false = ground (arith, h) in rw (n, get_lines-line line rest hs) refl

get_lines-join_lines :
    (lines : List Bytes)
    → All (λ (line : Bytes). All (λ (c : ℕ). c ≢ 10) line) lines
    → get_lines (join_lines lines) ≡ lines
get_lines-join_lines [] h = unfold get_lines in refl
get_lines-join_lines (line ∷ lines) (h, hs) =
    get_lines-line line (join_lines lines) h ∙ ap (◌∷◌ line) (get_lines-join_lines lines hs)

module _ {Double : Type 0} (g : Geometry Double) where
  -- The block of an airport, row by row.
  abbrev pub with_rows : AirportBlock Double → List Bytes → AirportBlock Double
  unfolding update_block_reference
  with_rows block [] = block
  with_rows block (row ∷ rows) =
      with_rows
        (update_block_reference g (with_line block (without_cr row)) (line_fields (without_cr row)))
        rows

  abbrev pub block_of : Airport → AirportBlock Double
  unfolding with_rows
  block_of airport =
      with_rows (new_block (header_icao (without_cr airport.header)) (without_cr airport.header))
        airport.rows

  scan_lines-header :
      (line : Bytes) (lines : List Bytes) (current : Option (AirportBlock Double))
      → header_icao (without_cr line) ≢ []
      → scan_lines g (line ∷ lines) current
        ≡ flush current (
            scan_lines g lines (some (new_block (header_icao (without_cr line)) (without_cr line))))
  unfolding scan_lines
  scan_lines-header line lines current h =
      let f = is_nil-false (header_icao (without_cr line)) h in rw f refl

  scan_lines-row :
      (line : Bytes) (lines : List Bytes) (block : AirportBlock Double)
      → IsRow line
      → scan_lines g (line ∷ lines) (some block)
        ≡ scan_lines g lines (extended g (some block) (without_cr line))
  unfolding scan_lines
  scan_lines-row line lines block (h, k) = rw (h, k) refl

  scan_lines-rows :
      (rows lines : List Bytes) (block : AirportBlock Double)
      → All IsRow rows
      → scan_lines g (rows ++ lines) (some block) ≡ scan_lines g lines (some (with_rows block rows))
  unfolding with_rows extended
  scan_lines-rows [] lines block h = refl
  scan_lines-rows (row ∷ rows) lines block (h, hs) =
      scan_lines-row row (rows ++ lines) block h
      ∙ scan_lines-rows rows lines
          (update_block_reference g (with_line block (without_cr row))
            (line_fields (without_cr row)))
          hs

  scan_lines-file_of :
      (airports : List Airport) (behind : List Bytes) (current : Option (AirportBlock Double))
      → All IsAirport airports
      → ((last : Option (AirportBlock Double)) → scan_lines g behind last ≡ flush last [])
      → scan_lines g (file_of airports behind) current ≡ flush current (map block_of airports)
  unfolding block_of
  scan_lines-file_of [] behind current h end = end current
  scan_lines-file_of (airport ∷ airports) behind current ((head, rows), h) end =
      let first = new_block (header_icao (without_cr airport.header)) (without_cr airport.header) in
      scan_lines-header airport.header (airport.rows ++ file_of airports behind) current head
      ∙ ap (flush current) (
          scan_lines-rows airport.rows (file_of airports behind) first rows
          ∙ scan_lines-file_of airports behind (some (block_of airport)) h end)

  scan_lines-end :
      (line : Bytes) (last : Option (AirportBlock Double))
      → header_icao (without_cr line) ≡ []
      → is_terminator (without_cr line) ≡ true
      → scan_lines g (line ∷ []) last ≡ flush last []
  unfolding scan_lines
  scan_lines-end line last h k = rw (h, k) refl

  scan_lines-before :
      (before lines : List Bytes)
      → All IsRow before
      → scan_lines g (before ++ lines) none ≡ scan_lines g lines none
  unfolding scan_lines extended
  scan_lines-before [] lines h = refl
  scan_lines-before (line ∷ before) lines ((h, k), hs) =
      rw (h, k) (scan_lines-before before lines hs)

  with_rows-text :
      (block : AirportBlock Double) (rows : List Bytes)
      → (with_rows block rows).text ≡ block.text ++ rows_text rows
  unfolding with_rows update_block_reference
  with_rows-text block [] = sym (append-nil block.text)
  with_rows-text block (row ∷ rows) =
      with_rows-text
        (update_block_reference g (with_line block (without_cr row)) (line_fields (without_cr row)))
        rows
      ∙ (append_assoc block.text (without_cr row ++ 10 ∷ []) (rows_text rows)
          ∙ ap (λ (t : Bytes). block.text ++ t)
              (append_assoc (without_cr row) (10 ∷ []) (rows_text rows)))

  with_rows-icao :
      (block : AirportBlock Double) (rows : List Bytes) → (with_rows block rows).icao ≡ block.icao
  unfolding with_rows update_block_reference
  with_rows-icao block [] = refl
  with_rows-icao block (row ∷ rows) =
      with_rows-icao
        (update_block_reference g (with_line block (without_cr row)) (line_fields (without_cr row)))
        rows

  texts_where-blocks :
      (targets : List Bytes) (airports : List Airport)
      → texts_where (λ block. contains_icao targets block.icao) (map block_of airports)
        ≡ wanted_text targets airports
  unfolding block_of
  texts_where-blocks targets [] = refl
  texts_where-blocks targets (airport ∷ airports) =
      let first = new_block (header_icao (without_cr airport.header)) (without_cr airport.header) in
      rw
        (
          with_rows-icao first airport.rows,
          with_rows-text first airport.rows,
          append_assoc (without_cr airport.header) (10 ∷ []) (rows_text airport.rows),
          texts_where-blocks targets airports,
        )
        refl

  -- Of a file whose lines are rows before the first airport, each airport's header and rows, and a
  -- terminator, the text of the wanted airports alone is taken: the header and the rows of each, in
  -- their order, as `without_cr` leaves them.
  pub extract_airport_blocks-file_of :
      (before : List Bytes) (airports : List Airport) (end : Bytes) (wanted : List Bytes)
      → All IsRow before
      → All IsAirport airports
      → (header_icao (without_cr end) ≡ []) × (is_terminator (without_cr end) ≡ true)
      → All (λ (line : Bytes). All (λ (c : ℕ). c ≢ 10) line) (before ++ file_of airports (end ∷ []))
      → extract_airport_blocks g (join_lines (before ++ file_of airports (end ∷ []))) wanted
        ≡ wanted_text (map to_upper wanted) airports
  unfolding extract_airport_blocks scan_airport_blocks
  extract_airport_blocks-file_of before airports end wanted b a (e, f) n =
      let lines = before ++ file_of airports (end ∷ []) in
      let blocks : scan_lines g (get_lines (join_lines lines)) none ≡ map block_of airports =
        ap (λ (l : List Bytes). scan_lines g l none) (get_lines-join_lines lines n)
        ∙ (scan_lines-before before (file_of airports (end ∷ [])) b
            ∙ scan_lines-file_of airports (end ∷ []) none a
                (λ last. scan_lines-end end last e f)) in
      rw blocks (texts_where-blocks (map to_upper wanted) airports)
