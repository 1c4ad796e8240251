-- ===== src/Navdata/Blocks.antt =====
-- The blocks of airports in apt.dat and the rows of the files of fixes
-- (src/navdata/navdata_service.cpp). What the source computes on a `double` is an argument.
use zoal_atc.Common.{
  ℕ, ◌+◌, Bool, true, false, not, ◌&&◌, ◌||◌, List, [], ◌∷◌, ◌++◌, Option, none, some, map, leb,
  ltb, if◌then◌else◌, Bytes, codes, text_eq, get_or, length,
}
use zoal_atc.Endpoint.{is_nil}
use zoal_atc.Navdata.Lines.{
  to_upper, get_lines, without_cr, line_fields, header_icao, is_terminator,
}

-- `read` is `>>` of a number's text, `halfway` the mean of two, `valid` is valid_lat_lon and `near`
-- compares distance_nm of two places with a radius.
pub record Geometry (Double : Type 0) : Type 0 where
  pub zero : Double
  pub read : Bytes → Double
  pub halfway : Double → Double → Double
  pub valid : Double → Double → Bool
  pub near : Double × Double → Double × Double → Double → Bool
  pub positive : Double → Bool

-- `place` is there once the block is located.
pub record AirportBlock (Double : Type 0) : Type 0 where
  pub icao : Bytes
  pub text : Bytes
  pub place : Option (Double × Double)

abbrev pub contains_icao : List Bytes → Bytes → Bool
contains_icao [] icao = false
contains_icao (x ∷ icaos) icao = text_eq x icao || contains_icao icaos icao

module _ {Double : Type 0} where
  unfoldable pub double_field : Geometry Double → List Bytes → ℕ → Double
  double_field g fields index =
      if leb (length fields) index then g.zero else g.read (get_or fields index [])

  -- The first of the two pairs of fields of a helipad that is a place.
  abbrev pub place_at : Geometry Double → List Bytes → ℕ → Option (Double × Double)
  unfolding double_field
  place_at g fields i =
      let lat = double_field g fields i in
      let lon = double_field g fields (i + 1) in if g.valid lat lon then some (lat, lon) else none

  -- Between two places, of which one or both have to be valid.
  abbrev pub between :
      Geometry Double → (Bool → Bool → Bool) → List Bytes → ℕ → ℕ → Option (Double × Double)
  unfolding double_field
  between g enough fields i j =
      let lat1 = double_field g fields i in
      let lon1 = double_field g fields (i + 1) in
      let lat2 = double_field g fields j in
      let lon2 = double_field g fields (j + 1) in
      if enough (g.valid lat1 lon1) (g.valid lat2 lon2)
      then some (g.halfway lat1 lat2, g.halfway lon1 lon2)
      else none

  abbrev pub or_else :
      Option (Double × Double) → Option (Double × Double) → Option (Double × Double)
  or_else none second = second
  or_else (some place) second = some place

  -- What a row says of where the airport is: a runway, a waterway, a start or a helipad.
  unfoldable pub row_place : Geometry Double → List Bytes → Option (Double × Double)
  row_place g fields =
      let code = get_or fields 0 [] in
      if text_eq code (codes "100") && ltb 19 (length fields)
      then between g ◌||◌ fields 9 18
      else if text_eq code (codes "101") && ltb 8 (length fields)
      then between g ◌&&◌ fields 4 7
      else if (text_eq code (codes "1201") || text_eq code (codes "1300")) && ltb 2 (length fields)
      then place_at g fields 1
      else if text_eq code (codes "102")
      then or_else (place_at g fields 2) (place_at g fields 1)
      else none

  unfoldable pub update_block_reference :
      Geometry Double → AirportBlock Double → List Bytes → AirportBlock Double
  unfolding row_place
  update_block_reference g block fields = record block {
    place = or_else block.place (row_place g fields);
  }

  abbrev pub with_line : AirportBlock Double → Bytes → AirportBlock Double
  with_line block line = record block { text = block.text ++ (line ++ 10 ∷ []) }

  abbrev pub new_block : Bytes → Bytes → AirportBlock Double
  new_block icao line = record { icao = icao; text = line ++ 10 ∷ []; place = none }

  abbrev pub flush :
      Option (AirportBlock Double) → List (AirportBlock Double) → List (AirportBlock Double)
  flush none blocks = blocks
  flush (some block) blocks = block ∷ blocks

  unfoldable pub extended :
      Geometry Double → Option (AirportBlock Double) → Bytes → Option (AirportBlock Double)
  unfolding update_block_reference
  extended g none line = none
  extended g (some block) line =
      some (update_block_reference g (with_line block line) (line_fields line))

  -- The blocks in the order in which the callback is given them; `current` is there while a block is
  -- active.
  unfoldable pub scan_lines :
      Geometry Double → List Bytes → Option (AirportBlock Double) → List (AirportBlock Double)
  unfolding header_icao is_terminator extended
  scan_lines g [] current = flush current []
  scan_lines g (raw ∷ lines) current =
      let line = without_cr raw in
      let opened = scan_lines g lines (some (new_block (header_icao line) line)) in
      let closed = scan_lines g lines none in
      let same = scan_lines g lines (extended g current line) in
      if not (is_nil (header_icao line))
      then flush current opened
      else if is_terminator line
      then flush current closed
      else same

  unfoldable pub scan_airport_blocks : Geometry Double → Bytes → List (AirportBlock Double)
  unfolding scan_lines
  scan_airport_blocks g apt = scan_lines g (get_lines apt) none

  -- The texts of the blocks that pass a test.
  abbrev pub texts_where : (AirportBlock Double → Bool) → List (AirportBlock Double) → Bytes
  texts_where test [] = []
  texts_where test (block ∷ blocks) =
      let rest = texts_where test blocks in if test block then block.text ++ rest else rest

  unfoldable pub extract_airport_blocks : Geometry Double → Bytes → List Bytes → Bytes
  unfolding scan_airport_blocks
  extract_airport_blocks g apt wanted =
      texts_where (λ block. contains_icao (map to_upper wanted) block.icao)
        (scan_airport_blocks g apt)

  -- The places of the wanted airports that are located.
  abbrev pub places_of : List Bytes → List (AirportBlock Double) → List (Double × Double)
  places_of targets [] = []
  places_of targets (block ∷ blocks) =
      let rest = places_of targets blocks in
      if contains_icao targets block.icao
      then elim block.place [ none ↦ rest | some place ↦ place ∷ rest ]
      else rest

  abbrev pub near_any : Geometry Double → Double → Double × Double → List (Double × Double) → Bool
  near_any g radius_nm place [] = false
  near_any g radius_nm place (ref ∷ refs) =
      g.near ref place radius_nm || near_any g radius_nm place refs

  unfoldable pub within_radius_of_any :
      Geometry Double → AirportBlock Double → List (Double × Double) → Double → Bool
  within_radius_of_any g block refs radius_nm = elim block.place [
    | none ↦ false
    | some place ↦ near_any g radius_nm place refs
  ]

  abbrev pub no_places : List (Double × Double) → Bool
  no_places [] = true
  no_places (ref ∷ refs) = false

  -- (A stream over a text can be rewound.)
  unfoldable pub extract_regional_airport_blocks :
      Geometry Double → Bytes → List Bytes → Double → Bytes
  unfolding scan_airport_blocks within_radius_of_any
  extract_regional_airport_blocks g apt wanted radius_nm =
      let targets = map to_upper wanted in
      let blocks = scan_airport_blocks g apt in
      let exact = texts_where (λ block. contains_icao targets block.icao) blocks in
      let refs = places_of targets blocks in
      let out =
        texts_where
          (λ block. contains_icao targets block.icao || within_radius_of_any g block refs radius_nm)
          blocks in
      if no_places refs || not (g.positive radius_nm)
      then exact
      else if is_nil out
      then exact
      else out

  unfoldable pub find_reference : Bytes → List (AirportBlock Double) → Option (Double × Double)
  find_reference wanted [] = none
  find_reference wanted (block ∷ blocks) =
      let later = find_reference wanted blocks in
      if text_eq block.icao wanted then or_else block.place later else later

  unfoldable pub find_airport_reference : Geometry Double → Bytes → Bytes → Option (Double × Double)
  unfolding find_reference scan_airport_blocks
  find_airport_reference g apt icao = find_reference (to_upper icao) (scan_airport_blocks g apt)

  unfoldable pub is_row_near : Geometry Double → ℕ → Double × Double → Double → Bytes → Bool
  unfolding double_field
  is_row_near g lat_field place radius_nm line =
      let fields = line_fields line in
      let lat = double_field g fields lat_field in
      let lon = double_field g fields (lat_field + 1) in
      not (leb (length fields) (lat_field + 1))
      && (g.valid lat lon && g.near place (lat, lon) radius_nm)

  unfoldable pub rows_in_box : Geometry Double → ℕ → Double × Double → Double → List Bytes → Bytes
  unfolding is_row_near
  rows_in_box g lat_field place radius_nm [] = []
  rows_in_box g lat_field place radius_nm (raw ∷ lines) =
      let line = without_cr raw in
      let rest = rows_in_box g lat_field place radius_nm lines in
      if is_row_near g lat_field place radius_nm line then line ++ 10 ∷ rest else rest

  unfoldable pub extract_rows_in_box :
      Geometry Double → Bytes → ℕ → Double × Double → Double → Bytes
  unfolding rows_in_box
  extract_rows_in_box g in_text lat_field place radius_nm =
      rows_in_box g lat_field place radius_nm (get_lines in_text)
