-- ===== src/Navdata/Lines.antt =====
-- Lines and their fields (src/navdata/navdata_service.cpp). `std::getline`, `>>` of a string and
-- `std::toupper` are those of the C locale.
use zoal_atc.Common.{
  ℕ, ◌-◌, Bool, ◌&&◌, ◌||◌, List, [], ◌∷◌, ◌++◌, map, leb, ◌==◌, if◌then◌else◌, Bytes, codes,
  text_eq, get_or,
}
use zoal_atc.Json.{is_space}

abbrev pub upper : ℕ → ℕ
upper c = if leb b'a' c && leb c b'z' then c - 32 else c

abbrev pub to_upper : Bytes → Bytes
to_upper value = map upper value

abbrev pub in_front : ℕ → List Bytes → List Bytes
in_front c [] = (c ∷ []) ∷ []
in_front c (line ∷ lines) = (c ∷ line) ∷ lines

-- The lines that `getline` gives; a text that ends in a newline has none behind it.
unfoldable pub get_lines : Bytes → List Bytes
get_lines [] = []
get_lines (c ∷ text) = let rest = get_lines text in if c == 10 then [] ∷ rest else in_front c rest

-- `pop_back` of a carriage return.
unfoldable pub without_cr : Bytes → Bytes
without_cr [] = []
without_cr (c ∷ []) = if c == 13 then [] else c ∷ []
without_cr (c ∷ d ∷ line) = c ∷ without_cr (d ∷ line)

abbrev pub finished : Bytes → List Bytes → List Bytes
finished [] fields = fields
finished (c ∷ field) fields = (c ∷ field) ∷ fields

unfoldable pub fields_loop : Bytes → Bytes → List Bytes
fields_loop [] field = finished field []
fields_loop (c ∷ line) field =
    let gap = fields_loop line [] in
    let same = fields_loop line (field ++ c ∷ []) in if is_space c then finished field gap else same

unfoldable pub line_fields : Bytes → List Bytes
unfolding fields_loop
line_fields line = fields_loop line []

abbrev pub is_header_code : Bytes → Bool
is_header_code code =
    text_eq code (codes "1") || text_eq code (codes "16") || text_eq code (codes "17")

-- A field that is not there is empty.
unfoldable pub header_icao : Bytes → Bytes
unfolding line_fields
header_icao line =
    if is_header_code (get_or (line_fields line) 0 [])
    then to_upper (get_or (line_fields line) 4 [])
    else []

unfoldable pub is_terminator : Bytes → Bool
unfolding line_fields
is_terminator line = text_eq (get_or (line_fields line) 0 []) (codes "99")
