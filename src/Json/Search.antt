-- ===== src/Json/Search.antt =====
-- The readers of src/transport/json_util.cpp that look for a key anywhere in the text. A number's text is
-- read by `std::stod`, an argument.
use zoal_atc.Common.{
  ℕ, zero, suc, ◌+◌, ◌-◌, ◌*◌, ◌%◌, ◌^◌, Bool, true, false, ◌&&◌, ◌||◌, List, [], ◌∷◌, ◌++◌, Option,
  none, some, ltb, leb, ◌==◌, if◌then◌else◌, ◌>>=◌, Bytes, codes, length, drop,
}
use zoal_atc.Json.{skip_ws, parse_string_at, expect}

-- Whether a text begins with another.
abbrev pub is_prefix : Bytes → Bytes → Bool
is_prefix [] text = true
is_prefix (d ∷ s) [] = false
is_prefix (d ∷ s) (c ∷ text) = if d == c then is_prefix s text else false

-- `find` of a needle that is not empty: what stands behind its first occurrence.
unfoldable pub find_behind : Bytes → Bytes → Option Bytes
find_behind needle [] = none
find_behind needle (c ∷ json) =
    let later = find_behind needle json in
    if is_prefix needle (c ∷ json) then some (drop (length needle) (c ∷ json)) else later

-- The loop over the occurrences of the quoted key, each of which uses up a character at least.
unfoldable pub value_loop : ℕ → Bytes → Bytes → Option Bytes
unfolding find_behind
value_loop zero needle json = none
value_loop (suc fuel) needle json = elim (find_behind needle json) [
  | none ↦ none
  | some behind ↦ elim (expect b':' (skip_ws behind)) [
    | none ↦ value_loop fuel needle (skip_ws behind)
    | some value ↦ some (skip_ws value)
  ]
]

abbrev pub quoted_key : Bytes → Bytes
quoted_key key = b'"' ∷ (key ++ codes "\"")

unfoldable pub field_value_pos : Bytes → Bytes → Option Bytes
unfolding value_loop
field_value_pos json key = value_loop (suc (length json)) (quoted_key key) json

unfoldable pub json_string_field : Bytes → Bytes → Option Bytes
unfolding field_value_pos
json_string_field json key =
    field_value_pos json key >>= λ value. parse_string_at value >>= λ r. some r.0

unfoldable pub json_bool_field : Bytes → Bytes → Option Bool
unfolding field_value_pos
json_bool_field json key = field_value_pos json key >>= λ value.
    if is_prefix (codes "true") value
    then some true
    else if is_prefix (codes "false") value
    then some false
    else none

-- The digits that follow, in 64 bits, with whether there was one.
unfoldable pub leading_uint : Bytes → ℕ → Bool → Option ℕ
leading_uint [] value saw_digit = if saw_digit then some value else none
leading_uint (ch ∷ json) value saw_digit =
    let more = leading_uint json ((value * 10 + (ch - b'0')) % 2 ^ 64) true in
    if ltb ch b'0' || ltb b'9' ch then (if saw_digit then some value else none) else more

unfoldable pub json_uint_field : Bytes → Bytes → Option ℕ
unfolding field_value_pos leading_uint
json_uint_field json key = field_value_pos json key >>= λ value. leading_uint value 0 false

abbrev pub is_decimal : ℕ → Bool
is_decimal ch = leb b'0' ch && leb ch b'9'

abbrev pub is_number_char : ℕ → Bool
is_number_char ch =
    is_decimal ch || ch == b'.' || ch == b'e' || ch == b'E' || ch == b'-' || ch == b'+'

abbrev pub number_chars : Bytes → Bytes
number_chars [] = []
number_chars (ch ∷ json) =
    let more = number_chars json in if is_number_char ch then ch ∷ more else []

abbrev pub has_decimal : Bytes → Bool
has_decimal [] = false
has_decimal (ch ∷ text) = is_decimal ch || has_decimal text

-- (A sign in front is one of the characters that the loop takes as well.)
unfoldable pub json_number_field :
    {Double : Type 0} → (Bytes → Option Double) → Bytes → Bytes → Option Double
unfolding field_value_pos
json_number_field stod json key = field_value_pos json key >>= λ value.
    if has_decimal (number_chars value) then stod (number_chars value) else none

-- The strings from here on, as far as they can be read.
unfoldable pub array_loop : ℕ → Bytes → List Bytes
array_loop zero json = []
array_loop (suc fuel) json = elim (parse_string_at (skip_ws json)) [
  | none ↦ []
  | some (value, rest) ↦
      value ∷ (elim (expect b',' (skip_ws rest)) [ none ↦ [] | some more ↦ array_loop fuel more ])
]

unfoldable pub array_at : Option Bytes → List Bytes
unfolding array_loop
array_at none = []
array_at (some value) = elim (expect b'[' value) [
  | none ↦ []
  | some strings ↦ array_loop (suc (length strings)) strings
]

unfoldable pub json_string_array_field : Bytes → Bytes → List Bytes
unfolding field_value_pos array_at
json_string_array_field json key = array_at (field_value_pos json key)
