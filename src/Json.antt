-- ===== src/Json.antt =====
-- src/transport/json_util.cpp. A position in the text is the rest of the text from there on, which
-- the source's `pos < json.size()` tests for emptiness; a failed parse has no position.
pub mod Escape
pub mod Fuel
pub mod Values
pub mod Nesting
pub mod Skip
pub mod Object
pub mod Search
pub mod Found
mod Tests
use zoal_atc.Common.{
  ℕ, zero, suc, ◌+◌, ◌-◌, ◌/◌, ◌%◌, Bool, not, ◌&&◌, ◌||◌, [], ◌∷◌, ◌++◌, Option, none, some, ltb,
  leb, ◌==◌, if◌then◌else◌, ◌>>=◌, Bytes, codes, text_eq, length, take, get_or,
}

-- `std::isspace` in the C locale.
abbrev pub is_space : ℕ → Bool
is_space c = c == b' ' || leb 9 c && leb c 13

unfoldable pub skip_ws : Bytes → Bytes
skip_ws [] = []
skip_ws (c ∷ json) = if is_space c then skip_ws json else c ∷ json

-- Where the loop of `parse_string_at` stands: at a plain character, behind a backslash, or with so
-- many digits of a `\u` escape still to step over behind the next one.
pub data Mode : Type 0 where
  plain escaped : Mode
  digits : ℕ → Mode

-- The character that an escape stands for; `none` for `u` and for what begins no escape.
unfoldable pub escape_char : ℕ → Option ℕ
escape_char c =
    if c == b'"' || c == b'\\' || c == b'/'
    then some c
    else if c == b'b'
    then some 8
    else if c == b'f'
    then some 12
    else if c == b'n'
    then some 10
    else if c == b'r'
    then some 13
    else if c == b't'
    then some 9
    else none

-- The loop of `parse_string_at`, behind the opening quote: the string and the rest behind its
-- closing quote. A `\u` escape appends `?` and its four digits are stepped over unread; a text that
-- ends among them fails, as `pos + 4 > json.size()` does.
unfoldable pub string_body : Mode → Bytes → Bytes → Option (Bytes × Bytes)
unfolding escape_char
string_body mode [] out = none
string_body plain (c ∷ json) out =
    let escape = string_body escaped json out in
    let copy = string_body plain json (out ++ c ∷ []) in
    if c == b'"' then some (out, json) else if c == b'\\' then escape else copy
string_body escaped (c ∷ json) out = elim (escape_char c) [
  | some d ↦ string_body plain json (out ++ d ∷ [])
  | none ↦
      let skip = string_body (digits 3) json (out ++ b'?' ∷ []) in if c == b'u' then skip else none
]
string_body (digits zero) (c ∷ json) out = string_body plain json out
string_body (digits (suc n)) (c ∷ json) out = string_body (digits n) json out

unfoldable pub parse_string_at : Bytes → Option (Bytes × Bytes)
unfolding string_body
parse_string_at [] = none
parse_string_at (c ∷ json) = if c == b'"' then string_body plain json [] else none

-- A string that is stepped over (`std::string ignored`).
abbrev pub rest_of : Option (Bytes × Bytes) → Option Bytes
rest_of none = none
rest_of (some (ignored, rest)) = some rest

-- The loop over an object or an array, on fuel. (At a closing bracket the depth is never 0, since the
-- loop begins at an opening one.)
unfoldable pub skip_nested : ℕ → ℕ → ℕ → ℕ → Bytes → Option Bytes
skip_nested zero open_ close depth json = none
skip_nested (suc fuel) open_ close depth [] = none
skip_nested (suc fuel) open_ close depth (ch ∷ json) =
    let string = rest_of (parse_string_at (ch ∷ json)) >>= skip_nested fuel open_ close depth in
    let deeper = skip_nested fuel open_ close (depth + 1) json in
    let shallower = skip_nested fuel open_ close (depth - 1) json in
    let same = skip_nested fuel open_ close depth json in
    if ch == b'"'
    then string
    else if ch == open_
    then deeper
    else if ch == close
    then if depth == 1 then some json else shallower
    else same

abbrev pub is_structural : ℕ → Bool
is_structural c = c == b',' || c == b'}' || c == b']' || is_space c

unfoldable pub skip_scalar : Bytes → Bytes
skip_scalar [] = []
skip_scalar (c ∷ json) = if is_structural c then c ∷ json else skip_scalar json

skip_value_at : Bytes → Option Bytes
skip_value_at [] = none
skip_value_at (first ∷ json) =
    let close = if first == b'{' then b'}' else b']' in
    let rest = skip_scalar (first ∷ json) in
    if first == b'"'
    then rest_of (parse_string_at (first ∷ json))
    else if first == b'{' || first == b'['
    then skip_nested (suc (length (first ∷ json))) first close 0 (first ∷ json)
    else if ltb (length rest) (length (first ∷ json))
    then some rest
    else none

-- The rest behind one complete value.
unfoldable pub skip_value : Bytes → Option Bytes
unfolding skip_value_at
skip_value json = skip_value_at (skip_ws json)

-- `pos >= json.size() || json[pos] != wanted` fails, and else the character is stepped over.
unfoldable pub expect : ℕ → Bytes → Option Bytes
expect wanted [] = none
expect wanted (c ∷ json) = if c == wanted then some json else none

-- The body of the loop over the fields, which goes on by `next`.
unfoldable pub raw_field_at : (Bytes → Option Bytes) → Bytes → Bytes → Option Bytes
raw_field_at next key [] = none
raw_field_at next key (c ∷ json) = if c == b'}' then none else do
  (field, rest) ← parse_string_at (c ∷ json)
  value ← expect b':' (skip_ws rest)
  let start = skip_ws value
  end ← skip_value start
  let more = expect b',' (skip_ws end) >>= next
  if text_eq field key then some (take (length start - length end) start) else more

unfoldable pub raw_fields : ℕ → Bytes → Bytes → Option Bytes
unfolding raw_field_at
raw_fields zero key json = none
raw_fields (suc fuel) key json = raw_field_at (raw_fields fuel key) key (skip_ws json)

unfoldable pub json_raw_field : Bytes → Bytes → Option Bytes
json_raw_field json key = expect b'{' (skip_ws json) >>= λ r. raw_fields (suc (length r)) key r

unfoldable pub json_unquote : Bytes → Option Bytes
json_unquote raw = parse_string_at (skip_ws raw) >>= λ r. some r.0

abbrev pub hex_table : Bytes
hex_table = codes "0123456789abcdef"

-- What one round of `json_escape` appends. `(ch >> 4) & 0x0F` and `ch & 0x0F` are written by `/`
-- and `%`.
unfoldable pub escape_byte : ℕ → Bytes
escape_byte ch =
    if ch == b'"'
    then codes "\\\""
    else if ch == b'\\'
    then codes "\\\\"
    else if ch == 8
    then codes "\\b"
    else if ch == 12
    then codes "\\f"
    else if ch == 10
    then codes "\\n"
    else if ch == 13
    then codes "\\r"
    else if ch == 9
    then codes "\\t"
    else if ltb ch 32
    then codes "\\u00" ++ get_or hex_table (ch / 16 % 16) 0 ∷ get_or hex_table (ch % 16) 0 ∷ []
    else ch ∷ []

unfoldable pub escape_loop : Bytes → Bytes → Bytes
unfolding escape_byte
escape_loop [] out = out
escape_loop (ch ∷ value) out = escape_loop value (out ++ escape_byte ch)

unfoldable pub json_escape : Bytes → Bytes
unfolding escape_loop
json_escape value = escape_loop value []
