-- ===== src/Json/Escape.antt =====
-- A string that is escaped and read back (src/transport/json_util.cpp).
use mathlib.Core.List.{flat_map}
use zoal_atc.Common.{
  ℕ, [], ◌∷◌, ◌++◌, ◌≡◌, sym, some, map, arith, ltb, ◌==◌, ◌||◌, ◌&&◌, not, if◌then◌else◌, Bytes,
  append_assoc, append-nil,
}
use zoal_atc.Json.{
  plain, string_body, parse_string_at, json_unquote, escape_byte, escape_loop, json_escape, skip_ws,
}

pub escape-flat_map :
    (value out : Bytes) → escape_loop value out ≡ out ++ flat_map escape_byte value
unfolding escape_loop flat_map
escape-flat_map [] out = sym (append-nil out)
escape-flat_map (ch ∷ value) out = simp (escape-flat_map value, append_assoc)

-- What is read back of a byte: a control character that has no escape of one letter is lost, since
-- the reader takes every `\u` escape for a question mark.
abbrev pub shown : ℕ → ℕ
shown ch =
    if ltb ch 32 && not (ch == 8 || ch == 9 || ch == 10 || ch == 12 || ch == 13) then b'?' else ch

string_body-escape_byte :
    (ch : ℕ) (rest out : Bytes)
    → string_body plain (escape_byte ch ++ rest) out ≡ string_body plain rest (out ++ shown ch ∷ [])
unfolding string_body escape_byte
string_body-escape_byte ch rest out = ground arith

string_body-flat_map :
    (value rest out : Bytes)
    → string_body plain (flat_map escape_byte value ++ b'"' ∷ rest) out
      ≡ some (out ++ map shown value, rest)
unfolding flat_map
string_body-flat_map [] rest out = unfold string_body in rw append-nil
string_body-flat_map (ch ∷ value) rest out =
    simp (append_assoc, string_body-escape_byte, string_body-flat_map value)

pub parse_string_at-escape :
    (value rest : Bytes)
    → parse_string_at (b'"' ∷ json_escape value ++ b'"' ∷ rest) ≡ some (map shown value, rest)
unfolding parse_string_at json_escape
parse_string_at-escape value rest =
    rw (escape-flat_map value []) (string_body-flat_map value rest [])

-- An escaped string between quotes is read back as it was, but for the control characters that have
-- no escape of one letter, each of which becomes a question mark.
pub unquote-escape :
    (value : Bytes) → json_unquote (b'"' ∷ json_escape value ++ b'"' ∷ []) ≡ some (map shown value)
unfolding json_unquote skip_ws
unquote-escape value = rw (parse_string_at-escape value [])
