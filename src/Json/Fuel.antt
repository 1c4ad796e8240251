-- ===== src/Json/Fuel.antt =====
-- The fuel of the loops of src/transport/json_util.cpp.
use zoal_atc.Common.{
  ℕ, zero, suc, ◌+◌, ◌-◌, ◌≤◌, ◌<◌, ◌≡◌, refl, ap, Option, none, some, [], ◌∷◌, ◌++◌, inl, inr,
  arith, Option-cases, ◌==◌, if◌then◌else◌, bind_cong, Bytes, length, text_eq, take,
}
use zoal_atc.Json.{
  Mode, plain, escaped, digits, escape_char, skip_ws, string_body, parse_string_at, skip_nested,
  skip_value_at, skip_value, expect, raw_field_at, raw_fields,
}

pub skip_ws-le : (json : Bytes) → length (skip_ws json) ≤ length json
unfolding skip_ws
skip_ws-le [] = omega arith
skip_ws-le (c ∷ json) = ground (arith, skip_ws-le json)

string_body-lt :
    (m : Mode) (json out : Bytes) {s rest : Bytes}
    → string_body m json out ≡ some (s, rest)
    → length rest < length json
unfolding string_body
string_body-lt m [] out e = cc
string_body-lt plain (c ∷ json) out {s} {rest} e = ground (
  arith,
  string_body-lt escaped json out {s = s} {rest = rest},
  string_body-lt plain json (out ++ c ∷ []) {s = s} {rest = rest},
)
string_body-lt escaped (c ∷ json) out {s} {rest} e = elim (Option-cases (escape_char c)) [
  | inl u ↦ omega (arith, string_body-lt (digits 3) json (out ++ b'?' ∷ []) (skipped u e))
  | inr (d, known) ↦
      let copied : string_body plain json (out ++ d ∷ []) ≡ some (s, rest) =
        rw (known, string_body) at e in
      omega (arith, string_body-lt plain json (out ++ d ∷ []) copied)
]
  where
    skipped :
        escape_char c ≡ none
        → string_body escaped (c ∷ json) out ≡ some (s, rest)
        → string_body (digits 3) json (out ++ b'?' ∷ []) ≡ some (s, rest)
    skipped u e' = ground arith
string_body-lt (digits zero) (c ∷ json) out e = omega (arith, string_body-lt plain json out e)
string_body-lt (digits (suc n)) (c ∷ json) out e =
    omega (arith, string_body-lt (digits n) json out e)

pub parse_string_at-lt :
    (json : Bytes) {s rest : Bytes}
    → parse_string_at json ≡ some (s, rest)
    → length rest < length json
unfolding parse_string_at
parse_string_at-lt [] e = cc
parse_string_at-lt (c ∷ json) {s} {rest} e =
    ground (arith, string_body-lt plain json [] {s = s} {rest = rest})

pub skip_nested_fuel :
    (f g o c depth : ℕ) (json : Bytes)
    → length json < f
    → length json < g
    → skip_nested f o c depth json ≡ skip_nested g o c depth json
unfolding skip_nested
skip_nested_fuel zero g o c depth json p q = absurd (omega arith)
skip_nested_fuel (suc f) zero o c depth json p q = absurd (omega arith)
skip_nested_fuel (suc f) (suc g) o c depth [] p q = refl
skip_nested_fuel (suc f) (suc g) o c depth (ch ∷ json) p q =
    elim (Option-cases (parse_string_at (ch ∷ json))) [
      | inl e ↦ ground (
        arith,
        skip_nested_fuel f g o c (depth + 1) json,
        skip_nested_fuel f g o c (depth - 1) json,
        skip_nested_fuel f g o c depth json,
      )
      | inr ((s, rest), e) ↦ ground (
        arith,
        parse_string_at-lt (ch ∷ json) e,
        skip_nested_fuel f g o c depth rest,
        skip_nested_fuel f g o c (depth + 1) json,
        skip_nested_fuel f g o c (depth - 1) json,
        skip_nested_fuel f g o c depth json,
      )
    ]

pub skip_nested-lt :
    (f o c depth : ℕ) (json : Bytes) {rest : Bytes}
    → skip_nested f o c depth json ≡ some rest
    → length rest < length json
unfolding skip_nested
skip_nested-lt zero o c depth json e = cc
skip_nested-lt (suc f) o c depth [] e = cc
skip_nested-lt (suc f) o c depth (ch ∷ json) {rest} e =
    elim (Option-cases (parse_string_at (ch ∷ json))) [
      | inl p ↦ ground (
        arith,
        skip_nested-lt f o c (depth + 1) json {rest = rest},
        skip_nested-lt f o c (depth - 1) json {rest = rest},
        skip_nested-lt f o c depth json {rest = rest},
      )
      | inr ((s, behind), p) ↦ ground (
        arith,
        parse_string_at-lt (ch ∷ json) p,
        skip_nested-lt f o c depth behind {rest = rest},
        skip_nested-lt f o c (depth + 1) json {rest = rest},
        skip_nested-lt f o c (depth - 1) json {rest = rest},
        skip_nested-lt f o c depth json {rest = rest},
      )
    ]

skip_value_at-lt :
    (json : Bytes) {rest : Bytes} → skip_value_at json ≡ some rest → length rest < length json
unfolding skip_value_at
skip_value_at-lt [] e = cc
skip_value_at-lt (first ∷ json) {rest} e = elim (Option-cases (parse_string_at (first ∷ json))) [
  | inl p ↦ ground (
    arith,
    skip_nested-lt (suc (length (first ∷ json))) b'{' b'}' 0 (first ∷ json) {rest = rest},
    skip_nested-lt (suc (length (first ∷ json))) b'[' b']' 0 (first ∷ json) {rest = rest},
  )
  | inr ((s, behind), p) ↦ ground (
    arith,
    parse_string_at-lt (first ∷ json) p,
    skip_nested-lt (suc (length (first ∷ json))) b'{' b'}' 0 (first ∷ json) {rest = rest},
    skip_nested-lt (suc (length (first ∷ json))) b'[' b']' 0 (first ∷ json) {rest = rest},
  )
]

pub skip_value-lt :
    (json : Bytes) {rest : Bytes} → skip_value json ≡ some rest → length rest < length json
unfolding skip_value
skip_value-lt json e = omega (arith, skip_value_at-lt (skip_ws json) e, skip_ws-le json)

pub expect-lt :
    (c : ℕ) (json : Bytes) {rest : Bytes} → expect c json ≡ some rest → length rest < length json
unfolding expect
expect-lt c [] e = cc
expect-lt c (d ∷ json) e = ground arith

-- A round of the loop over the fields calls its continuation on a shorter text only.
raw_field_at_cong :
    (next next' : Bytes → Option Bytes) (key json : Bytes)
    → ((rest : Bytes) → length rest < length json → next rest ≡ next' rest)
    → raw_field_at next key json ≡ raw_field_at next' key json
unfolding raw_field_at
raw_field_at_cong next next' key [] same = refl
raw_field_at_cong next next' key (c ∷ json) same =
    ap (λ (r : Option Bytes). if c == b'}' then none else r)
      (bind_cong (parse_string_at (c ∷ json)) _ _ λ (field, rest) read.
        bind_cong (expect b':' (skip_ws rest)) _ _ λ value colon.
          bind_cong (skip_value (skip_ws value)) _ _ λ end skipped.
            ap
              (λ (r : Option Bytes).
                if text_eq field key
                then some (take (length (skip_ws value) - length end) (skip_ws value))
                else r)
              (bind_cong (expect b',' (skip_ws end)) next next' λ more comma. same more (
                omega (
                  arith,
                  parse_string_at-lt (c ∷ json) read,
                  skip_ws-le rest,
                  expect-lt b':' (skip_ws rest) colon,
                  skip_ws-le value,
                  skip_value-lt (skip_ws value) skipped,
                  skip_ws-le end,
                  expect-lt b',' (skip_ws end) comma,
                ))))

raw_fields_fuel :
    (f g : ℕ) (key json : Bytes)
    → length json < f
    → length json < g
    → raw_fields f key json ≡ raw_fields g key json
unfolding raw_fields
raw_fields_fuel zero g key json p q = absurd (omega arith)
raw_fields_fuel (suc f) zero key json p q = absurd (omega arith)
raw_fields_fuel (suc f) (suc g) key json p q =
    raw_field_at_cong (raw_fields f key) (raw_fields g key) key (skip_ws json) λ rest lt.
      raw_fields_fuel f g key rest (omega (arith, skip_ws-le json)) (omega (arith, skip_ws-le json))

-- The loop of `json_raw_field` with the fuel that it is given.
abbrev pub fields_loop : Bytes → Bytes → Option Bytes
fields_loop key json = raw_fields (suc (length json)) key json

-- The loop over the fields ends by itself: with the fuel that `json_raw_field` gives it satisfies
-- the equation of the source's unbounded loop, one round and then the loop again, on every text.
pub fields_loop_step :
    (key json : Bytes) → fields_loop key json ≡ raw_field_at (fields_loop key) key (skip_ws json)
unfolding raw_fields
fields_loop_step key json =
    raw_field_at_cong (raw_fields (length json) key) (fields_loop key) key (skip_ws json) λ rest lt.
      raw_fields_fuel (length json) (suc (length rest)) key rest (omega (arith, skip_ws-le json))
        (omega arith)

-- The same loop over brackets.
abbrev pub nested : ℕ → ℕ → ℕ → Bytes → Option Bytes
nested o c depth json = skip_nested (suc (length json)) o c depth json
