-- ===== src/Json/Found.antt =====
-- What the readers of src/transport/json_util.cpp that look for a key find.
use mathlib.Core.Path.{subst}
use zoal_atc.Common.{
  ℕ, zero, suc, ◌≡◌, refl, sym, ap, ◌∙◌, inl, inr, true, [], ◌∷◌, ◌++◌, none, some, arith,
  Bool-cases, Option-cases, Bytes, length, drop, append_assoc, All,
}
use zoal_atc.Json.{is_space, skip_ws, expect}
use zoal_atc.Json.Search.{is_prefix, find_behind, value_loop, quoted_key, field_value_pos}

is_prefix-drop : (s text : Bytes) → is_prefix s text ≡ true → text ≡ s ++ drop (length s) text
is_prefix-drop [] text h = refl
is_prefix-drop (d ∷ s) [] h = absurd cc
is_prefix-drop (d ∷ s) (c ∷ text) h =
    let same : d ≡ c = ground arith in
    let rest : is_prefix s text ≡ true = ground arith in
    rw (same, sym (is_prefix-drop s text rest)) refl

find_behind-splits :
    (needle json behind : Bytes)
    → find_behind needle json ≡ some behind
    → (before : Bytes) × (json ≡ before ++ (needle ++ behind))
unfolding find_behind
find_behind-splits needle [] behind e = absurd cc
find_behind-splits needle (c ∷ json) behind e = elim (Bool-cases (is_prefix needle (c ∷ json))) [
  | inl here ↦
      let got : drop (length needle) (c ∷ json) ≡ behind = ground arith in
      ([], rw (sym got) (is_prefix-drop needle (c ∷ json) here))
  | inr later ↦
      let found : find_behind needle json ≡ some behind = ground arith in
      let (before, f) = find_behind-splits needle json behind found in (c ∷ before, ap (◌∷◌ c) f)
]

-- White space alone.
abbrev pub IsBlank : Bytes → Type 0
IsBlank text = All (λ (c : ℕ). is_space c ≡ true) text

skip_ws-splits : (json : Bytes) → (blank : Bytes) × IsBlank blank × (json ≡ blank ++ skip_ws json)
unfolding skip_ws
skip_ws-splits [] = ([], tt, refl)
skip_ws-splits (c ∷ json) = elim (Bool-cases (is_space c)) [
  | inl space ↦
      let (blank, b, e) = skip_ws-splits json in (c ∷ blank, (space, b), rw space (ap (◌∷◌ c) e))
  | inr plain ↦ ([], tt, rw plain refl)
]

expect-splits :
    (wanted : ℕ) (json rest : Bytes) → expect wanted json ≡ some rest → json ≡ wanted ∷ rest
unfolding expect
expect-splits wanted [] rest e = absurd cc
expect-splits wanted (c ∷ json) rest e = ground arith

-- The key in quotes somewhere in the text, then a colon, then the value.
abbrev pub Binds : Bytes → Bytes → Bytes → Type 0
Binds needle json value =
    (before : Bytes) × (gap : Bytes) × (space : Bytes) × IsBlank gap
    × IsBlank space
    × (json ≡ before ++ (needle ++ (gap ++ b':' ∷ (space ++ value))))

Binds-later :
    (needle json more rest value : Bytes)
    → json ≡ more ++ rest
    → Binds needle rest value
    → Binds needle json value
Binds-later needle json more rest value e (before, gap, space, b, c, f) = (
  more ++ before,
  gap,
  space,
  b,
  c,
  e
      ∙ (ap (λ (r : Bytes). more ++ r) f
          ∙ sym (append_assoc more before (needle ++ (gap ++ b':' ∷ (space ++ value))))),
)

Binds-here :
    (needle json before behind rest : Bytes)
    → json ≡ before ++ (needle ++ behind)
    → skip_ws behind ≡ b':' ∷ rest
    → Binds needle json (skip_ws rest)
Binds-here needle json before behind rest e f =
    let (gap, b, g) = skip_ws-splits behind in
    let (space, c, h) = skip_ws-splits rest in
    (
      before,
      gap,
      space,
      b,
      c,
      e
          ∙ ap (λ (r : Bytes). before ++ (needle ++ r))
              (g ∙ ap (λ (r : Bytes). gap ++ r) (f ∙ ap (◌∷◌ b':') h)),
    )

Binds-next :
    (needle json before behind value : Bytes)
    → json ≡ before ++ (needle ++ behind)
    → Binds needle (skip_ws behind) value
    → Binds needle json value
Binds-next needle json before behind value e h =
    let (gap, b, g) = skip_ws-splits behind in
    Binds-later needle json (before ++ (needle ++ gap)) (skip_ws behind) value
      (e
        ∙ (ap (λ (r : Bytes). before ++ (needle ++ r)) g
            ∙ sym (
                append_assoc before (needle ++ gap) (skip_ws behind)
                ∙ ap (λ (r : Bytes). before ++ r) (append_assoc needle gap (skip_ws behind)))))
      h

value_loop-Binds :
    (fuel : ℕ) (needle json value : Bytes)
    → value_loop fuel needle json ≡ some value
    → Binds needle json value
unfolding value_loop
value_loop-Binds zero needle json value e = absurd cc
value_loop-Binds (suc fuel) needle json value e = elim (Option-cases (find_behind needle json)) [
  | inl n ↦ let bad : none ≡ some value = rw (n, value_loop) at e in absurd cc
  | inr (behind, f) ↦
      let (before, g) = find_behind-splits needle json behind f in
      elim (Option-cases (expect b':' (skip_ws behind))) [
        | inl n ↦
            Binds-next needle json before behind value g
              (value_loop-Binds fuel needle (skip_ws behind) value (rw (f, value_loop, n) at e))
        | inr (rest, h) ↦
            let same : some (skip_ws rest) ≡ some value = rw (f, value_loop, h) at e in
            let v : skip_ws rest ≡ value = cc in
            subst (Binds needle json) v (
              Binds-here needle json before behind rest g
                (expect-splits b':' (skip_ws behind) rest h))
      ]
]

-- Where a key is found, it stands in the text between quotes, with a colon behind it and nothing
-- but white space around that, and the value is all that follows.
pub field_value_pos-Binds :
    (json key value : Bytes)
    → field_value_pos json key ≡ some value
    → Binds (quoted_key key) json value
unfolding field_value_pos
field_value_pos-Binds json key value e =
    value_loop-Binds (suc (length json)) (quoted_key key) json value e
