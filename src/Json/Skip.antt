-- ===== src/Json/Skip.antt =====
-- `skip_value` of src/transport/json_util.cpp on a whole value and what follows it.
use zoal_atc.Common.{
  ℕ, ◌≡◌, refl, Bool, true, false, some, [], ◌∷◌, ◌++◌, inl, inr, arith, ◌==◌, ◌||◌, not, Bytes,
  codes, All, length-append,
}
use zoal_atc.Json.{skip_ws, is_structural, is_space, skip_scalar, skip_value_at, skip_value}
use zoal_atc.Json.Escape.{parse_string_at-escape}
use zoal_atc.Json.Values.{
  Value, null, bool, num, str, arr, obj, quoted, print, print_items, print_members, number_char,
  IsWellFormed,
}
use zoal_atc.Json.Nesting.{
  IsPair, Balanced, nested-open, nested-last, bracket-append, quoted-append, print_items-Balanced,
  print_members-Balanced,
}

-- Where a number, `true`, `false` or `null` ends: at the end of the text or a structural character.
abbrev pub Stops : Bytes → Type 0
Stops [] = Unit
Stops (ch ∷ rest) = is_structural ch ≡ true

skip_scalar-word :
    (text rest : Bytes)
    → All (λ ch. is_structural ch ≡ false) text
    → Stops rest
    → skip_scalar (text ++ rest) ≡ rest
unfolding skip_scalar
skip_scalar-word [] [] h s = refl
skip_scalar-word [] (ch ∷ rest) h s = rw s
skip_scalar-word (ch ∷ text) rest (h, hs) s = rw h (skip_scalar-word text rest hs s)

number-scalar :
    (text : Bytes)
    → All (λ ch. number_char ch ≡ true) text
    → All (λ ch. is_structural ch ≡ false) text
number-scalar [] h = tt
number-scalar (ch ∷ text) (h, hs) = (ground arith, number-scalar text hs)

-- A first character that is no quote, bracket, space or structural character.
abbrev starts_scalar : ℕ → Bool
starts_scalar ch = not (ch == b'"' || ch == b'{' || ch == b'[' || is_structural ch)

number-start : (ch : ℕ) → number_char ch ≡ true → starts_scalar ch ≡ true
number-start ch h = ground arith

skip_value-scalar :
    (ch : ℕ) (text rest : Bytes)
    → starts_scalar ch ≡ true
    → All (λ ch. is_structural ch ≡ false) (ch ∷ text)
    → Stops rest
    → skip_value (ch ∷ text ++ rest) ≡ some rest
unfolding skip_value skip_value_at skip_ws
skip_value-scalar ch text rest h hs s =
    ground (arith, skip_scalar-word (ch ∷ text) rest hs s, length-append text rest)

skip_value-quoted : (s rest : Bytes) → skip_value (quoted s ++ rest) ≡ some rest
unfolding skip_value skip_value_at skip_ws
skip_value-quoted s rest = rw (quoted-append s rest, parse_string_at-escape s rest)

skip_value-brackets :
    (o c : ℕ) (xs rest : Bytes)
    → IsPair o c
    → Balanced o c xs
    → skip_value ((o ∷ xs ++ c ∷ []) ++ rest) ≡ some rest
unfolding skip_value skip_value_at skip_ws
skip_value-brackets o c xs rest p h =
    rw (bracket-append o c xs rest)
      (ground (arith, nested-open o c 0 (xs ++ c ∷ rest) p, h 0 (c ∷ rest), nested-last o c rest p))

-- Every well-formed JSON value, whatever objects, arrays and strings with brackets and quotes it
-- holds, is stepped over exactly, if it is followed by a structural character, white space or the
-- end of the text.
pub skip_value-print :
    (v : Value) (rest : Bytes)
    → IsWellFormed v
    → Stops rest
    → skip_value (print v ++ rest) ≡ some rest
skip_value-print null rest h s =
    skip_value-scalar b'n' (codes "ull") rest refl (refl, (refl, (refl, (refl, tt)))) s
skip_value-print (bool true) rest h s =
    skip_value-scalar b't' (codes "rue") rest refl (refl, (refl, (refl, (refl, tt)))) s
skip_value-print (bool false) rest h s =
    skip_value-scalar b'f' (codes "alse") rest refl (refl, (refl, (refl, (refl, (refl, tt))))) s
skip_value-print (num []) rest h s = absurd (h.0 refl)
skip_value-print (num (ch ∷ text)) rest h s =
    skip_value-scalar ch text rest (number-start ch h.1.0) (number-scalar (ch ∷ text) h.1) s
skip_value-print (str t) rest h s = skip_value-quoted t rest
skip_value-print (arr xs) rest h s =
    skip_value-brackets b'[' b']' (print_items xs) rest (inr (refl, refl))
      (print_items-Balanced b'[' b']' (inr (refl, refl)) xs h)
skip_value-print (obj ms) rest h s =
    skip_value-brackets b'{' b'}' (print_members ms) rest (inl (refl, refl))
      (print_members-Balanced b'{' b'}' (inl (refl, refl)) ms h)

abbrev pub StartsPlain : Bytes → Type 0
StartsPlain [] = ⊥
StartsPlain (c ∷ s) = is_space c ≡ false

-- A text that the readers take for one value: it begins with no space, and `skip_value` steps over it
-- exactly.
pub record IsRaw (text : Bytes) : Type 0 where
  pub starts : StartsPlain text
  pub skipped : (rest : Bytes) → Stops rest → skip_value (text ++ rest) ≡ some rest

pub quoted-IsRaw : (s : Bytes) → IsRaw (quoted s)
quoted-IsRaw s = record { starts = refl; skipped = λ rest h. skip_value-quoted s rest }

number-not_space : (ch : ℕ) → number_char ch ≡ true → is_space ch ≡ false
number-not_space ch h = ground arith

print-starts : (v : Value) → IsWellFormed v → StartsPlain (print v)
print-starts null h = refl
print-starts (bool true) h = refl
print-starts (bool false) h = refl
print-starts (num []) h = h.0 refl
print-starts (num (ch ∷ text)) h = number-not_space ch h.1.0
print-starts (str s) h = refl
print-starts (arr xs) h = refl
print-starts (obj ms) h = refl

pub print-IsRaw : (v : Value) → IsWellFormed v → IsRaw (print v)
print-IsRaw v h = record {
  starts = print-starts v h;
  skipped = λ rest s. skip_value-print v rest h s;
}
