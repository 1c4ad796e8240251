-- ===== src/Json/Nesting.antt =====
-- `skip_nested` on whole JSON values (src/transport/json_util.cpp).
use zoal_atc.Common.{
  ℕ, suc, ◌+◌, ◌-◌, ◌≡◌, ◌≢◌, refl, ◌∙◌, ap, Bool, true, false, some, [], ◌∷◌, ◌++◌, ◌⊎◌, inl, inr,
  arith, ◌==◌, ◌||◌, not, Bytes, codes, length, append_assoc, All,
}
use zoal_atc.Json.{skip_nested, json_escape}
use zoal_atc.Json.Escape.{parse_string_at-escape}
use zoal_atc.Json.Fuel.{nested, skip_nested_fuel, parse_string_at-lt}
use zoal_atc.Json.Values.{
  Value, null, bool, num, str, arr, obj, Items, nil, item, Members, end, member, quoted, print,
  print_items, print_more, print_members, print_more_members, number_char, IsWellFormed,
  AllWellFormed, MembersWellFormed,
}

-- The two kinds of brackets.
abbrev pub IsPair : ℕ → ℕ → Type 0
IsPair o c = ((o ≡ b'{') × (c ≡ b'}')) ⊎ ((o ≡ b'[') × (c ≡ b']'))

-- Within brackets, a text that leaves the depth as it was.
abbrev pub Balanced : ℕ → ℕ → Bytes → Type 0
Balanced o c text =
    (d : ℕ) (rest : Bytes) → nested o c (suc d) (text ++ rest) ≡ nested o c (suc d) rest

nested-char :
    (o c d ch : ℕ) (rest : Bytes)
    → ch ≢ b'"'
    → ch ≢ o
    → ch ≢ c
    → nested o c d (ch ∷ rest) ≡ nested o c d rest
unfolding skip_nested
nested-char o c d ch rest p q r = ground arith

pub nested-open :
    (o c d : ℕ) (rest : Bytes) → IsPair o c → nested o c d (o ∷ rest) ≡ nested o c (suc d) rest
unfolding skip_nested
nested-open o c d rest p = let e : d + 1 ≡ suc d = omega arith in ground arith

nested-close :
    (o c d : ℕ) (rest : Bytes)
    → IsPair o c
    → nested o c (suc (suc d)) (c ∷ rest) ≡ nested o c (suc d) rest
unfolding skip_nested
nested-close o c d rest p = let e : suc (suc d) - 1 ≡ suc d = omega arith in ground arith

pub nested-last : (o c : ℕ) (rest : Bytes) → IsPair o c → nested o c 1 (c ∷ rest) ≡ some rest
unfolding skip_nested
nested-last o c rest p = ground arith

nested-quoted :
    (o c d : ℕ) (s rest : Bytes)
    → IsPair o c
    → nested o c d (b'"' ∷ json_escape s ++ b'"' ∷ rest) ≡ nested o c d rest
unfolding skip_nested
nested-quoted o c d s rest p =
    let e = parse_string_at-escape s rest in
    ground (
      arith,
      e,
      parse_string_at-lt (b'"' ∷ json_escape s ++ b'"' ∷ rest) e,
      skip_nested_fuel (length (b'"' ∷ json_escape s ++ b'"' ∷ rest)) (suc (length rest)) o c d
          rest,
    )

pub bracket-append : (l r : ℕ) (xs rest : Bytes) → (l ∷ xs ++ r ∷ []) ++ rest ≡ l ∷ xs ++ r ∷ rest
bracket-append l r xs rest = ap (◌∷◌ l) (append_assoc xs (r ∷ []) rest)

pub quoted-append : (s rest : Bytes) → quoted s ++ rest ≡ b'"' ∷ json_escape s ++ b'"' ∷ rest
quoted-append s rest = bracket-append b'"' b'"' (json_escape s) rest

-- Two pairs of brackets are the same, or have nothing in common.
pair-cases :
    (o c l r : ℕ)
    → IsPair o c
    → IsPair l r
    → ((l ≡ o) × (r ≡ c)) ⊎ ((l ≢ b'"') × (l ≢ o) × (l ≢ c) × (r ≢ b'"') × (r ≢ o) × (r ≢ c))
pair-cases o c l r p q = ground arith

-- A character that the loop over brackets takes no notice of.
abbrev is_neutral : ℕ → Bool
is_neutral ch = not (ch == b'"' || ch == b'{' || ch == b'}' || ch == b'[' || ch == b']')

module _ (o c : ℕ) (pair : IsPair o c) where
  Balanced-nil : Balanced o c []
  Balanced-nil d rest = refl

  Balanced-append : (xs ys : Bytes) → Balanced o c xs → Balanced o c ys → Balanced o c (xs ++ ys)
  Balanced-append xs ys p q d rest = rw append_assoc (p d (ys ++ rest) ∙ q d rest)

  Balanced-char :
      (ch : ℕ) (xs : Bytes) → ch ≢ b'"' → ch ≢ o → ch ≢ c → Balanced o c xs → Balanced o c (ch ∷ xs)
  Balanced-char ch xs p q r h d rest = nested-char o c (suc d) ch (xs ++ rest) p q r ∙ h d rest

  Balanced-quoted : (s : Bytes) → Balanced o c (quoted s)
  Balanced-quoted s d rest =
      ap (nested o c (suc d)) (quoted-append s rest) ∙ nested-quoted o c (suc d) s rest pair

  -- The pair's own brackets and the other pair's.
  Balanced-brackets :
      (l r : ℕ) (xs : Bytes) → IsPair l r → Balanced o c xs → Balanced o c (l ∷ xs ++ r ∷ [])
  Balanced-brackets l r xs own h d rest =
      ap (nested o c (suc d)) (bracket-append l r xs rest) ∙ elim (pair-cases o c l r pair own) [
        | inl (el, er) ↦ cc (
          el,
          er,
          nested-open o c (suc d) (xs ++ c ∷ rest) pair,
          h (suc d) (c ∷ rest),
          nested-close o c d rest pair,
        )
        | inr (l₁, l₂, l₃, r₁, r₂, r₃) ↦
            nested-char o c (suc d) l (xs ++ r ∷ rest) l₁ l₂ l₃
            ∙ h d (r ∷ rest)
            ∙ nested-char o c (suc d) r rest r₁ r₂ r₃
      ]

  Balanced-word : (text : Bytes) → All (λ ch. is_neutral ch ≡ true) text → Balanced o c text
  Balanced-word [] h = Balanced-nil
  Balanced-word (ch ∷ text) (h, hs) =
      Balanced-char ch text (ground arith) (ground arith) (ground arith) (Balanced-word text hs)

  Balanced-number : (text : Bytes) → All (λ ch. number_char ch ≡ true) text → Balanced o c text
  Balanced-number [] h = Balanced-nil
  Balanced-number (ch ∷ text) (h, hs) =
      Balanced-char ch text (ground arith) (ground arith) (ground arith) (Balanced-number text hs)

  mutual
    print-Balanced : (v : Value) → IsWellFormed v → Balanced o c (print v)
    print-Balanced null h = Balanced-word (codes "null") (refl, (refl, (refl, (refl, tt))))
    print-Balanced (bool true) h = Balanced-word (codes "true") (refl, (refl, (refl, (refl, tt))))
    print-Balanced (bool false) h =
        Balanced-word (codes "false") (refl, (refl, (refl, (refl, (refl, tt)))))
    print-Balanced (num text) h = Balanced-number text h.1
    print-Balanced (str s) h = Balanced-quoted s
    print-Balanced (arr xs) h =
        Balanced-brackets b'[' b']' (print_items xs) (inr (refl, refl)) (print_items-Balanced xs h)
    print-Balanced (obj ms) h =
        Balanced-brackets b'{' b'}' (print_members ms) (inl (refl, refl))
          (print_members-Balanced ms h)

    pub print_items-Balanced : (xs : Items) → AllWellFormed xs → Balanced o c (print_items xs)
    print_items-Balanced nil h = Balanced-nil
    print_items-Balanced (item v xs) h =
        Balanced-append (print v) (print_more xs) (print-Balanced v h.0)
          (print_more-Balanced xs h.1)

    print_more-Balanced : (xs : Items) → AllWellFormed xs → Balanced o c (print_more xs)
    print_more-Balanced nil h = Balanced-nil
    print_more-Balanced (item v xs) h =
        Balanced-char b',' (print v ++ print_more xs) (ground arith) (ground arith) (ground arith) (
          Balanced-append (print v) (print_more xs) (print-Balanced v h.0)
            (print_more-Balanced xs h.1))

    pub print_members-Balanced :
        (ms : Members) → MembersWellFormed ms → Balanced o c (print_members ms)
    print_members-Balanced end h = Balanced-nil
    print_members-Balanced (member k v ms) h =
        Balanced-append (quoted k) (b':' ∷ print v ++ print_more_members ms) (Balanced-quoted k) (
          Balanced-char b':' (print v ++ print_more_members ms) (ground arith) (ground arith)
            (ground arith)
            (Balanced-append (print v) (print_more_members ms) (print-Balanced v h.0)
              (print_more_members-Balanced ms h.1)))

    print_more_members-Balanced :
        (ms : Members) → MembersWellFormed ms → Balanced o c (print_more_members ms)
    print_more_members-Balanced end h = Balanced-nil
    print_more_members-Balanced (member k v ms) h =
        Balanced-char b',' (quoted k ++ (b':' ∷ print v ++ print_more_members ms)) (ground arith)
          (ground arith) (ground arith)
          (Balanced-append (quoted k) (b':' ∷ print v ++ print_more_members ms) (Balanced-quoted k)
            (Balanced-char b':' (print v ++ print_more_members ms) (ground arith) (ground arith)
              (ground arith)
              (Balanced-append (print v) (print_more_members ms) (print-Balanced v h.0)
                (print_more_members-Balanced ms h.1))))
