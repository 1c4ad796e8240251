-- ===== src/Panel/Escapes.antt =====
-- Percent escapes of src/gui/panel_paths.cpp, and a reader of them.
use zoal_atc.Common.{
  ℕ, ◌+◌, ◌-◌, ◌*◌, ◌/◌, ◌%◌, ◌<◌, ◌≡◌, refl, sym, ap, inl, inr, Bool-cases, Bool, true, false,
  ◌&&◌, ◌||◌, [], ◌∷◌, ◌++◌, Option, none, some, map, arith, append_assoc, ◌==◌, leb, if◌then◌else◌,
  if_known, ◌>>=◌, Bytes, IsByte, All,
}
use zoal_atc.Panel.{has, is_kept, as_slash, hex_digit, percent_escape}

-- A digit of either case.
unfoldable pub hex_value : ℕ → Option ℕ
hex_value c =
    if leb b'0' c && leb c b'9'
    then some (c - b'0')
    else if leb b'A' c && leb c b'F'
    then some (c - 55)
    else if leb b'a' c && leb c b'f'
    then some (c - 87)
    else none

-- The text that an escaped one stands for: two digits follow each percent sign.
unfoldable pub unescape : Bytes → Option Bytes
unescape [] = some []
unescape (c0 ∷ []) = if c0 == b'%' then none else some (c0 ∷ [])
unescape (c0 ∷ c1 ∷ []) =
    let next = unescape (c1 ∷ []) in
    if c0 == b'%' then none else next >>= λ bytes. some (c0 ∷ bytes)
unescape (c0 ∷ c1 ∷ c2 ∷ text) =
    let behind = unescape text in
    let next = unescape (c1 ∷ c2 ∷ text) in
    if c0 == b'%'
    then (hex_value c1 >>= λ high.
        hex_value c2 >>= λ low. behind >>= λ bytes. some ((high * 16 + low) ∷ bytes))
    else next >>= λ bytes. some (c0 ∷ bytes)

hex_value-hex_digit : (n : ℕ) → n < 16 → hex_value (hex_digit n) ≡ some n
unfolding hex_value
hex_value-hex_digit n h = ground arith

unescape-plain :
    (c : ℕ) (text : Bytes)
    → (c == b'%') ≡ false
    → unescape (c ∷ text) ≡ (unescape text >>= λ bytes. some (c ∷ bytes))
unfolding unescape
unescape-plain c [] h = rw h refl
unescape-plain c (c1 ∷ []) h = rw h refl
unescape-plain c (c1 ∷ c2 ∷ text) h = rw h refl

unescape-escaped :
    (c : ℕ) (text : Bytes)
    → c < 256
    → unescape (b'%' ∷ hex_digit (c / 16) ∷ hex_digit (c % 16) ∷ text)
      ≡ (unescape text >>= λ bytes. some (c ∷ bytes))
unfolding unescape
unescape-escaped c text h =
    let whole : c / 16 * 16 + c % 16 ≡ c = omega arith in
    rw
      (
        hex_value-hex_digit (c / 16) (omega arith),
        hex_value-hex_digit (c % 16) (omega arith),
        whole,
      )
      refl

-- What is read of a character: itself, but in a path a slash for a backslash.
unfoldable pub shown : Bool → ℕ → ℕ
shown keep c = if keep then as_slash c else c

kept-plain : (keep : Bool) (c : ℕ) → is_kept keep c ≡ true → (as_slash c == b'%') ≡ false
kept-plain true c h = ground arith
kept-plain false c h = ground arith

kept-shown : (keep : Bool) (c : ℕ) → is_kept keep c ≡ true → as_slash c ≡ shown keep c
unfolding shown
kept-shown true c h = refl
kept-shown false c h = ground arith

escaped-shown : (keep : Bool) (c : ℕ) → is_kept keep c ≡ false → c ≡ shown keep c
unfolding shown
escaped-shown true c h = ground arith
escaped-shown false c h = refl

-- `done` in front of what the rest is read as.
abbrev pub before : Bytes → Option Bytes → Option Bytes
before done rest = rest >>= λ bytes. some (done ++ bytes)

before-nil : (rest : Option Bytes) → rest ≡ before [] rest
before-nil none = refl
before-nil (some bytes) = refl

before-cons :
    (c : ℕ) (done : Bytes) (rest : Option Bytes)
    → (before done rest >>= λ bytes. some (c ∷ bytes)) ≡ before (c ∷ done) rest
before-cons c done none = refl
before-cons c done (some bytes) = refl

pub unescape-percent_escape :
    (keep : Bool) (value text : Bytes)
    → All IsByte value
    → unescape (percent_escape value keep ++ text) ≡ before (map (shown keep) value) (unescape text)
unfolding percent_escape
unescape-percent_escape keep [] text h = before-nil (unescape text)
unescape-percent_escape keep (c ∷ value) text (h, hs) =
    let rest = percent_escape value keep ++ text in
    let ih = unescape-percent_escape keep value text hs in
    let value_shown = map (shown keep) value in
    elim (Bool-cases (is_kept keep c)) [
      | inl kept ↦ rw kept (
          rw (unescape-plain (as_slash c) rest (kept-plain keep c kept), ih, kept-shown keep c kept)
            (before-cons (shown keep c) value_shown (unescape text)))
      | inr escaped ↦ rw escaped (
          rw (unescape-escaped c rest h, ih, sym (escaped-shown keep c escaped))
            (before-cons c value_shown (unescape text)))
    ]

pub unescape-append :
    (plain text : Bytes)
    → has b'%' plain ≡ false
    → unescape (plain ++ text) ≡ before plain (unescape text)
unescape-append [] text h = before-nil (unescape text)
unescape-append (c ∷ plain) text h =
    let here : (c == b'%') ≡ false = ground arith in
    let behind : has b'%' plain ≡ false = ground arith in
    rw (unescape-plain c (plain ++ text) here, unescape-append plain text behind)
      (before-cons c plain (unescape text))

pub before-before :
    (first second : Bytes) (rest : Option Bytes)
    → before first (before second rest) ≡ before (first ++ second) rest
before-before first second none = refl
before-before first second (some bytes) = ap some (sym (append_assoc first second bytes))

-- The characters of an escaped value: letters, digits, `-`, `_`, `.` and the percent sign.
abbrev pub Unreserved : ℕ → Type 0
Unreserved c = (is_kept false c || c == b'%') ≡ true

hex_digit-Unreserved : (n : ℕ) → n < 16 → Unreserved (hex_digit n)
hex_digit-Unreserved n h = ground arith

kept-Unreserved : (c : ℕ) → is_kept false c ≡ true → Unreserved (as_slash c)
kept-Unreserved c h = ground arith

pub percent_escape-Unreserved :
    (value : Bytes) → All IsByte value → All Unreserved (percent_escape value false)
unfolding percent_escape
percent_escape-Unreserved [] h = tt
percent_escape-Unreserved (c ∷ value) (h, hs) =
    let ih = percent_escape-Unreserved value hs in
    if_known (All Unreserved) (is_kept false c) (λ kept. (kept-Unreserved c kept, ih))
      (λ _. (
        refl,
        (
          hex_digit-Unreserved (c / 16) (omega arith),
          (hex_digit-Unreserved (c % 16) (omega arith), ih),
        ),
      ))
