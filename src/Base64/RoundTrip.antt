-- ===== src/Base64/RoundTrip.antt =====
-- base64_encode of src/transport/base64.cpp read back by the decoder of RFC 4648.
use zoal_atc.Common.{
  ℕ, zero, suc, ◌+◌, ◌-◌, ◌*◌, ◌/◌, ◌%◌, ◌^◌, ◌<◌, ◌≡◌, refl, Bool, true, false, not, ◌&&◌, [], ◌∷◌,
  Option, none, some, arith, ◌==◌, leb, if◌then◌else◌, ◌>>=◌, Bytes, IsByte, All, length, get_or,
}
use zoal_atc.Base64.{table, letter, triple, base64_encode}

-- The value of a letter of the alphabet.
unfoldable pub value : ℕ → Option ℕ
value c =
    if leb b'A' c && leb c b'Z'
    then some (c - b'A')
    else if leb b'a' c && leb c b'z'
    then some (c - b'a' + 26)
    else if leb b'0' c && leb c b'9'
    then some (c - b'0' + 52)
    else if c == b'+'
    then some 62
    else if c == b'/'
    then some 63
    else none

-- Four letters give three bytes; padding ends the text.
pub decode : Bytes → Option Bytes
decode [] = some []
decode (c0 ∷ []) = none
decode (c0 ∷ c1 ∷ []) = none
decode (c0 ∷ c1 ∷ c2 ∷ []) = none
decode (c0 ∷ c1 ∷ c2 ∷ c3 ∷ text) =
    let rest = decode text in
    value c0 >>= λ v0. value c1 >>= λ v1.
    if c2 == b'='
    then some ((v0 * 4 + v1 / 16) ∷ [])
    else value c2 >>= λ v2.
        (if c3 == b'='
          then some ((v0 * 4 + v1 / 16) ∷ (v1 % 16 * 16 + v2 / 4) ∷ [])
          else value c3 >>= λ v3. rest >>= λ bytes.
              some ((v0 * 4 + v1 / 16) ∷ (v1 % 16 * 16 + v2 / 4) ∷ (v2 % 4 * 64 + v3) ∷ bytes))

and_left : (a b : Bool) → (a && b) ≡ true → a ≡ true
and_left true b h = refl
and_left false b h = h

and_right : (a b : Bool) → (a && b) ≡ true → b ≡ true
and_right true b h = h
and_right false b h = absurd cc

-- Whether each place of a table and its letter pass a test.
every : ℕ → Bytes → (ℕ → ℕ → Bool) → Bool
every i [] test = true
every i (c ∷ cs) test = test i c && every (suc i) cs test

every-get_or :
    (i j : ℕ) (cs : Bytes) (test : ℕ → ℕ → Bool)
    → every i cs test ≡ true
    → j < length cs
    → test (i + j) (get_or cs j 0) ≡ true
unfolding every
every-get_or i j [] test h k = absurd (omega arith)
every-get_or i zero (c ∷ cs) test h k =
    let here : i + 0 ≡ i = omega arith in rw here (and_left (test i c) (every (suc i) cs test) h)
every-get_or i (suc j) (c ∷ cs) test h k =
    let there : i + suc j ≡ suc i + j = omega arith in
    rw there (
      every-get_or (suc i) j cs test (and_right (test i c) (every (suc i) cs test) h) (omega arith))

-- The letter means its place, and is no padding.
is_letter_for : ℕ → ℕ → Bool
is_letter_for i c = elim (value c) [ none ↦ false | some v ↦ v == i && not (c == b'=') ]

table_is_right : every 0 table is_letter_for ≡ true
unfolding every is_letter_for value
table_is_right = refl

letter_passes : (i : ℕ) → i < 64 → is_letter_for i (letter i) ≡ true
unfolding letter
letter_passes i h =
    let place : 0 + i ≡ i = omega arith in
    rw place at (every-get_or 0 i table is_letter_for table_is_right h)

value-letter : (i : ℕ) → i < 64 → value (letter i) ≡ some i
unfolding is_letter_for
value-letter i h = ground (arith, letter_passes i h)

letter-ne-padding : (i : ℕ) → i < 64 → (letter i == b'=') ≡ false
unfolding is_letter_for
letter-ne-padding i h = ground (arith, letter_passes i h)

low6 : (n : ℕ) → n % 64 < 64
low6 n = omega arith

-- Three bytes and their group of 24 bits.
first_byte :
    (b0 b1 b2 : ℕ)
    → b0 < 256
    → b1 < 256
    → b2 < 256
    → triple b0 b1 b2 / 2 ^ 18 % 64 * 4 + triple b0 b1 b2 / 2 ^ 12 % 64 / 16 ≡ b0
first_byte b0 b1 b2 h k l = omega arith

second_byte :
    (b0 b1 b2 : ℕ)
    → b0 < 256
    → b1 < 256
    → b2 < 256
    → triple b0 b1 b2 / 2 ^ 12 % 64 % 16 * 16 + triple b0 b1 b2 / 2 ^ 6 % 64 / 4 ≡ b1
second_byte b0 b1 b2 h k l = omega arith

third_byte :
    (b0 b1 b2 : ℕ)
    → b0 < 256
    → b1 < 256
    → b2 < 256
    → triple b0 b1 b2 / 2 ^ 6 % 64 % 4 * 64 + triple b0 b1 b2 % 64 ≡ b2
third_byte b0 b1 b2 h k l = omega arith

-- Bytes that are encoded are decoded to the same bytes by the decoder of RFC 4648.
pub decode-base64_encode :
    (bytes : Bytes) → All IsByte bytes → decode (base64_encode bytes) ≡ some bytes
unfolding base64_encode decode
decode-base64_encode [] h = refl
decode-base64_encode (b0 ∷ []) (h, _) =
    let t = triple b0 0 0 in
    rw
      (
        value-letter (t / 2 ^ 18 % 64) (low6 (t / 2 ^ 18)),
        value-letter (t / 2 ^ 12 % 64) (low6 (t / 2 ^ 12)),
        first_byte b0 0 0 h (omega arith) (omega arith),
      )
      refl
decode-base64_encode (b0 ∷ b1 ∷ []) (h, (k, _)) =
    let t = triple b0 b1 0 in
    rw
      (
        value-letter (t / 2 ^ 18 % 64) (low6 (t / 2 ^ 18)),
        value-letter (t / 2 ^ 12 % 64) (low6 (t / 2 ^ 12)),
        value-letter (t / 2 ^ 6 % 64) (low6 (t / 2 ^ 6)),
        letter-ne-padding (t / 2 ^ 6 % 64) (low6 (t / 2 ^ 6)),
        first_byte b0 b1 0 h k (omega arith),
        second_byte b0 b1 0 h k (omega arith),
      )
      refl
decode-base64_encode (b0 ∷ b1 ∷ b2 ∷ bytes) (h, (k, (l, hs))) =
    let t = triple b0 b1 b2 in
    rw
      (
        value-letter (t / 2 ^ 18 % 64) (low6 (t / 2 ^ 18)),
        value-letter (t / 2 ^ 12 % 64) (low6 (t / 2 ^ 12)),
        value-letter (t / 2 ^ 6 % 64) (low6 (t / 2 ^ 6)),
        value-letter (t % 64) (low6 t),
        letter-ne-padding (t / 2 ^ 6 % 64) (low6 (t / 2 ^ 6)),
        letter-ne-padding (t % 64) (low6 t),
        decode-base64_encode bytes hs,
        first_byte b0 b1 b2 h k l,
        second_byte b0 b1 b2 h k l,
        third_byte b0 b1 b2 h k l,
      )
      refl
