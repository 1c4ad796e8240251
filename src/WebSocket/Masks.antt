-- ===== src/WebSocket/Masks.antt =====
-- The bytes of a frame read back (append_u16, append_u64, read_u16, read_u64 and the masking of
-- src/transport/websocket_client.cpp).
use Prim.Native.Nat.{bit_xor, digits, differ, bit_xor-bitwise}
use zoal_atc.Common.{
  ℕ, zero, suc, ◌+◌, ◌*◌, ◌/◌, ◌%◌, ◌^◌, ◌≤◌, ◌<◌, ◌≡◌, refl, sym, ap, ◌∙◌, inl, inr, leb,
  Bool-cases, [], ◌∷◌, arith, Bytes, length, get_or,
}
use zoal_atc.WebSocket.Frame.{append_u16, append_u64, read_u16, read_u64, mask_from}

-- Exclusive or with a count of digits to go, of which any beyond the first number changes nothing.
abbrev counted : ℕ → ℕ → ℕ → ℕ
counted left a m = digits (λ rest. rest) differ left a m

counted-suc : (left a m : ℕ) → a ≤ left → counted (suc left) a m ≡ counted left a m
counted-suc zero zero m h = refl
counted-suc zero (suc a) m h = absurd (omega arith)
counted-suc (suc left) zero m h = refl
counted-suc (suc left) (suc a) m h =
    let half = counted-suc left (suc a / 2) (m / 2) (omega arith) in omega (arith, half)

counted-bit_xor : (left a m : ℕ) → a ≤ left → counted left a m ≡ bit_xor a m
counted-bit_xor zero a m h =
    let none_left : a ≡ 0 = omega arith in rw none_left (sym (bit_xor-bitwise 0 m))
counted-bit_xor (suc left) a m h = elim (Bool-cases (leb a left)) [
  | inl spare ↦ counted-suc left a m (ground arith) ∙ counted-bit_xor left a m (ground arith)
  | inr tight ↦
      let all_used : a ≡ suc left = ground arith in rw all_used (sym (bit_xor-bitwise (suc left) m))
]

-- The lowest digit and the others.
bit_xor-halves : (a m : ℕ) → bit_xor a m ≡ bit_xor (a / 2) (m / 2) * 2 + differ (a % 2) (m % 2)
bit_xor-halves zero m =
    let whole = bit_xor-bitwise 0 m in
    let half = bit_xor-bitwise 0 (m / 2) in omega (arith, whole, half)
bit_xor-halves (suc a) m =
    let half = counted-bit_xor a (suc a / 2) (m / 2) (omega arith) in
    bit_xor-bitwise (suc a) m ∙ ap (λ (h : ℕ). h * 2 + differ (suc a % 2) (m % 2)) half

differ-lt : (p q : ℕ) → p < 2 → q < 2 → differ p q < 2
differ-lt zero q h k = k
differ-lt (suc p) zero h k = h
differ-lt (suc zero) (suc zero) h k = omega arith
differ-lt (suc zero) (suc (suc q)) h k = absurd (omega arith)
differ-lt (suc (suc p)) (suc q) h k = absurd (omega arith)

differ_twice : (p q : ℕ) → p < 2 → q < 2 → differ (differ p q) q ≡ p
differ_twice zero zero h k = refl
differ_twice zero (suc zero) h k = refl
differ_twice zero (suc (suc q)) h k = absurd (omega arith)
differ_twice (suc p) zero h k = refl
differ_twice (suc zero) (suc zero) h k = refl
differ_twice (suc zero) (suc (suc q)) h k = absurd (omega arith)
differ_twice (suc (suc p)) (suc q) h k = absurd (omega arith)

bit_xor_twice_fuel : (n a m : ℕ) → a ≤ n → m ≤ n → bit_xor (bit_xor a m) m ≡ a
bit_xor_twice_fuel zero zero zero p q = refl
bit_xor_twice_fuel zero (suc a) m p q = absurd (omega arith)
bit_xor_twice_fuel zero zero (suc m) p q = absurd (omega arith)
bit_xor_twice_fuel (suc n) a m p q =
    let once = bit_xor-halves a m in
    let low = differ-lt (a % 2) (m % 2) (omega arith) (omega arith) in
    let half : bit_xor a m / 2 ≡ bit_xor (a / 2) (m / 2) = omega (arith, once, low) in
    let parity : bit_xor a m % 2 ≡ differ (a % 2) (m % 2) = omega (arith, once, low) in
    bit_xor-halves (bit_xor a m) m
    ∙ rw
        (
          half,
          parity,
          bit_xor_twice_fuel n (a / 2) (m / 2) (omega arith) (omega arith),
          differ_twice (a % 2) (m % 2) (omega arith) (omega arith),
        )
        (omega arith)

bit_xor_twice : (a m : ℕ) → bit_xor (bit_xor a m) m ≡ a
bit_xor_twice a m = bit_xor_twice_fuel (a + m) a m (omega arith) (omega arith)

-- Masking twice with one mask gives the bytes back.
pub mask_from_twice :
    (mask : Bytes) (i : ℕ) (bytes : Bytes) → mask_from mask i (mask_from mask i bytes) ≡ bytes
unfolding mask_from
mask_from_twice mask i [] = refl
mask_from_twice mask i (b ∷ bytes) =
    rw (bit_xor_twice b (get_or mask (i % 4) 0), mask_from_twice mask (suc i) bytes) refl

pub length-mask_from :
    (mask : Bytes) (i : ℕ) (bytes : Bytes) → length (mask_from mask i bytes) ≡ length bytes
unfolding mask_from
length-mask_from mask i [] = refl
length-mask_from mask i (b ∷ bytes) = ap suc (length-mask_from mask (suc i) bytes)

pub read_u16-append_u16 : (value : ℕ) → value < 2 ^ 16 → read_u16 (append_u16 value) ≡ value
unfolding read_u16 append_u16
read_u16-append_u16 value h = omega arith

-- A 64-bit number is read back from the eight bytes that it is written as.
pub read_u64-append_u64 : (value : ℕ) → value < 2 ^ 64 → read_u64 (append_u64 value) ≡ value
unfolding read_u64 append_u64
read_u64-append_u64 value h = omega arith
