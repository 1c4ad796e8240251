-- ===== src/Common/Decimal.antt =====
-- `std::to_string` and `<<` of an unsigned number, and the loop that reads one back.
use Prim.Native.Nat.{ℕ, zero, suc, ◌+◌, ◌-◌, ◌*◌, ◌/◌, ◌%◌, ◌^◌, ◌≤◌, ◌<◌}
use mathlib.Core.Path.{◌≡◌, ◌∙◌}
use mathlib.Core.Logic.{◌≢◌, inl, inr}
use mathlib.Core.Bool.{◌||◌}
use mathlib.Core.Option.{Option, none, some}
use mathlib.Core.List.{[], ◌∷◌}
use native.Mathlib.Omega.{arith}
use zoal_atc.Common.Tests.{ltb, if◌then◌else◌, Bool-cases}
use zoal_atc.Common.Lists.{All}
use zoal_atc.Common.Text.{Bytes}

-- The digits in front of `out`, on fuel above `n`.
unfoldable pub decimal_loop : ℕ → ℕ → Bytes → Bytes
decimal_loop zero n out = out
decimal_loop (suc fuel) n out =
    let longer = (b'0' + n % 10) ∷ out in
    let rest = decimal_loop fuel (n / 10) longer in if ltb n 10 then longer else rest

unfoldable pub to_decimal : ℕ → Bytes
unfolding decimal_loop
to_decimal n = decimal_loop (suc n) n []

-- `value = value * 10 + (ch - '0')` in uint64, which fails on a character that is no digit.
unfoldable pub read_digits : Bytes → ℕ → Option ℕ
read_digits [] value = some value
read_digits (ch ∷ raw) value =
    let rest = read_digits raw ((value * 10 + (ch - b'0')) % 2 ^ 64) in
    if ltb ch b'0' || ltb b'9' ch then none else rest

read_digits-loop :
    (fuel n : ℕ) (out : Bytes)
    → n < fuel
    → n < 2 ^ 64
    → read_digits (decimal_loop fuel n out) 0 ≡ read_digits out n
unfolding decimal_loop read_digits
read_digits-loop zero n out h k = absurd (omega arith)
read_digits-loop (suc fuel) n out h k = elim (Bool-cases (ltb n 10)) [
  | inl small ↦ rw small (ground arith)
  | inr large ↦ rw large (
      read_digits-loop fuel (n / 10) ((b'0' + n % 10) ∷ out) (ground arith) (omega arith)
      ∙ ground arith)
]

pub read_digits-to_decimal : (n : ℕ) → n < 2 ^ 64 → read_digits (to_decimal n) 0 ≡ some n
unfolding to_decimal read_digits
read_digits-to_decimal n h = read_digits-loop (suc n) n [] (omega arith) h

abbrev pub IsDigit : ℕ → Type 0
IsDigit c = (b'0' ≤ c) × (c ≤ b'9')

decimal_loop-digits :
    (fuel n : ℕ) (out : Bytes) → All IsDigit out → All IsDigit (decimal_loop fuel n out)
unfolding decimal_loop
decimal_loop-digits zero n out h = h
decimal_loop-digits (suc fuel) n out h =
    let longer : All IsDigit ((b'0' + n % 10) ∷ out) = ((omega arith, omega arith), h) in
    elim (Bool-cases (ltb n 10)) [
      | inl small ↦ rw small longer
      | inr large ↦ rw large (decimal_loop-digits fuel (n / 10) ((b'0' + n % 10) ∷ out) longer)
    ]

pub to_decimal-digits : (n : ℕ) → All IsDigit (to_decimal n)
unfolding to_decimal
to_decimal-digits n = decimal_loop-digits (suc n) n [] tt

decimal_loop-ne-nil : (fuel n : ℕ) (out : Bytes) → out ≢ [] → decimal_loop fuel n out ≢ []
unfolding decimal_loop
decimal_loop-ne-nil zero n out h = h
decimal_loop-ne-nil (suc fuel) n out h =
    ground (arith, decimal_loop-ne-nil fuel (n / 10) ((b'0' + n % 10) ∷ out))

pub to_decimal-ne-nil : (n : ℕ) → to_decimal n ≢ []
unfolding to_decimal decimal_loop
to_decimal-ne-nil n = ground (arith, decimal_loop-ne-nil n (n / 10) ((b'0' + n % 10) ∷ []))
