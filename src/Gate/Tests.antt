-- ===== src/Gate/Tests.antt =====
-- Runs of the gate, and its theorems at them.
use zoal_atc.Common.{ℕ, ◌≡◌, refl, true, List, [], ◌∷◌, arith}
use zoal_atc.Gate.{ReconnectGate, fresh_gate, ready, note_failure}
use zoal_atc.Gate.Pacing.{fails, succeeds, resets, run, IsPaced, run-fresh-IsPaced, Paced}

abbrev later : List ℕ
later = 6000 ∷ 17000 ∷ []

abbrev twice : ReconnectGate
twice = note_failure (note_failure fresh_gate 100) 6000

twice-waits : twice ≡ record { delay_ms = 10000; retry_at_ms = 16000; blocked = true }
unfolding note_failure
twice-waits = refl

fresh_gate-IsPaced : IsPaced fresh_gate
fresh_gate-IsPaced = record { bounded = omega arith; floor = λ e. cc; open_gate = λ e. refl }

run-fresh-IsPaced_example : IsPaced (run fresh_gate (fails 0 ∷ succeeds ∷ fails 9 ∷ resets ∷ []))
run-fresh-IsPaced_example = run-fresh-IsPaced (fails 0 ∷ succeeds ∷ fails 9 ∷ resets ∷ [])

dials-Paced : Paced fresh_gate (0 ∷ later)
unfolding ready note_failure
dials-Paced = (refl, omega arith, (refl, omega arith, (refl, omega arith, tt)))
