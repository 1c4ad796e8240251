-- ===== src/Gate/Pacing.antt =====
-- How the gate paces the dials (include/zoal_atc/transport/reconnect_gate.hpp).
use zoal_atc.Common.{
  ℕ, suc, ◌+◌, ◌*◌, ◌^◌, ◌≤◌, ◌<◌, min, ◌≡◌, refl, ◌↔◌, true, false, List, [], ◌∷◌, ap, ◌∙◌, arith,
  length,
}
use native.Mathlib.Nat.{pow-suc, one-le-pow}
use zoal_atc.Gate.{
  ReconnectGate, initial_delay_ms, max_delay_ms, fresh_gate, ready, next_delay, note_failure, reset,
  note_success, remaining_ms,
}

-- A gate that is closed waits for five to thirty seconds; one that is open has no delay.
pub record IsPaced (gate : ReconnectGate) : Type 0 where
  pub bounded : gate.delay_ms ≤ max_delay_ms
  pub floor : gate.blocked ≡ true → initial_delay_ms ≤ gate.delay_ms
  pub open_gate : gate.blocked ≡ false → gate.delay_ms ≡ 0

pub data Call : Type 0 where
  fails : ℕ → Call
  succeeds resets : Call

pub step : ReconnectGate → Call → ReconnectGate
unfolding note_failure note_success reset
step gate (fails now_ms) = note_failure gate now_ms
step gate succeeds = note_success gate
step gate resets = reset gate

pub run : ReconnectGate → List Call → ReconnectGate
unfolding step
run gate [] = gate
run gate (c ∷ cs) = run (step gate c) cs

step-IsPaced : (gate : ReconnectGate) (c : Call) → IsPaced gate → IsPaced (step gate c)
unfolding step
step-IsPaced gate (fails now_ms) v = record {
  bounded = ground arith;
  floor = λ e. ground arith;
  open_gate = λ e. cc;
}
step-IsPaced gate succeeds v = record {
  bounded = omega arith;
  floor = λ e. cc;
  open_gate = λ e. refl;
}
step-IsPaced gate resets v = record {
  bounded = omega arith;
  floor = λ e. cc;
  open_gate = λ e. refl;
}

run-IsPaced : (gate : ReconnectGate) (cs : List Call) → IsPaced gate → IsPaced (run gate cs)
unfolding run
run-IsPaced gate [] v = v
run-IsPaced gate (c ∷ cs) v = run-IsPaced (step gate c) cs (step-IsPaced gate c v)

pub fresh-IsPaced : IsPaced fresh_gate
fresh-IsPaced = record { bounded = omega arith; floor = λ e. cc; open_gate = λ e. refl }

-- After any history of failures, successes and resets, the delay of a closed gate lies between five
-- and thirty seconds, and that of an open gate is zero.
pub run-fresh-IsPaced : (cs : List Call) → IsPaced (run fresh_gate cs)
run-fresh-IsPaced cs = run-IsPaced fresh_gate cs fresh-IsPaced

-- The failures of a console that stays away.
pub fail_all : ReconnectGate → List ℕ → ReconnectGate
fail_all gate [] = gate
fail_all gate (t ∷ ts) = fail_all (note_failure gate t) ts

next_delay-min :
    (k : ℕ)
    → next_delay (min (initial_delay_ms * 2 ^ k) max_delay_ms)
      ≡ min (initial_delay_ms * 2 ^ suc k) max_delay_ms
unfolding next_delay
next_delay-min k = ground (arith, pow-suc 2 k, one-le-pow k 2 (omega arith))

-- A dial at `now_ms` that fails closes the gate for exactly its new delay, if the gate is one that
-- failures and successes make and the clock does not wrap within the longest wait.
pub note_failure-ready :
    (gate : ReconnectGate) (now_ms later : ℕ)
    → IsPaced gate
    → now_ms + max_delay_ms < 2 ^ 64
    → (ready (note_failure gate now_ms) later ≡ true)
      ↔ (now_ms + (note_failure gate now_ms).delay_ms ≤ later)
unfolding ready note_failure
note_failure-ready gate now later v h = (λ e. ground arith, λ e. ground arith)

-- Waiting out what `remaining_ms` reports opens the gate, and no shorter wait does.
pub remaining_ms_exact :
    (gate : ReconnectGate) (now_ms wait : ℕ)
    → (ready gate (now_ms + wait) ≡ true) ↔ (remaining_ms gate now_ms ≤ wait)
unfolding remaining_ms ready
remaining_ms_exact gate now wait = (λ e. ground arith, λ e. ground arith)

fail_all_delay :
    (k : ℕ) (gate : ReconnectGate) (ts : List ℕ)
    → gate.delay_ms ≡ min (initial_delay_ms * 2 ^ k) max_delay_ms
    → (fail_all gate ts).delay_ms ≡ min (initial_delay_ms * 2 ^ (k + length ts)) max_delay_ms
unfolding fail_all note_failure
fail_all_delay k gate [] e = rw e (ap (λ (n : ℕ). min (5000 * 2 ^ n) 30000) (omega arith))
fail_all_delay k gate (t ∷ ts) e =
    fail_all_delay (suc k) (note_failure gate t) ts (ap next_delay e ∙ next_delay-min k)
    ∙ ap (λ (n : ℕ). min (5000 * 2 ^ n) 30000) (omega arith)

-- After a first failed dial of a fresh gate and any further ones in a row the delay is five
-- seconds doubled once for each further one, and thirty seconds at most.
pub fail_all_backoff :
    (t : ℕ) (ts : List ℕ)
    → (fail_all fresh_gate (t ∷ ts)).delay_ms ≡ min (initial_delay_ms * 2 ^ length ts) max_delay_ms
unfolding fail_all note_failure
fail_all_backoff t ts =
    fail_all_delay 0 (note_failure fresh_gate t) ts refl
    ∙ ap (λ (n : ℕ). min (5000 * 2 ^ n) 30000) (omega arith)

-- A log of dials that all failed, each made when the gate was ready.
abbrev pub Paced : ReconnectGate → List ℕ → Type 0
Paced gate [] = Unit
Paced gate (t ∷ ts) =
    (ready gate t ≡ true) × (t + max_delay_ms < 2 ^ 64) × Paced (note_failure gate t) ts

abbrev pub last_dial : ℕ → List ℕ → ℕ
last_dial t [] = t
last_dial t (u ∷ us) = last_dial u us

note_failure-IsPaced : (gate : ReconnectGate) (t : ℕ) → IsPaced gate → IsPaced (note_failure gate t)
note_failure-IsPaced gate t v = unfold step in step-IsPaced gate (fails t) v

initial-le-delay :
    (gate : ReconnectGate) (t : ℕ)
    → IsPaced gate
    → initial_delay_ms ≤ (note_failure gate t).delay_ms
initial-le-delay gate t v = (note_failure-IsPaced gate t v).floor (unfold note_failure in refl)

-- A gate with a delay of failures and successes, dialled at times when it was ready, each time
-- without success and with no wrap of the clock ahead, lets dials through that are five seconds
-- apart on average at least: the last comes no earlier than five seconds for each after the first.
pub Paced-span :
    (gate : ReconnectGate) (t : ℕ) (ts : List ℕ)
    → IsPaced gate
    → Paced gate (t ∷ ts)
    → t + initial_delay_ms * length ts ≤ last_dial t ts
Paced-span gate t [] v p = omega arith
Paced-span gate t (u ∷ us) v (r, wrap, rest) =
    let gap = (note_failure-ready gate t u v wrap).0 rest.0 in
    omega (
      arith,
      gap,
      initial-le-delay gate t v,
      Paced-span (note_failure gate t) u us (note_failure-IsPaced gate t v) rest,
    )
