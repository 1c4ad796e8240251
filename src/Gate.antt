-- ===== src/Gate.antt =====
-- include/zoal_atc/transport/reconnect_gate.hpp. The clock is passed in as the source does it;
-- `now_ms + delay_ms_` wraps at 2 ^ 64, and `delay_ms_ * 2` never reaches it.
pub mod Pacing
mod Tests
use zoal_atc.Common.{
  ℕ, ◌+◌, ◌-◌, ◌*◌, ◌%◌, ◌^◌, Bool, true, false, not, ◌||◌, ltb, leb, ◌==◌, if◌then◌else◌,
}

pub record ReconnectGate : Type 0 where
  pub delay_ms : ℕ
  pub retry_at_ms : ℕ
  pub blocked : Bool

abbrev pub initial_delay_ms : ℕ
initial_delay_ms = 5000

abbrev pub max_delay_ms : ℕ
max_delay_ms = 30000

-- A gate as it is constructed.
abbrev pub fresh_gate : ReconnectGate
fresh_gate = record { delay_ms = 0; retry_at_ms = 0; blocked = false }

unfoldable pub ready : ReconnectGate → ℕ → Bool
ready gate now_ms = not gate.blocked || leb gate.retry_at_ms now_ms

-- The doubling and its ceiling.
unfoldable pub next_delay : ℕ → ℕ
next_delay delay =
    let doubled = if delay == 0 then initial_delay_ms else delay * 2 in
    if ltb max_delay_ms doubled then max_delay_ms else doubled

unfoldable pub note_failure : ReconnectGate → ℕ → ReconnectGate
unfolding next_delay
note_failure gate now_ms = record {
  delay_ms = next_delay gate.delay_ms;
  retry_at_ms = (now_ms + next_delay gate.delay_ms) % 2 ^ 64;
  blocked = true;
}

unfoldable pub reset : ReconnectGate → ReconnectGate
reset gate = record { delay_ms = 0; retry_at_ms = 0; blocked = false }

unfoldable pub note_success : ReconnectGate → ReconnectGate
unfolding reset
note_success gate = reset gate

unfoldable pub remaining_ms : ReconnectGate → ℕ → ℕ
unfolding ready
remaining_ms gate now_ms = if ready gate now_ms then 0 else gate.retry_at_ms - now_ms
