-- ===== src/Ptt/Timing.antt =====
-- How long a transmission lasts, and the ways out of a fault
-- (src/ptt/push_to_talk_controller.cpp).
use zoal_atc.Common.{
  Bool, true, false, if◌then◌else◌, ℕ, ◌+◌, ◌-◌, ◌%◌, ◌^◌, ◌≤◌, ◌<◌, ◌≡◌, ◌≢◌, true, [], ◌∷◌, arith,
  All, ltb, if◌then◌else◌,
}
use zoal_atc.Ptt.{
  transmission_ready, cancelled, PttState, idle, recording, AudioBuffer, RecorderStatus, Controller,
  default_event, Effect, recorder_start, recorder_stop, publish, Call, begins, ends, ticks, resets,
  elapsed_ms, command_begin, command_end, tick, step,
}

-- A transmission that is handed on lasted for the minimum, one that is cancelled for less.
abbrev pub HasDuration : ℕ → Effect → Type 0
HasDuration least (recorder_start ok) = Unit
HasDuration least (recorder_stop ok) = Unit
HasDuration least (publish e) = elim e.type [
  | transmission_ready ↦ least ≤ e.duration_ms
  | cancelled ↦ e.duration_ms < least
  | _ ↦ Unit
]

-- Every event that an operation publishes agrees with the configured minimum: a ready transmission
-- is at least that long and a cancelled one is shorter.
pub step-HasDuration :
    (c : Controller) (call : Call) → All (HasDuration c.config.min_transmission_ms) (step c call).1
unfolding step
step-HasDuration c (begins status now) = ground arith
step-HasDuration c (ends status audio now) = ground arith
step-HasDuration c (ticks status audio now) = ground arith
step-HasDuration c resets = ground arith

-- After a tick a controller that is still recording has done so for less than the configured
-- maximum, if there is one.
pub tick_cutoff :
    (c : Controller) (status : RecorderStatus) (audio : AudioBuffer) (now : ℕ)
    → c.config.max_transmission_ms ≢ 0
    → (tick c status audio now).0.state ≡ recording
    → elapsed_ms (tick c status audio now).0 now < c.config.max_transmission_ms
unfolding tick
tick_cutoff c status audio now h = ground arith

-- A press and its release, with a recorder that works: on an idle controller they make one
-- transmission, which takes the next number, carries the recorded audio and the time between the two
-- (0 if the clock went back), is ready exactly if that is no less than the minimum, and leaves the
-- controller idle with the following number.
pub press_release :
    (c : Controller) (up down : RecorderStatus) (audio : AudioBuffer) (pressed released : ℕ)
    → c.state ≡ idle
    → up.ok ≡ true
    → down.ok ≡ true
    → let r = command_end (command_begin c up pressed).0 down audio released in
      (r.1
        ≡ recorder_stop true
          ∷ publish (record default_event {
            type =
                if ltb (released - pressed) c.config.min_transmission_ms
                then cancelled
                else transmission_ready;
            sequence = c.next_sequence;
            timestamp_ms = released;
            duration_ms = released - pressed;
            audio = audio;
          })
          ∷ [])
      × (r.0 ≡ record c {
        state = idle;
        next_sequence = (c.next_sequence + 1) % 2 ^ 64;
        active_sequence = 0;
        started_at_ms = 0;
      })
unfolding command_begin command_end
press_release c up down audio pressed released i u d = ground arith

abbrev pub is_reset : Call → Bool
is_reset (begins status now) = false
is_reset (ends status audio now) = false
is_reset (ticks status audio now) = false
is_reset resets = true

-- A fault is left by `reset_fault` alone: of all calls it makes a faulted controller idle, and the
-- others leave it faulted.
pub fault_sticks :
    (c : Controller) (call : Call)
    → c.state ≡ PttState.faulted
    → (step c call).0.state ≡ (if is_reset call then idle else PttState.faulted)
unfolding step
fault_sticks c (begins status now) f = ground arith
fault_sticks c (ends status audio now) f = ground arith
fault_sticks c (ticks status audio now) f = ground arith
fault_sticks c resets f = ground arith
