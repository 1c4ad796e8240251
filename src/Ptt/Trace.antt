-- ===== src/Ptt/Trace.antt =====
-- The order of the controller's effects (src/ptt/push_to_talk_controller.cpp).
use zoal_atc.Common.{
  ℕ, ◌+◌, ◌≤◌, ◌<◌, ◌^◌, ◌≡◌, refl, Bool, true, false, not, ◌&&◌, List, [], ◌∷◌, ◌++◌, length,
  arith, leb, ltb, ◌==◌,
}
use zoal_atc.Ptt.{
  PttEventType, started, transmission_ready, cancelled, ignored, error, PttState, idle, recording,
  Controller, PushToTalkConfig, new_controller, Effect, recorder_start, recorder_stop, publish,
  Call, begins, ends, ticks, resets, step, run,
}

-- An observer: whether the recorder runs, the transmission that is open (0 for none) and the last
-- one that was opened.
pub record Observer : Type 0 where
  pub running : Bool
  pub opened : ℕ
  pub last : ℕ

abbrev pub at_start : Observer
at_start = record { running = false; opened = 0; last = 0 }

-- The recorder is started only when it does not run and stopped only when it does. A transmission
-- is started only when none is open, under the next number; it is ended, by an event of its number,
-- only while it is open, and an error names the open one, or 0.
abbrev allowed_event : Observer → PttEventType → ℕ → Bool
allowed_event o started n = o.opened == 0 && n == o.last + 1
allowed_event o transmission_ready n = ltb 0 n && n == o.opened
allowed_event o cancelled n = ltb 0 n && n == o.opened
allowed_event o error n = n == o.opened
allowed_event o ignored n = leb n o.last

abbrev pub allowed : Observer → Effect → Bool
allowed o (recorder_start ok) = not o.running
allowed o (recorder_stop ok) = o.running
allowed o (publish e) = allowed_event o e.type e.sequence

abbrev observe_event : Observer → PttEventType → ℕ → Observer
observe_event o started n = record o { opened = n; last = n }
observe_event o ignored n = o
observe_event o _ n = record o { opened = 0 }

abbrev pub observe : Observer → Effect → Observer
observe o (recorder_start ok) = record o { running = ok }
observe o (recorder_stop ok) = record o { running = false }
observe o (publish e) = observe_event o e.type e.sequence

abbrev pub observe_all : Observer → List Effect → Observer
observe_all o [] = o
observe_all o (e ∷ es) = observe_all (observe o e) es

abbrev pub is_lawful : Observer → List Effect → Bool
is_lawful o [] = true
is_lawful o (e ∷ es) = allowed o e && is_lawful (observe o e) es

-- How the controller's state agrees with what was observed.
abbrev AgreesIn : PttState → ℕ → Observer → Type 0
AgreesIn idle active o = (o.running ≡ false) × (o.opened ≡ 0) × (active ≡ 0)
AgreesIn recording active o = (o.running ≡ true) × (o.opened ≡ active) × (0 < active)
AgreesIn PttState.faulted active o = (o.running ≡ false) × (o.opened ≡ 0)

record Agrees (c : Controller) (o : Observer) : Type 0 where
  state : AgreesIn c.state c.active_sequence o
  next : c.next_sequence ≡ o.last + 1
  active : c.active_sequence ≤ o.last

abbrev Keeps : Controller → Observer → Controller × List Effect → Type 0
Keeps c o r =
    (is_lawful o r.1 ≡ true)
    × Agrees r.0 (observe_all o r.1)
    × (r.0.next_sequence ≤ c.next_sequence + 1)

step-Keeps :
    (c : Controller) (o : Observer) (call : Call)
    → Agrees c o
    → c.next_sequence + 1 < 2 ^ 64
    → Keeps c o (step c call)
unfolding step
step-Keeps c o (begins status now) a h = ground arith
step-Keeps c o (ends status audio now) a h = ground arith
step-Keeps c o (ticks status audio now) a h = ground arith
step-Keeps c o resets a h = ground arith

is_lawful-append :
    (o : Observer) (es fs : List Effect)
    → is_lawful o es ≡ true
    → is_lawful (observe_all o es) fs ≡ true
    → is_lawful o (es ++ fs) ≡ true
is_lawful-append o [] fs h k = k
is_lawful-append o (e ∷ es) fs h k = ground (arith, is_lawful-append (observe o e) es fs)

run-is_lawful :
    (c : Controller) (o : Observer) (calls : List Call)
    → Agrees c o
    → c.next_sequence + length calls < 2 ^ 64
    → is_lawful o (run c calls).1 ≡ true
unfolding run
run-is_lawful c o [] a h = refl
run-is_lawful c o (call ∷ calls) a h =
    let (lawful, agrees, next) = step-Keeps c o call a (omega arith) in
    is_lawful-append o (step c call).1 _ lawful
      (run-is_lawful (step c call).0 (observe_all o (step c call).1) calls agrees (omega arith))

-- Whatever calls are made, in any order, at any times and whatever the recorder answers: it is
-- started only when it does not run and stopped only when it does; transmissions are started one at
-- a time under the numbers 1, 2, 3 and so on; a transmission is ended, ready or cancelled, at most
-- once and only while it is open; and an error names the open transmission, or 0 if there is none.
-- (Fewer than 2 ^ 64 - 1 calls, so that the number does not wrap.)
pub run-new-is_lawful :
    (config : PushToTalkConfig) (calls : List Call)
    → 1 + length calls < 2 ^ 64
    → is_lawful at_start (run (new_controller config) calls).1 ≡ true
run-new-is_lawful config calls h =
    run-is_lawful (new_controller config) at_start calls
      (record { state = (refl, refl, refl); next = omega arith; active = omega arith }) h
