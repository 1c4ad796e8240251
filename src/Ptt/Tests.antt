-- ===== src/Ptt/Tests.antt =====
-- Runs of the controller, and its theorems at them.
use zoal_atc.Common.{
  ◌+◌, ◌-◌, ◌%◌, ◌^◌, ◌<◌, ◌≡◌, refl, true, false, List, [], ◌∷◌, arith, codes, ltb, if◌then◌else◌,
}
use zoal_atc.Ptt.{
  RecorderStatus, PttState, Controller, default_event, default_config, new_controller, elapsed_ms,
  empty_audio, publish, recorder_stop, cancelled, transmission_ready, idle, recording,
  command_begin, command_end, tick, Call, begins, ends, ticks, resets, run,
}
use zoal_atc.Ptt.Trace.{at_start, is_lawful, run-new-is_lawful}
use zoal_atc.Ptt.Timing.{tick_cutoff, press_release}

abbrev fine : RecorderStatus
fine = record { ok = true; message = [] }

abbrev broken : RecorderStatus
broken = record { ok = false; message = codes "no device" }

abbrev fresh : Controller
fresh = new_controller default_config

abbrev talking : Controller
talking = record fresh {
  state = recording;
  next_sequence = 2;
  active_sequence = 1;
  started_at_ms = 100;
}

abbrev stuck : Controller
stuck = record fresh { state = PttState.faulted }

abbrev calls : List Call
calls =
    begins fine 0
    ∷ begins fine 10
    ∷ ends fine empty_audio 20
    ∷ begins broken 30
    ∷ resets
    ∷ begins fine 40
    ∷ ticks fine empty_audio 30040
    ∷ []

talking-starts : (command_begin fresh fine 100).0 ≡ talking
unfolding command_begin
talking-starts = refl

run-new-is_lawful_example : is_lawful at_start (run (new_controller default_config) calls).1 ≡ true
run-new-is_lawful_example = run-new-is_lawful default_config calls (omega arith)

ticked-recording : (tick talking fine empty_audio 30000).0.state ≡ recording
unfolding tick
ticked-recording = refl

tick_cutoff_example : elapsed_ms (tick talking fine empty_audio 30000).0 30000 < 30000
tick_cutoff_example =
    tick_cutoff talking fine empty_audio 30000 (λ e. omega (arith, e)) ticked-recording

press_release_example :
    let r = command_end (command_begin fresh fine 100).0 fine empty_audio 200 in
    (r.1
      ≡ recorder_stop true
        ∷ publish (record default_event {
          type = if ltb (200 - 100) 250 then cancelled else transmission_ready;
          sequence = 1;
          timestamp_ms = 200;
          duration_ms = 200 - 100;
          audio = empty_audio;
        })
        ∷ [])
    × (r.0 ≡ record fresh {
      state = idle;
      next_sequence = (1 + 1) % 2 ^ 64;
      active_sequence = 0;
      started_at_ms = 0;
    })
press_release_example = press_release fresh fine fine empty_audio 100 200 refl refl refl
