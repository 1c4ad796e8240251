-- ===== src/Ptt.antt =====
-- The push-to-talk controller: src/ptt/push_to_talk_controller.cpp with
-- include/zoal_atc/ptt/{audio_recorder,ptt_event,push_to_talk_controller}.hpp.
-- The recorder is not the controller's: what its `start()` and `stop()` answer is an argument of the
-- operations, and each call of it is an effect of theirs, like each event that the sink is given.
pub mod Trace
pub mod Timing
mod Tests
use zoal_atc.Common.{
  ℕ, ◌+◌, ◌-◌, ◌%◌, ◌^◌, Bool, true, false, List, [], ◌∷◌, ◌++◌, ltb, leb, ◌==◌, if◌then◌else◌,
  Bytes, ◌||◌, not,
}

pub record AudioBuffer : Type 0 where
  pub pcm16 : List ℕ
  pub sample_rate_hz : ℕ
  pub channels : ℕ

abbrev pub empty_audio : AudioBuffer
empty_audio = record { pcm16 = []; sample_rate_hz = 16000; channels = 1 }

pub record RecorderStatus : Type 0 where
  pub ok : Bool
  pub message : Bytes

pub data PttEventType : Type 0 where
  started transmission_ready cancelled ignored error : PttEventType

pub data PttEndReason : Type 0 where
  command_released max_duration_reached : PttEndReason

pub data PttCancelReason : Type 0 where
  too_short : PttCancelReason

pub data PttIgnoreReason : Type 0 where
  duplicate_begin release_without_begin faulted : PttIgnoreReason

pub record PttEvent : Type 0 where
  pub type : PttEventType
  pub sequence : ℕ
  pub timestamp_ms : ℕ
  pub duration_ms : ℕ
  pub end_reason : PttEndReason
  pub cancel_reason : PttCancelReason
  pub ignore_reason : PttIgnoreReason
  pub audio : AudioBuffer
  pub message : Bytes
  pub transmit_com : ℕ
  pub frequency_hz : ℕ

-- `PttEvent event;`
abbrev pub default_event : PttEvent
default_event = record {
  type = ignored;
  sequence = 0;
  timestamp_ms = 0;
  duration_ms = 0;
  end_reason = command_released;
  cancel_reason = too_short;
  ignore_reason = release_without_begin;
  audio = empty_audio;
  message = [];
  transmit_com = 0;
  frequency_hz = 0;
}

pub data PttState : Type 0 where
  idle recording faulted : PttState

pub record PushToTalkConfig : Type 0 where
  pub min_transmission_ms : ℕ
  pub max_transmission_ms : ℕ

pub record Controller : Type 0 where
  pub config : PushToTalkConfig
  pub state : PttState
  pub next_sequence : ℕ
  pub active_sequence : ℕ
  pub started_at_ms : ℕ

abbrev pub default_config : PushToTalkConfig
default_config = record { min_transmission_ms = 250; max_transmission_ms = 30000 }

abbrev pub new_controller : PushToTalkConfig → Controller
new_controller config = record {
  config = config;
  state = idle;
  next_sequence = 1;
  active_sequence = 0;
  started_at_ms = 0;
}

-- What an operation does outside the controller, in order.
pub data Effect : Type 0 where
  recorder_start : Bool → Effect
  recorder_stop : Bool → Effect
  publish : PttEvent → Effect

unfoldable pub elapsed_ms : Controller → ℕ → ℕ
elapsed_ms c now_ms = if ltb now_ms c.started_at_ms then 0 else now_ms - c.started_at_ms

pub publish_ignored : Controller → ℕ → PttIgnoreReason → Effect
publish_ignored c now_ms reason = publish (record default_event {
  type = ignored;
  sequence = c.active_sequence;
  timestamp_ms = now_ms;
  ignore_reason = reason;
})

pub publish_error : Controller → ℕ → Bytes → Effect
publish_error c now_ms message = publish (record default_event {
  type = error;
  sequence = c.active_sequence;
  timestamp_ms = now_ms;
  message = message;
})

started_event : ℕ → ℕ → PttEvent
started_event sequence now_ms = record default_event {
  type = started;
  sequence = sequence;
  timestamp_ms = now_ms;
}

-- The event of a recording that ended, and its type by the duration.
finished_event : Controller → ℕ → PttEndReason → AudioBuffer → PttEvent
unfolding elapsed_ms
finished_event c now_ms reason audio =
    let short = ltb (elapsed_ms c now_ms) c.config.min_transmission_ms in
    record default_event {
      type = if short then cancelled else transmission_ready;
      sequence = c.active_sequence;
      timestamp_ms = now_ms;
      duration_ms = elapsed_ms c now_ms;
      end_reason = reason;
      cancel_reason = too_short;
      audio = audio;
    }

unfoldable pub finish_recording :
    Controller → RecorderStatus → AudioBuffer → ℕ → PttEndReason → Controller × List Effect
unfolding finished_event publish_error
finish_recording c status audio now_ms reason =
    if not status.ok
    then (
      record c { state = PttState.faulted },
      recorder_stop false ∷ publish_error c now_ms status.message ∷ [],
    )
    else (
      record c { state = idle; active_sequence = 0; started_at_ms = 0 },
      recorder_stop true ∷ publish (finished_event c now_ms reason audio) ∷ [],
    )

-- `status` is what `recorder_.start()` answers, if it is called.
unfoldable pub command_begin : Controller → RecorderStatus → ℕ → Controller × List Effect
unfolding publish_ignored publish_error started_event
command_begin c status now_ms = elim c.state [
  | faulted ↦ (c, publish_ignored c now_ms PttIgnoreReason.faulted ∷ [])
  | recording ↦ (c, publish_ignored c now_ms duplicate_begin ∷ [])
  | idle ↦
      if not status.ok
      then (
        record c { state = PttState.faulted },
        recorder_start false ∷ publish_error c now_ms status.message ∷ [],
      )
      else (
        record c {
          state = recording;
          active_sequence = c.next_sequence;
          next_sequence = (c.next_sequence + 1) % 2 ^ 64;
          started_at_ms = now_ms;
        },
        recorder_start true ∷ publish (started_event c.next_sequence now_ms) ∷ [],
      )
]

unfoldable pub command_end :
    Controller → RecorderStatus → AudioBuffer → ℕ → Controller × List Effect
unfolding publish_ignored finish_recording
command_end c status audio now_ms = elim c.state [
  | faulted ↦ (c, publish_ignored c now_ms PttIgnoreReason.faulted ∷ [])
  | recording ↦ finish_recording c status audio now_ms command_released
  | idle ↦ (c, publish_ignored c now_ms release_without_begin ∷ [])
]

unfoldable pub tick : Controller → RecorderStatus → AudioBuffer → ℕ → Controller × List Effect
unfolding finish_recording elapsed_ms
tick c status audio now_ms = elim c.state [
  | recording ↦
      if c.config.max_transmission_ms == 0
      then (c, [])
      else if leb c.config.max_transmission_ms (elapsed_ms c now_ms)
      then finish_recording c status audio now_ms max_duration_reached
      else (c, [])
  | _ ↦ (c, [])
]

unfoldable pub reset_fault : Controller → Controller × List Effect
reset_fault c = elim c.state [
  | faulted ↦ (record c { state = idle; active_sequence = 0; started_at_ms = 0 }, [])
  | _ ↦ (c, [])
]

-- The calls that X-Plane's commands and flight loop make.
pub data Call : Type 0 where
  begins : RecorderStatus → ℕ → Call
  ends : RecorderStatus → AudioBuffer → ℕ → Call
  ticks : RecorderStatus → AudioBuffer → ℕ → Call
  resets : Call

unfoldable pub step : Controller → Call → Controller × List Effect
unfolding command_begin command_end tick reset_fault
step c (begins status now_ms) = command_begin c status now_ms
step c (ends status audio now_ms) = command_end c status audio now_ms
step c (ticks status audio now_ms) = tick c status audio now_ms
step c resets = reset_fault c

unfoldable pub run : Controller → List Call → Controller × List Effect
unfolding step
run c [] = (c, [])
run c (call ∷ calls) =
    let (c', effects) = step c call in let (c'', more) = run c' calls in (c'', effects ++ more)
