-- ===== src/Sink.antt =====
-- src/transport/async_websocket_ptt_sink.cpp with its header: the queue between the simulator's threads
-- and the socket. Its two workers each take one entry at a time, so that a call of `work` or
-- `recognise` is one round of theirs and any interleaving of the threads is a list of calls. What the
-- socket and the recogniser answer is an argument. (`transcribe` takes the lock a second time within a
-- round; what another thread does in between could as well come before the round.)
pub mod Flow
pub mod Balance
pub mod Rounds
pub mod Drain
mod Tests
use zoal_atc.Common.{
  ℕ, ◌+◌, ◌%◌, ◌^◌, Bool, true, false, not, ◌&&◌, ◌||◌, List, [], ◌∷◌, ◌++◌, ltb, ◌==◌,
  if◌then◌else◌, Bytes, codes, length, to_decimal,
}
use zoal_atc.Json.{json_escape}
use zoal_atc.Ptt.{PttEvent, started, transmission_ready, cancelled, ignored, PttEventType.error}
use zoal_atc.Queue.{push_bounded}
use zoal_atc.Transcript.{Transcript, build_transcript_frame}

pub data QueuedMessage : Type 0 where
  ptt_event : PttEvent → QueuedMessage
  text : Bytes → QueuedMessage

pub record WebSocketStatus : Type 0 where
  pub ok : Bool
  pub message : Bytes

-- The members; `has_transcriber` says that `transcriber_` is set, `reports_failures` that
-- `on_send_failure_` is.
pub record Sink : Type 0 where
  pub session_id : Bytes
  pub reports_failures : Bool
  pub queue : List QueuedMessage
  pub dropped : ℕ
  pub stopping : Bool
  pub has_transcriber : Bool
  pub transcriptions : List PttEvent

abbrev pub max_queued_messages : ℕ
max_queued_messages = 256

abbrev pub max_queued_transcriptions : ℕ
max_queued_transcriptions = 4

abbrev pub new_sink : Bytes → Bool → Sink
new_sink session_id reports_failures = record {
  session_id = session_id;
  reports_failures = reports_failures;
  queue = [];
  dropped = 0;
  stopping = false;
  has_transcriber = false;
  transcriptions = [];
}

-- What a worker does outside: a frame for the socket, and a call of the failure handler.
pub data Effect : Type 0 where
  sends : Bytes → Effect
  reports : Bytes → Effect

unfoldable pub enqueue : Sink → QueuedMessage → Sink
enqueue s message =
    let (queue, discarded) = push_bounded s.queue message max_queued_messages in
    record s { queue = queue; dropped = (s.dropped + discarded) % 2 ^ 64 }

unfoldable pub publish : Sink → QueuedMessage → Sink
unfolding enqueue
publish s message = if s.stopping then s else enqueue s message

unfoldable pub stop : Sink → Sink
stop s = record s { stopping = true }

-- A transcriber is set once.
unfoldable pub set_transcriber : Sink → Bool → Sink
set_transcriber s given =
    if s.has_transcriber || not given then s else record s { has_transcriber = true }

unfoldable pub send_text : Sink → Bytes → WebSocketStatus → List Effect
send_text s payload status =
    sends payload
    ∷ (if not status.ok && s.reports_failures then reports status.message ∷ [] else [])

abbrev pub radio_fields : PttEvent → Bytes
radio_fields event =
    if event.frequency_hz == 0
    then []
    else codes ",\"transmit_com\":"
      ++ (to_decimal event.transmit_com
          ++ (codes ",\"frequency_hz\":" ++ to_decimal event.frequency_hz))

abbrev pub audio_start_frame : Bytes → PttEvent → Bytes
audio_start_frame session_id event =
    codes "{\"type\":\"audio_start\",\"session_id\":\""
    ++ (json_escape session_id
        ++ (codes "\",\"sequence\":"
            ++ (to_decimal event.sequence
                ++ (codes ",\"sample_rate_hz\":16000,\"channels\":1,\"format\":\"pcm_s16le\""
                    ++ (radio_fields event ++ codes "}")))))

abbrev pub audio_cancel_frame : Bytes → ℕ → Bytes
audio_cancel_frame session_id sequence =
    codes "{\"type\":\"audio_cancel\",\"session_id\":\""
    ++ (json_escape session_id ++ (codes "\",\"sequence\":" ++ (to_decimal sequence ++ codes "}")))

unfoldable pub send_audio_cancel : Sink → ℕ → WebSocketStatus → List Effect
unfolding send_text
send_audio_cancel s sequence status = send_text s (audio_cancel_frame s.session_id sequence) status

-- A turn that can not wait for the recogniser is cancelled.
unfoldable pub transcribe : Sink → PttEvent → WebSocketStatus → Sink × List Effect
unfolding send_audio_cancel
transcribe s event status =
    if s.has_transcriber
      && not s.stopping
      && ltb (length s.transcriptions) max_queued_transcriptions
    then (record s { transcriptions = s.transcriptions ++ event ∷ [] }, [])
    else (s, send_audio_cancel s event.sequence status)

unfoldable pub process_event : Sink → PttEvent → WebSocketStatus → Sink × List Effect
unfolding transcribe send_audio_cancel send_text
process_event s event status = elim event.type [
  | started ↦ (s, send_text s (audio_start_frame s.session_id event) status)
  | transmission_ready ↦ transcribe s event status
  | cancelled ↦ (s, send_audio_cancel s event.sequence status)
  | ignored ↦ (s, [])
  | error ↦ (s, (if event.sequence == 0 then [] else send_audio_cancel s event.sequence status))
]

unfoldable pub process : Sink → QueuedMessage → WebSocketStatus → Sink × List Effect
unfolding process_event send_text
process s (ptt_event event) status = process_event s event status
process s (text payload) status = (s, send_text s payload status)

-- One round of `run`; with an empty queue it waits, or ends.
take_message : List QueuedMessage → Sink → WebSocketStatus → Sink × List Effect
unfolding process
take_message [] s status = (s, [])
take_message (message ∷ queue) s status = process (record s { queue = queue }) message status

unfoldable pub work : Sink → WebSocketStatus → Sink × List Effect
unfolding take_message
work s status = take_message s.queue s status

-- One round of `run_transcription`, with what the recogniser makes of the turn.
unfoldable pub recognise :
    {Double : Type 0}
    → (Double → Bytes)
    → Sink
    → Transcript Double
    → WebSocketStatus
    → Sink × List Effect
unfolding send_text send_audio_cancel
recognise json_number s transcript status = elim s.transcriptions [
  | [] ↦ (s, [])
  | event ∷ rest ↦ (
    record s { transcriptions = rest },
    (if transcript.ok
        then send_text s
            (build_transcript_frame json_number s.session_id event.sequence event.duration_ms
              transcript)
            status
        else send_audio_cancel s event.sequence status),
  )
]

-- The calls of the simulator's threads, and the rounds of the two workers.
pub data Call : Type 0 where
  publishes : QueuedMessage → Call
  sets_transcriber : Bool → Call
  stops : Call
  works : WebSocketStatus → Call
  recognises : Transcript Bytes → WebSocketStatus → Call

-- A `double` in a call is its printed text.
unfoldable pub step : Sink → Call → Sink × List Effect
unfolding publish set_transcriber stop work recognise
step s (publishes message) = (publish s message, [])
step s (sets_transcriber given) = (set_transcriber s given, [])
step s stops = (stop s, [])
step s (works status) = work s status
step s (recognises transcript status) = recognise (λ (text : Bytes). text) s transcript status
