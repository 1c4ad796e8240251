-- ===== src/Sink/Tests.antt =====
-- Runs of the sink, and its theorems at them.
use zoal_atc.Common.{
  ◌+◌, ◌≡◌, refl, true, false, List, [], ◌∷◌, ◌++◌, Bytes, codes, length, arith, to_decimal,
}
use zoal_atc.Json.{json_escape}
use zoal_atc.Ptt.{PttEvent, default_event, started, transmission_ready}
use zoal_atc.Sink.{
  ptt_event, text, WebSocketStatus, Sink, new_sink, sends, reports, process_event, process,
  transcribe, send_audio_cancel, send_text, Call, publishes, stops, works,
}
use zoal_atc.Sink.Flow.{IsWithin, after, after-new-IsWithin}
use zoal_atc.Sink.Balance.{all_accepted, all_taken, after-new-balance}
use zoal_atc.Sink.Rounds.{run, rounds, sent, frames, room}
use zoal_atc.Sink.Drain.{recognitions, closings, waiting_turns, workers_drain}
use zoal_atc.Transcript.{Transcript}

abbrev fine : WebSocketStatus
fine = record { ok = true; message = [] }

abbrev down : WebSocketStatus
down = record { ok = false; message = codes "closed" }

abbrev turn : PttEvent
turn = record default_event { type = transmission_ready; sequence = 3 }

abbrev fresh : Sink
fresh = new_sink (codes "me") true

abbrev calls : List Call
calls =
    publishes (text (codes "{}"))
    ∷ publishes (ptt_event turn)
    ∷ works fine
    ∷ stops
    ∷ publishes (text (codes "late"))
    ∷ works down
    ∷ []

-- Without a transcriber a finished turn is cancelled, and a socket that is down is reported.
turn-cancelled :
    (process fresh (ptt_event turn) down).1
    ≡ sends (codes "{\"type\":\"audio_cancel\",\"session_id\":\"me\",\"sequence\":3}")
      ∷ reports (codes "closed")
      ∷ []
unfolding process process_event transcribe send_audio_cancel send_text json_escape to_decimal
turn-cancelled = refl

after-new-IsWithin_example : IsWithin (after (new_sink (codes "me") true) calls)
after-new-IsWithin_example = after-new-IsWithin (codes "me") true calls

after-new-balance_example :
    let s = after (new_sink (codes "me") true) calls in
    s.dropped + length s.queue + all_taken (new_sink (codes "me") true) calls
    ≡ all_accepted (new_sink (codes "me") true) calls
after-new-balance_example = after-new-balance (codes "me") true calls (omega arith)

abbrev waiting : Sink
waiting = record fresh {
  queue = text (codes "{}") ∷ ptt_event turn ∷ ptt_event (record turn { sequence = 4 }) ∷ [];
  has_transcriber = true;
  transcriptions = turn ∷ turn ∷ turn ∷ [];
}

abbrev unheard : Transcript Bytes
unheard = record {
  ok = false;
  text = [];
  confidence = [];
  no_speech = false;
  words = [];
  model = [];
}

abbrev answers : List (Transcript Bytes × WebSocketStatus)
answers = (unheard, fine) ∷ (unheard, down) ∷ (unheard, fine) ∷ (unheard, fine) ∷ []

workers_drain_example :
    (let r = run waiting (rounds (fine ∷ down ∷ fine ∷ []) ++ recognitions answers) in
      (r.0 ≡ record waiting { queue = []; transcriptions = [] })
      × (sent r.1
          ≡ frames waiting.session_id (room waiting) waiting.queue
            ++ closings waiting.session_id (waiting_turns waiting) answers))
workers_drain_example =
    workers_drain waiting (fine ∷ down ∷ fine ∷ []) answers (omega arith) (omega arith)

-- There is room for one more turn: the next one is cancelled.
frames-cancelled :
    frames (codes "me") 1 waiting.queue
    ≡ codes "{}" ∷ codes "{\"type\":\"audio_cancel\",\"session_id\":\"me\",\"sequence\":4}" ∷ []
unfolding json_escape to_decimal
frames-cancelled = refl

-- The frame that starts a turn on a tuned radio.
turn-started :
    (process fresh
      (ptt_event (record turn { type = started; transmit_com = 1; frequency_hz = 118700000 }))
      fine).1
    ≡ sends (
        codes
          "{\"type\":\"audio_start\",\"session_id\":\"me\",\"sequence\":3,\"sample_rate_hz\":16000,\"channels\":1,\"format\":\"pcm_s16le\",\"transmit_com\":1,\"frequency_hz\":118700000}")
      ∷ []
unfolding process process_event send_text json_escape to_decimal
turn-started = refl
