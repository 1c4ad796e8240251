-- ===== src/Sink/Rounds.antt =====
-- What the rounds of the worker of src/transport/async_websocket_ptt_sink.cpp make of the queue.
use zoal_atc.Common.{
  ℕ, zero, suc, ◌-◌, ◌≤◌, ◌≡◌, refl, sym, ap, ◌∙◌, not, ◌&&◌, List, [], ◌∷◌, ◌++◌, arith, ◌==◌,
  if◌then◌else◌, Bytes, length, take, length-append, append_assoc, append-nil,
}
use zoal_atc.Ptt.{PttEvent, started, transmission_ready, cancelled, ignored, PttEventType.error}
use zoal_atc.Sink.{
  QueuedMessage, ptt_event, text, WebSocketStatus, Sink, max_queued_transcriptions, Effect, sends,
  reports, audio_start_frame, audio_cancel_frame, send_text, send_audio_cancel, transcribe,
  process_event, process, take_message, work, Call, works, step,
}

-- The sink and what has been done outside after several calls.
unfoldable pub run : Sink → List Call → Sink × List Effect
run s [] = (s, [])
run s (call ∷ calls) =
    let (t, effects) = step s call in let (u, more) = run t calls in (u, effects ++ more)

-- Rounds of the worker alone.
abbrev pub rounds : List WebSocketStatus → List Call
rounds [] = []
rounds (status ∷ statuses) = works status ∷ rounds statuses

-- The frames among these effects.
abbrev pub sent : List Effect → List Bytes
sent [] = []
sent (sends payload ∷ effects) = payload ∷ sent effects
sent (reports message ∷ effects) = sent effects

-- How many turns may still join those that wait for the recogniser.
abbrev pub room : Sink → ℕ
room s =
    if s.has_transcriber && not s.stopping
    then max_queued_transcriptions - length s.transcriptions
    else 0

-- The finished turns of a queue.
abbrev pub turns : List QueuedMessage → List PttEvent
turns [] = []
turns (text payload ∷ queue) = turns queue
turns (ptt_event event ∷ queue) =
    let rest = turns queue in elim event.type [ transmission_ready ↦ event ∷ rest | _ ↦ rest ]

-- The frames that a queue stands for, where so many turns may still wait: a text is a frame, so is
-- the start of a turn, and a turn that is given up or finds no room is cancelled.
abbrev pub frames : Bytes → ℕ → List QueuedMessage → List Bytes
frames session_id free [] = []
frames session_id free (text payload ∷ queue) = payload ∷ frames session_id free queue
frames session_id free (ptt_event event ∷ queue) =
    let same = frames session_id free queue in
    let fewer = frames session_id (free - 1) queue in
    let given_up = audio_cancel_frame session_id event.sequence ∷ same in
    elim event.type [
      | started ↦ audio_start_frame session_id event ∷ same
      | transmission_ready ↦ if free == 0 then given_up else fewer
      | cancelled ↦ given_up
      | ignored ↦ same
      | error ↦ if event.sequence == 0 then same else given_up
    ]

-- What a message adds to the turns that wait.
abbrev joins : ℕ → QueuedMessage → List PttEvent
joins free (text payload) = []
joins free (ptt_event event) = elim event.type [
  | transmission_ready ↦ if free == 0 then [] else event ∷ []
  | _ ↦ []
]

pub sent-append : (first second : List Effect) → sent (first ++ second) ≡ sent first ++ sent second
sent-append [] second = refl
sent-append (sends payload ∷ first) second = ap (◌∷◌ payload) (sent-append first second)
sent-append (reports message ∷ first) second = sent-append first second

pub sent-send_text :
    (s : Sink) (payload : Bytes) (status : WebSocketStatus)
    → sent (send_text s payload status) ≡ payload ∷ []
unfolding send_text
sent-send_text s payload status = ground arith

process-state :
    (s : Sink) (message : QueuedMessage) (status : WebSocketStatus)
    → (process s message status).0
      ≡ record s { transcriptions = s.transcriptions ++ joins (room s) message }
unfolding process process_event transcribe
process-state s (text payload) status = rw (append-nil s.transcriptions) refl
process-state s (ptt_event event) status = ground (arith, append-nil s.transcriptions)

frames-process :
    (s : Sink) (message : QueuedMessage) (status : WebSocketStatus) (queue : List QueuedMessage)
    → sent (process s message status).1
        ++ frames s.session_id (room s - length (joins (room s) message)) queue
      ≡ frames s.session_id (room s) (message ∷ queue)
unfolding process process_event transcribe send_audio_cancel
frames-process s (text payload) status queue = ground (arith, sent-send_text s payload status)
frames-process s (ptt_event event) status queue = ground (
  arith,
  sent-send_text s (audio_start_frame s.session_id event) status,
  sent-send_text s (audio_cancel_frame s.session_id event.sequence) status,
)

room-joins :
    (s : Sink) (message : QueuedMessage)
    → room (record s { transcriptions = s.transcriptions ++ joins (room s) message })
      ≡ room s - length (joins (room s) message)
room-joins s message = ground (arith, length-append s.transcriptions (joins (room s) message))

turns-joins :
    (free : ℕ) (message : QueuedMessage) (queue : List QueuedMessage)
    → joins free message ++ take (free - length (joins free message)) (turns queue)
      ≡ take free (turns (message ∷ queue))
turns-joins free (text payload) queue = ground arith
turns-joins zero (ptt_event event) queue = ground arith
turns-joins (suc free) (ptt_event event) queue = ground arith

take-nil : (n : ℕ) → ◌≡◌ {A = List PttEvent} (take n []) []
take-nil zero = refl
take-nil (suc n) = refl

-- The turns that wait after a message and those behind it.
waiting-joins :
    (s : Sink) (message : QueuedMessage) (queue : List QueuedMessage)
    → (s.transcriptions ++ joins (room s) message)
        ++ take
            (room (record s { transcriptions = s.transcriptions ++ joins (room s) message }))
            (turns queue)
      ≡ s.transcriptions ++ take (room s) (turns (message ∷ queue))
waiting-joins s message queue =
    ap (λ (n : ℕ). (s.transcriptions ++ joins (room s) message) ++ take n (turns queue))
      (room-joins s message)
    ∙ append_assoc s.transcriptions (joins (room s) message) _
    ∙ ap (λ (l : List PttEvent). s.transcriptions ++ l) (turns-joins (room s) message queue)

pub run-append :
    (s : Sink) (first second : List Call)
    → (let r = run s first in
        let q = run r.0 second in
        ((run s (first ++ second)).0 ≡ q.0)
        × (sent (run s (first ++ second)).1 ≡ sent r.1 ++ sent q.1))
unfolding run
run-append s [] second = (refl, refl)
run-append s (call ∷ first) second =
    let (t, e) = step s call in
    let (state, frame) = run-append t first second in
    let (u, later) = run t first in
    (
      state,
      sent-append e (run t (first ++ second)).1
          ∙ ap (λ (l : List Bytes). sent e ++ l) frame
          ∙ sym (append_assoc (sent e) (sent later) (sent (run u second).1))
          ∙ ap (λ (l : List Bytes). l ++ sent (run u second).1) (sym (sent-append e later)),
    )

-- What the worker's rounds leave behind and send.
pub record Emptied (s : Sink) (queue : List QueuedMessage) (r : Sink × List Effect) : Type 0 where
  pub state :
      r.0
      ≡ record s { queue = []; transcriptions = s.transcriptions ++ take (room s) (turns queue) }
  pub frame : sent r.1 ≡ frames s.session_id (room s) queue

pub run-rounds :
    (queue : List QueuedMessage) (s : Sink) (statuses : List WebSocketStatus)
    → length queue ≤ length statuses
    → Emptied s queue (run (record s { queue = queue }) (rounds statuses))
unfolding run step work take_message
run-rounds [] s [] h = record {
  state = rw (take-nil (room s), append-nil s.transcriptions) refl;
  frame = refl;
}
run-rounds [] s (status ∷ statuses) h =
    let ih = run-rounds [] s statuses (omega arith) in record { state = ih.state; frame = ih.frame }
run-rounds (message ∷ queue) s [] h = absurd (omega (arith, h))
run-rounds (message ∷ queue) s (status ∷ statuses) h =
    let t = record s { queue = queue } in
    let u = record s { transcriptions = s.transcriptions ++ joins (room s) message } in
    let ih = run-rounds queue u statuses (omega (arith, h)) in
    let p = process-state t message status in
    record {
      state =
          ap (λ (v : Sink). (run v (rounds statuses)).0) p
          ∙ ih.state
          ∙ ap (λ (l : List PttEvent). record s { queue = []; transcriptions = l })
              (waiting-joins s message queue);
      frame =
          sent-append (process t message status).1 _
          ∙ ap (λ (v : Sink). sent (process t message status).1 ++ sent (run v (rounds statuses)).1)
              p
          ∙ ap (λ (l : List Bytes). sent (process t message status).1 ++ l) ih.frame
          ∙ ap (λ (n : ℕ). sent (process t message status).1 ++ frames s.session_id n queue)
              (room-joins s message)
          ∙ frames-process t message status queue;
    }
