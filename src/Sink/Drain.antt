-- ===== src/Sink/Drain.antt =====
-- What the two workers of src/transport/async_websocket_ptt_sink.cpp make of all that the sink holds.
use zoal_atc.Common.{
  ◌≤◌, ◌≡◌, refl, ap, ◌∙◌, List, [], ◌∷◌, ◌++◌, arith, if◌then◌else◌, Bytes, length, take,
}
use zoal_atc.Ptt.{PttEvent}
use zoal_atc.Transcript.{Transcript, build_transcript_frame}
use zoal_atc.Sink.{
  WebSocketStatus, Sink, Effect, audio_cancel_frame, send_audio_cancel, recognise, Call, recognises,
  step,
}
use zoal_atc.Sink.Rounds.{
  run, rounds, sent, room, turns, frames, sent-append, sent-send_text, run-append, run-rounds,
}

-- Rounds of the recogniser alone.
abbrev pub recognitions : List (Transcript Bytes × WebSocketStatus) → List Call
recognitions [] = []
recognitions ((transcript, status) ∷ answers) = recognises transcript status ∷ recognitions answers

-- The frames that turns which wait come to: the transcript of each, or its cancel.
abbrev pub closings : Bytes → List PttEvent → List (Transcript Bytes × WebSocketStatus) → List Bytes
closings session_id [] answers = []
closings session_id (event ∷ waiting) [] = []
closings session_id (event ∷ waiting) ((transcript, status) ∷ answers) =
    (if transcript.ok
      then build_transcript_frame (λ (text : Bytes). text) session_id event.sequence
          event.duration_ms transcript
      else audio_cancel_frame session_id event.sequence)
    ∷ closings session_id waiting answers

pub record Recognised (s : Sink) (waiting : List PttEvent)
    (answers : List (Transcript Bytes × WebSocketStatus)) (r : Sink × List Effect) : Type 0 where
  pub state : r.0 ≡ record s { transcriptions = [] }
  pub frame : sent r.1 ≡ closings s.session_id waiting answers

sent-recognise :
    (s : Sink) (event : PttEvent) (waiting : List PttEvent) (transcript : Transcript Bytes)
    (status : WebSocketStatus)
    → sent
        (recognise
          (λ (text : Bytes). text)
          (record s { transcriptions = event ∷ waiting })
          transcript
          status).1
      ≡ closings s.session_id (event ∷ []) ((transcript, status) ∷ [])
unfolding recognise send_audio_cancel
sent-recognise s event waiting transcript status = ground (
  arith,
  sent-send_text s (audio_cancel_frame s.session_id event.sequence) status,
  sent-send_text s
      (build_transcript_frame (λ (text : Bytes). text) s.session_id event.sequence event.duration_ms
        transcript)
      status,
)

run-recognitions :
    (waiting : List PttEvent) (s : Sink) (answers : List (Transcript Bytes × WebSocketStatus))
    → length waiting ≤ length answers
    → Recognised s waiting answers
        (run (record s { transcriptions = waiting }) (recognitions answers))
unfolding run step recognise
run-recognitions [] s [] h = record { state = refl; frame = refl }
run-recognitions [] s ((transcript, status) ∷ answers) h =
    let ih = run-recognitions [] s answers (omega arith) in
    record { state = ih.state; frame = ih.frame }
run-recognitions (event ∷ waiting) s [] h = absurd (omega (arith, h))
run-recognitions (event ∷ waiting) s ((transcript, status) ∷ answers) h =
    let ih = run-recognitions waiting s answers (omega (arith, h)) in
    let first =
      (recognise (λ (text : Bytes). text) (record s { transcriptions = event ∷ waiting }) transcript
        status).1 in
    record {
      state = ih.state;
      frame =
          sent-append first _
          ∙ ap
              (λ (l : List Bytes).
                l ++ sent (run (record s { transcriptions = waiting }) (recognitions answers)).1)
              (sent-recognise s event waiting transcript status)
          ∙ ap
              (λ (l : List Bytes).
                closings s.session_id (event ∷ []) ((transcript, status) ∷ []) ++ l)
              ih.frame;
    }

-- The turns that wait for the recogniser once the worker is through with the queue.
abbrev pub waiting_turns : Sink → List PttEvent
waiting_turns s = s.transcriptions ++ take (room s) (turns s.queue)

-- A sink that is given nothing more: after at least as many rounds of its worker as it has
-- messages, then at least as many of the recogniser as turns wait by then, it has no message and
-- no turn left and is otherwise as it was. The frames it has sent are, in order, those of its
-- messages and then, for each turn that waits, its transcript, or its cancel where the recogniser
-- fails. A text is a frame, and so are the start of a turn and the cancel of one that was given up
-- or failed; an ignored event and an error of no turn are none; a finished turn joins those that
-- wait, behind them, while there is a recogniser, the sink is not stopped and fewer than four
-- wait, and is cancelled otherwise.
pub workers_drain :
    (s : Sink) (statuses : List WebSocketStatus)
    (answers : List (Transcript Bytes × WebSocketStatus))
    → length s.queue ≤ length statuses
    → length (waiting_turns s) ≤ length answers
    → (let r = run s (rounds statuses ++ recognitions answers) in
        (r.0 ≡ record s { queue = []; transcriptions = [] })
        × (sent r.1
            ≡ frames s.session_id (room s) s.queue
              ++ closings s.session_id (waiting_turns s) answers))
workers_drain s statuses answers h k =
    let t = record s { queue = []; transcriptions = waiting_turns s } in
    let worked = run-rounds s.queue s statuses h in
    let heard = run-recognitions (waiting_turns s) t answers k in
    let (state, frame) = run-append s (rounds statuses) (recognitions answers) in
    (
      state ∙ ap (λ (v : Sink). (run v (recognitions answers)).0) worked.state ∙ heard.state,
      frame
          ∙ ap
              (λ (v : Sink).
                sent (run s (rounds statuses)).1 ++ sent (run v (recognitions answers)).1)
              worked.state
          ∙ ap (λ (l : List Bytes). l ++ sent (run t (recognitions answers)).1) worked.frame
          ∙ ap (λ (l : List Bytes). frames s.session_id (room s) s.queue ++ l) heard.frame,
    )
