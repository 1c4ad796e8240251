-- ===== src/Sink/Flow.antt =====
-- The caps of the sink's two queues (src/transport/async_websocket_ptt_sink.cpp).
use zoal_atc.Common.{
  ◌≤◌, ◌≡◌, refl, Bool, not, ◌||◌, List, [], ◌∷◌, arith, if_both, Bytes, length, length-snoc,
}
use zoal_atc.Queue.Bound.{push_bounded-le-cap}
use zoal_atc.Transcript.{Transcript}
use zoal_atc.Sink.{
  QueuedMessage, ptt_event, text, WebSocketStatus, Sink, max_queued_messages,
  max_queued_transcriptions, new_sink, enqueue, publish, stop, set_transcriber, transcribe,
  process_event, process, take_message, work, recognise, Call, publishes, sets_transcriber, stops,
  works, recognises, step,
}

pub record IsWithin (s : Sink) : Type 0 where
  pub messages : length s.queue ≤ max_queued_messages
  pub turns : length s.transcriptions ≤ max_queued_transcriptions

publish-IsWithin : (s : Sink) (message : QueuedMessage) → IsWithin s → IsWithin (publish s message)
unfolding publish enqueue
publish-IsWithin s message v = if_both IsWithin s.stopping v (record {
  messages = push_bounded-le-cap s.queue message max_queued_messages v.messages;
  turns = v.turns;
})

-- What the worker does with a message leaves the queue alone, and the turns within their cap.
pub record Kept (s t : Sink) : Type 0 where
  pub queue : t.queue ≡ s.queue
  pub dropped : t.dropped ≡ s.dropped
  pub stopping : t.stopping ≡ s.stopping
  pub turns :
      length s.transcriptions ≤ max_queued_transcriptions
      → length t.transcriptions ≤ max_queued_transcriptions

pub process-Kept :
    (s : Sink) (message : QueuedMessage) (status : WebSocketStatus)
    → Kept s (process s message status).0
unfolding process process_event transcribe
process-Kept s (text payload) status = record {
  queue = refl;
  dropped = refl;
  stopping = refl;
  turns = λ h. h;
}
process-Kept s (ptt_event event) status = record {
  queue = ground arith;
  dropped = ground arith;
  stopping = ground arith;
  turns = λ h. ground (arith, length-snoc s.transcriptions event);
}

pub recognise-queue :
    (s : Sink) (transcript : Transcript Bytes) (status : WebSocketStatus)
    → Kept s (recognise (λ (text : Bytes). text) s transcript status).0
unfolding recognise
recognise-queue s transcript status = record {
  queue = ground arith;
  dropped = ground arith;
  stopping = ground arith;
  turns = λ h. ground arith;
}

Kept-IsWithin : (s t : Sink) → Kept s t → IsWithin s → IsWithin t
Kept-IsWithin s t k v = record { messages = rw k.queue v.messages; turns = k.turns v.turns }

take_message-IsWithin :
    (queue : List QueuedMessage) (s : Sink) (status : WebSocketStatus)
    → length queue ≤ max_queued_messages
    → IsWithin s
    → IsWithin (take_message queue s status).0
unfolding take_message
take_message-IsWithin [] s status h v = v
take_message-IsWithin (message ∷ queue) s status h v =
    Kept-IsWithin _ _ (process-Kept (record s { queue = queue }) message status)
      (record { messages = omega (arith, h); turns = v.turns })

step-IsWithin : (s : Sink) (call : Call) → IsWithin s → IsWithin (step s call).0
unfolding step work set_transcriber stop
step-IsWithin s (publishes message) v = publish-IsWithin s message v
step-IsWithin s (sets_transcriber given) v =
    if_both IsWithin (s.has_transcriber || not given) v
      (record { messages = v.messages; turns = v.turns })
step-IsWithin s stops v = record { messages = v.messages; turns = v.turns }
step-IsWithin s (works status) v = take_message-IsWithin s.queue s status v.messages v
step-IsWithin s (recognises transcript status) v =
    Kept-IsWithin s _ (recognise-queue s transcript status) v

-- The sink after several calls.
unfoldable pub after : Sink → List Call → Sink
after s [] = s
after s (call ∷ calls) = after (step s call).0 calls

after-IsWithin : (s : Sink) (calls : List Call) → IsWithin s → IsWithin (after s calls)
unfolding after
after-IsWithin s [] v = v
after-IsWithin s (call ∷ calls) v = after-IsWithin (step s call).0 calls (step-IsWithin s call v)

-- After any calls of a new sink it holds at most 256 messages, and at most four turns to
-- transcribe.
pub after-new-IsWithin :
    (session_id : Bytes) (reports : Bool) (calls : List Call)
    → IsWithin (after (new_sink session_id reports) calls)
after-new-IsWithin session_id reports calls =
    after-IsWithin (new_sink session_id reports) calls
      (record { messages = omega arith; turns = omega arith })
