-- ===== src/Sink/Balance.antt =====
-- What becomes of the messages given to the sink (src/transport/async_websocket_ptt_sink.cpp).
use zoal_atc.Common.{
  ℕ, ◌+◌, ◌^◌, ◌≤◌, ◌<◌, ◌≡◌, refl, Bool, List, [], ◌∷◌, arith, if◌then◌else◌, Bytes, length,
}
use zoal_atc.Queue.Bound.{push_bounded-total}
use zoal_atc.Sink.Flow.{process-Kept, recognise-queue, after}
use zoal_atc.Sink.{
  QueuedMessage, WebSocketStatus, Sink, max_queued_messages, new_sink, enqueue, publish, stop,
  set_transcriber, take_message, work, Call, publishes, sets_transcriber, stops, works, recognises,
  step,
}

-- The messages that a call gives to the sink before it is stopped, and those its worker takes.
abbrev pub accepted : Sink → Call → ℕ
accepted s (publishes message) = if s.stopping then 0 else 1
accepted s (sets_transcriber given) = 0
accepted s stops = 0
accepted s (works status) = 0
accepted s (recognises transcript status) = 0

abbrev one_of : List QueuedMessage → ℕ
one_of [] = 0
one_of (message ∷ queue) = 1

abbrev pub taken : Sink → Call → ℕ
taken s (publishes message) = 0
taken s (sets_transcriber given) = 0
taken s stops = 0
taken s (works status) = one_of s.queue
taken s (recognises transcript status) = 0

abbrev held : Sink → ℕ
held s = s.dropped + length s.queue

take_message-held :
    (queue : List QueuedMessage) (s : Sink) (status : WebSocketStatus)
    → s.queue ≡ queue
    → held (take_message queue s status).0 + one_of queue ≡ held s
unfolding take_message
take_message-held [] s status e = ground arith
take_message-held (message ∷ queue) s status e =
    let k = process-Kept (record s { queue = queue }) message status in
    rw (k.queue, k.dropped, e) (omega arith)

publish-held :
    (s : Sink) (message : QueuedMessage)
    → held s + 1 < 2 ^ 64
    → held (publish s message) ≡ held s + (if s.stopping then 0 else 1)
unfolding publish enqueue
publish-held s message h = ground (arith, push_bounded-total s.queue message max_queued_messages)

step-held :
    (s : Sink) (call : Call)
    → held s + 1 < 2 ^ 64
    → held (step s call).0 + taken s call ≡ held s + accepted s call
unfolding step work set_transcriber stop
step-held s (publishes message) h = rw (publish-held s message h) (omega arith)
step-held s (sets_transcriber given) h = ground arith
step-held s stops h = omega arith
step-held s (works status) h = rw (take_message-held s.queue s status refl) (omega arith)
step-held s (recognises transcript status) h =
    let k = recognise-queue s transcript status in rw (k.queue, k.dropped) (omega arith)

accepted-le : (s : Sink) (call : Call) → accepted s call ≤ 1
accepted-le s (publishes message) = ground arith
accepted-le s (sets_transcriber given) = omega arith
accepted-le s stops = omega arith
accepted-le s (works status) = omega arith
accepted-le s (recognises transcript status) = omega arith

pub all_accepted : Sink → List Call → ℕ
all_accepted s [] = 0
all_accepted s (call ∷ calls) = accepted s call + all_accepted (step s call).0 calls

pub all_taken : Sink → List Call → ℕ
all_taken s [] = 0
all_taken s (call ∷ calls) = taken s call + all_taken (step s call).0 calls

after-held :
    (s : Sink) (calls : List Call)
    → held s + length calls < 2 ^ 64
    → held (after s calls) + all_taken s calls ≡ held s + all_accepted s calls
unfolding after all_accepted all_taken
after-held s [] h = refl
after-held s (call ∷ calls) h =
    let a = step-held s call (omega (arith, h)) in
    let l = accepted-le s call in
    let rest = after-held (step s call).0 calls (omega (arith, h, a, l)) in omega (arith, a, rest)

-- After any calls of a new sink, fewer than 2 ^ 64, the messages that it accepted are as many as
-- those the worker took, those still queued and those that `dropped` counts.
pub after-new-balance :
    (session_id : Bytes) (reports : Bool) (calls : List Call)
    → length calls < 2 ^ 64
    → let s = after (new_sink session_id reports) calls in
      s.dropped + length s.queue + all_taken (new_sink session_id reports) calls
      ≡ all_accepted (new_sink session_id reports) calls
after-new-balance session_id reports calls h =
    let a = after-held (new_sink session_id reports) calls (omega (arith, h)) in omega (arith, a)
