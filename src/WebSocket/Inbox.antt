-- ===== src/WebSocket/Inbox.antt =====
-- The loop of receive_text (src/transport/websocket_client.cpp) over the frames that arrive.
use zoal_atc.Common.{
  ℕ, zero, suc, ◌+◌, ◌≤◌, ◌<◌, ◌≡◌, ◌^◌, ◌≢◌, refl, ap, ◌∙◌, ◌⊎◌, inl, inr, true, false, List, [],
  ◌∷◌, ◌++◌, Option, some, arith, leb, ◌==◌, if◌then◌else◌, Bool-cases, if_both, Bytes, codes,
  length, append_assoc, All,
}
use zoal_atc.Endpoint.{Parsed, success}
use zoal_atc.WebSocket.Frame.{size_bytes, text_frame}
use zoal_atc.WebSocket.Link.{Link, flat}
use zoal_atc.WebSocket.Client.{Client, close_locked, close_with}
use zoal_atc.WebSocket.Receive.{
  InboundFrame, max_inbound_frame_bytes, read_frame, dispatch, receive_loop,
}
use zoal_atc.WebSocket.Exact.{with_segments}
use zoal_atc.WebSocket.Wires.{
  Wire, IsWire, wire_bytes, frame_of, read_frame-Reads, short_size, long_size, mask_bit,
  read_frame-too_large,
}
use zoal_atc.WebSocket.Outcomes.{Closes, Gives, read_frame-Ends}

-- What the loop passes over: neither text nor a close.
pub record IsSkipped (w : Wire) : Type 0 where
  pub wire : IsWire w
  pub no_text : w.opcode ≢ 1
  pub no_close : w.opcode ≢ 8

abbrev pub all_bytes : List Wire → Bytes
all_bytes [] = []
all_bytes (w ∷ ws) = wire_bytes w ++ all_bytes ws

-- What one frame makes of the loop.
dispatch-skipped :
    (next : Client → Option (Client × Parsed Bytes)) (c : Client) (w : Wire)
    → IsSkipped w
    → dispatch next (c, success (frame_of w)) ≡ next c
unfolding dispatch
dispatch-skipped next c w v =
    let a : (w.opcode == 8) ≡ false = ground (arith, v.no_close) in
    let b : (w.opcode == 1) ≡ false = ground (arith, v.no_text) in rw (a, b) refl

-- How the loop ends once the frames that it passes over are read: at a final text frame with its
-- payload, at one that is not final or at a close with an error that closes the connection.
abbrev pub verdict : Wire → Client → Client × Parsed Bytes
verdict w c =
    if w.opcode == 8
    then close_with (codes "websocket closed") c
    else if w.final
    then (c, success w.payload)
    else close_with (codes "fragmented websocket text frames are unsupported") c

dispatch-verdict :
    (next : Client → Option (Client × Parsed Bytes)) (c : Client) (w : Wire)
    → (w.opcode ≡ 1) ⊎ (w.opcode ≡ 8)
    → dispatch next (c, success (frame_of w)) ≡ some (verdict w c)
unfolding dispatch
dispatch-verdict next c w (inl e) = rw e (ground arith)
dispatch-verdict next c w (inr e) = rw e (ground arith)

receive_loop-read :
    (fuel : ℕ) (c d : Client) (frame : InboundFrame)
    → read_frame c ≡ (d, success frame)
    → receive_loop (suc fuel) c ≡ dispatch (receive_loop fuel) (d, success frame)
unfolding receive_loop
receive_loop-read fuel c d frame e = ap (dispatch (receive_loop fuel)) e

-- The loop passes over any frames but text and closes, then ends at the first frame that is one: a
-- final text frame gives its payload, another one or a close is an error that closes the
-- connection. Where each frame has a payload of at most a mebibyte this needs no more rounds than
-- there are frames, whatever segments they come in, masked or not, and what follows is left to
-- arrive.
pub receive_loop-verdict :
    (c : Client) (link : Link) (ws : List Wire) (w : Wire) (rest : Bytes) (fuel : ℕ)
    (segments : List (ℕ × Bytes))
    → All IsSkipped ws
    → IsWire w
    → (w.opcode ≡ 1) ⊎ (w.opcode ≡ 8)
    → length ws < fuel
    → flat segments ≡ all_bytes ws ++ (wire_bytes w ++ rest)
    → (left : List (ℕ × Bytes)) × (flat left ≡ rest)
      × (receive_loop fuel (with_segments c link segments)
          ≡ some (verdict w (with_segments c link left)))
receive_loop-verdict c link ws w rest zero segments s v o h e = absurd (omega arith)
receive_loop-verdict c link [] w rest (suc fuel) segments s v o h e =
    let (left, f, g) = read_frame-Reads w v c link segments rest e in
    (
      left,
      f,
      receive_loop-read fuel (with_segments c link segments) (with_segments c link left)
            (frame_of w) g
          ∙ dispatch-verdict (receive_loop fuel) (with_segments c link left) w o,
    )
receive_loop-verdict c link (x ∷ ws) w rest (suc fuel) segments (sx, s) v o h e =
    let (middle, f, g) =
      read_frame-Reads x sx.wire c link segments (all_bytes ws ++ (wire_bytes w ++ rest))
        (e ∙ append_assoc (wire_bytes x) (all_bytes ws) (wire_bytes w ++ rest)) in
    let (left, k, n) = receive_loop-verdict c link ws w rest fuel middle s v o (omega arith) f in
    (
      left,
      k,
      receive_loop-read fuel (with_segments c link segments) (with_segments c link middle)
            (frame_of x) g
          ∙ (dispatch-skipped (receive_loop fuel) (with_segments c link middle) x sx ∙ n),
    )

-- What the loop can give: a text within the limit, with fewer bytes to arrive than there were.
abbrev pub Texts : Client → Link → List (ℕ × Bytes) → Client × Parsed Bytes → Type 0
Texts c link segments r =
    Gives (λ (text : Bytes). length text ≤ max_inbound_frame_bytes) 2 c link segments r

abbrev pub Result : Client → Link → List (ℕ × Bytes) → Option (Client × Parsed Bytes) → Type 0
Result c link segments o =
    (r : Client × Parsed Bytes) × (o ≡ some r) × (Closes c r ⊎ Texts c link segments r)

receive_loop-closes :
    (fuel : ℕ) (c d : Client) (message : Bytes)
    → read_frame d ≡ close_with message c
    → receive_loop (suc fuel) d ≡ some (close_with message c)
unfolding receive_loop dispatch close_with
receive_loop-closes fuel c d message e = ap (dispatch (receive_loop fuel)) e

-- From fewer bytes to arrive on.
Result-later :
    (c : Client) (link : Link) (middle segments : List (ℕ × Bytes))
    (o : Option (Client × Parsed Bytes))
    → length (flat middle) + 2 ≤ length (flat segments)
    → Result c link middle o
    → Result c link segments o
Result-later c link middle segments o h (r, e, inl closes) = (r, e, inl closes)
Result-later c link middle segments o h (r, e, inr (text, left, g, p, le)) =
    (r, e, inr (text, left, g, p, omega (arith, h, le)))

dispatch-Result :
    (next : Client → Option (Client × Parsed Bytes)) (c : Client) (link : Link)
    (middle segments : List (ℕ × Bytes)) (frame : InboundFrame)
    → length (flat middle) + 2 ≤ length (flat segments)
    → length frame.payload ≤ max_inbound_frame_bytes
    → Result c link segments (next (with_segments c link middle))
    → Result c link segments (dispatch next (with_segments c link middle, success frame))
unfolding dispatch close_with close_locked
dispatch-Result next c link middle segments frame h p more =
    if_both (Result c link segments) (frame.opcode == 8) (closed (codes "websocket closed")) (
      if_both (Result c link segments) (frame.opcode == 1)
        (if_both (Result c link segments) frame.final_frame
          (
            (with_segments c link middle, success frame.payload),
            refl,
            inr (frame.payload, middle, refl, p, h),
          )
          (closed (codes "fragmented websocket text frames are unsupported")))
        more)
  where
    closed :
        (message : Bytes)
        → Result c link segments (some (close_with message (with_segments c link middle)))
    closed message = (close_with message c, refl, inl (message, refl))

-- With more rounds than there are bytes to arrive the loop ends, whatever the bytes are: it closes the
-- connection with an error, or it gives a text of at most a mebibyte, for which it has taken two bytes
-- at least and has kept the connection.
pub receive_loop-Result :
    (c : Client) (link : Link) (fuel : ℕ) (segments : List (ℕ × Bytes))
    → length (flat segments) < fuel
    → Result c link segments (receive_loop fuel (with_segments c link segments))
receive_loop-Result c link zero segments h = absurd (omega arith)
receive_loop-Result c link (suc fuel) segments h = elim (read_frame-Ends c link segments) [
  | inl (message, e) ↦ (
    close_with message c,
    receive_loop-closes fuel c (with_segments c link segments) message e,
    inl (message, refl),
  )
  | inr (frame, middle, e, p, le) ↦
      rw
        (receive_loop-read fuel (with_segments c link segments) (with_segments c link middle) frame
          e)
        (dispatch-Result (receive_loop fuel) c link middle segments frame le p (
          Result-later c link middle segments (receive_loop fuel (with_segments c link middle)) le
            (receive_loop-Result c link fuel middle (omega (arith, le)))))
]

-- The frame that `send_text_locked` builds is a final text frame of the protocol with its mask.
pub text_frame-wire_bytes :
    (mask payload : Bytes)
    → text_frame mask payload
      ≡ wire_bytes (record { final = true; opcode = 1; masking = some mask; payload = payload })
unfolding text_frame size_bytes
text_frame-wire_bytes mask payload = elim (Bool-cases (leb (length payload) 125)) [
  | inl short ↦ rw short refl
  | inr longer ↦ elim (Bool-cases (leb (length payload) 0xFFFF)) [
    | inl medium ↦ rw (longer, medium) refl
    | inr large ↦ rw (longer, large) refl
  ]
]

text_frame-IsWire :
    (mask payload : Bytes)
    → length mask ≡ 4
    → length payload ≤ max_inbound_frame_bytes
    → IsWire (record { final = true; opcode = 1; masking = some mask; payload = payload })
text_frame-IsWire mask payload h k = record { opcode = omega arith; masking = h; fits = k }

-- What `send_text_locked` puts on the wire with a mask of four bytes, up to a mebibyte of text,
-- the loop reads back in any segments, and leaves what follows it.
pub receive_loop-text_frame :
    (c : Client) (link : Link) (mask payload rest : Bytes) (fuel : ℕ) (segments : List (ℕ × Bytes))
    → length mask ≡ 4
    → length payload ≤ max_inbound_frame_bytes
    → flat segments ≡ text_frame mask payload ++ rest
    → (left : List (ℕ × Bytes)) × (flat left ≡ rest)
      × (receive_loop (suc fuel) (with_segments c link segments)
          ≡ some (with_segments c link left, success payload))
receive_loop-text_frame c link mask payload rest fuel segments h k e =
    receive_loop-verdict c link []
      (record { final = true; opcode = 1; masking = some mask; payload = payload }) rest (suc fuel)
      segments tt (text_frame-IsWire mask payload h k) (inl refl) (omega arith)
      (e ∙ ap (λ (t : Bytes). t ++ rest) (text_frame-wire_bytes mask payload))

-- A frame that announces more than a mebibyte, in whatever form and segments, ends the loop before
-- its payload is read: the connection is closed with an error.
pub receive_loop-too_large :
    (c : Client) (link : Link) (first : ℕ) (masking : Option Bytes) (size : ℕ) (rest : Bytes)
    (fuel : ℕ) (segments : List (ℕ × Bytes))
    → max_inbound_frame_bytes < size
    → size < 2 ^ 64
    → flat segments ≡ first ∷ (mask_bit masking + short_size size) ∷ (long_size size ++ rest)
    → receive_loop (suc fuel) (with_segments c link segments)
      ≡ some (close_with (codes "websocket frame too large") c)
receive_loop-too_large c link first masking size rest fuel segments h k e =
    receive_loop-closes fuel c (with_segments c link segments) (codes "websocket frame too large")
      (read_frame-too_large c link first masking size rest segments h k e)
