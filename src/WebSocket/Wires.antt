-- ===== src/WebSocket/Wires.antt =====
-- A frame as RFC 6455 lays it out, read by the loop body of receive_text
-- (src/transport/websocket_client.cpp).
use zoal_atc.Common.{
  ℕ, ◌+◌, ◌%◌, ◌^◌, ◌≤◌, ◌<◌, ◌≡◌, refl, ◌∙◌, Bool, true, false, List, [], ◌∷◌, ◌++◌, Option, none,
  some, inl, inr, arith, leb, ltb, ◌==◌, if◌then◌else◌, Bool-cases, Bytes, codes, length, get_or,
  append-nil,
}
use zoal_atc.Endpoint.{success}
use zoal_atc.WebSocket.Frame.{append_u16, append_u64, read_u16, read_u64, mask_from}
use zoal_atc.WebSocket.Link.{Link, flat}
use zoal_atc.WebSocket.Client.{Client, Action, close_locked, close_with, recv_exact, pure, ◌>>=◌}
use zoal_atc.WebSocket.Receive.{
  InboundFrame, payload_size, check_size, frame_mask, unmasked, read_payload, inbound_frame,
  read_rest, read_frame, max_inbound_frame_bytes,
}
use zoal_atc.WebSocket.Exact.{
  Reads, pure-Reads, bind-Reads, recv_exact-Reads, with_segments, continue-then,
}
use zoal_atc.WebSocket.Masks.{
  mask_from_twice, length-mask_from, read_u16-append_u16, read_u64-append_u64,
}

-- A frame of the peer; `masking` is its mask if it has one.
pub record Wire : Type 0 where
  pub final : Bool
  pub opcode : ℕ
  pub masking : Option Bytes
  pub payload : Bytes

abbrev pub IsMask : Option Bytes → Type 0
IsMask none = Unit
IsMask (some mask) = length mask ≡ 4

pub record IsWire (w : Wire) : Type 0 where
  pub opcode : w.opcode < 16
  pub masking : IsMask w.masking
  pub fits : length w.payload ≤ max_inbound_frame_bytes

abbrev pub short_size : ℕ → ℕ
short_size size = if leb size 125 then size else if leb size 0xFFFF then 126 else 127

abbrev pub long_size : ℕ → Bytes
long_size size =
    if leb size 125 then [] else if leb size 0xFFFF then append_u16 size else append_u64 size

abbrev pub mask_bit : Option Bytes → ℕ
mask_bit none = 0
mask_bit (some mask) = 128

abbrev pub body : Option Bytes → Bytes → Bytes
body none payload = payload
body (some mask) payload = mask ++ mask_from mask 0 payload

abbrev pub wire_bytes : Wire → Bytes
wire_bytes w =
    ((if w.final then 128 else 0) + w.opcode)
    ∷ (mask_bit w.masking + short_size (length w.payload))
    ∷ (long_size (length w.payload) ++ body w.masking w.payload)

short_size-lt : (size : ℕ) → short_size size < 128
short_size-lt size = ground arith

u16-Reads :
    (size : ℕ)
    → size < 2 ^ 16
    → Reads (recv_exact 2 >>= λ extended. pure (read_u16 extended)) (append_u16 size) size
unfolding append_u16
u16-Reads size h =
    let back : read_u16 (append_u16 size) ≡ size = read_u16-append_u16 size h in
    bind-Reads (recv_exact 2) (λ extended. pure (read_u16 extended)) (append_u16 size) []
      (append_u16 size) size (recv_exact-Reads (append_u16 size)) (rw back (pure-Reads size))

u64-Reads :
    (size : ℕ)
    → size < 2 ^ 64
    → Reads (recv_exact 8 >>= λ extended. pure (read_u64 extended)) (append_u64 size) size
unfolding append_u64
u64-Reads size h =
    let back : read_u64 (append_u64 size) ≡ size = read_u64-append_u64 size h in
    bind-Reads (recv_exact 8) (λ extended. pure (read_u64 extended)) (append_u64 size) []
      (append_u64 size) size (recv_exact-Reads (append_u64 size)) (rw back (pure-Reads size))

-- The longer forms of a length are read to the end.
payload_size-Reads :
    (size : ℕ) → size < 2 ^ 64 → Reads (payload_size (short_size size)) (long_size size) size
unfolding payload_size
payload_size-Reads size h = elim (Bool-cases (leb size 125)) [
  | inl short ↦
      let n1 : (size == 126) ≡ false = ground arith in
      let n2 : (size == 127) ≡ false = ground arith in rw (short, n1, n2) (pure-Reads size)
  | inr longer ↦ elim (Bool-cases (leb size 0xFFFF)) [
    | inl medium ↦ rw (longer, medium) (u16-Reads size (ground arith))
    | inr large ↦ rw (longer, large) (u64-Reads size h)
  ]
]

check_size-Reads : (size : ℕ) → size ≤ max_inbound_frame_bytes → Reads (check_size size) [] tt
unfolding check_size
check_size-Reads size h =
    let fits : ltb max_inbound_frame_bytes size ≡ false = ground arith in rw fits (pure-Reads tt)

abbrev pub frame_of : Wire → InboundFrame
frame_of w = record { final_frame = w.final; opcode = w.opcode; payload = w.payload }

-- The payload, behind the mask.
unmasked-Reads :
    (masked : Bool) (mask bytes : Bytes)
    → Reads
        (recv_exact (length bytes) >>= λ bytes. pure (unmasked masked mask bytes))
        bytes
        (unmasked masked mask bytes)
unmasked-Reads masked mask bytes =
    let r : Reads (recv_exact (length bytes) >>= λ bytes. pure (unmasked masked mask bytes))
        (bytes ++ []) (unmasked masked mask bytes) =
      bind-Reads (recv_exact (length bytes)) (λ bytes. pure (unmasked masked mask bytes)) bytes []
        bytes (unmasked masked mask bytes) (recv_exact-Reads bytes)
        (pure-Reads (unmasked masked mask bytes)) in
    rw (append-nil bytes) at r

masked-Reads :
    (mask payload : Bytes)
    → Reads
        (recv_exact (length payload) >>= λ bytes. pure (unmasked true mask bytes))
        (mask_from mask 0 payload)
        payload
masked-Reads mask payload =
    rw (length-mask_from mask 0 payload, mask_from_twice mask 0 payload) at
      (unmasked-Reads true mask (mask_from mask 0 payload))

read_payload-Reads :
    (masking : Option Bytes) (payload : Bytes)
    → IsMask masking
    → Reads
        (read_payload (leb 128 (mask_bit masking)) (length payload))
        (body masking payload)
        payload
unfolding read_payload frame_mask
read_payload-Reads none payload h =
    bind-Reads (frame_mask false)
      (λ mask. recv_exact (length payload) >>= λ bytes. pure (unmasked false mask bytes)) [] payload
      [] payload (pure-Reads []) (unmasked-Reads false [] payload)
read_payload-Reads (some mask) payload h =
    let four : Reads (recv_exact 4) mask mask = rw h at (recv_exact-Reads mask) in
    bind-Reads (recv_exact 4)
      (λ mask. recv_exact (length payload) >>= λ bytes. pure (unmasked true mask bytes)) mask
      (mask_from mask 0 payload) mask payload four (masked-Reads mask payload)

-- The two bytes in front.
abbrev header_of : Wire → Bytes
header_of w =
    ((if w.final then 128 else 0) + w.opcode)
    ∷ (mask_bit w.masking + short_size (length w.payload))
    ∷ []

low_bits :
    (masking : Option Bytes) (size : ℕ)
    → (mask_bit masking + short_size size) % 128 ≡ short_size size
low_bits none size = omega (arith, short_size-lt size)
low_bits (some mask) size = omega (arith, short_size-lt size)

high_bit :
    (masking : Option Bytes) (size : ℕ)
    → leb 128 (mask_bit masking + short_size size) ≡ leb 128 (mask_bit masking)
high_bit none size = ground (arith, short_size-lt size)
high_bit (some mask) size = ground arith

opcode_bits :
    (final : Bool) (opcode : ℕ) → opcode < 16 → ((if final then 128 else 0) + opcode) % 16 ≡ opcode
opcode_bits true opcode h = omega arith
opcode_bits false opcode h = omega arith

final_bit :
    (final : Bool) (opcode : ℕ)
    → opcode < 16
    → leb 128 ((if final then 128 else 0) + opcode) ≡ final
final_bit true opcode h = ground arith
final_bit false opcode h = ground arith

inbound_frame-header_of : (w : Wire) → IsWire w → inbound_frame (header_of w) w.payload ≡ frame_of w
inbound_frame-header_of w v =
    rw (opcode_bits w.final w.opcode v.opcode, final_bit w.final w.opcode v.opcode) refl

-- What follows the length.
behind_size : Bytes → Bool → ℕ → Action InboundFrame
behind_size header masked size = check_size size >>= λ _.
    read_payload masked size >>= λ payload. pure (inbound_frame header payload)

behind_size-Reads :
    (w : Wire)
    → IsWire w
    → Reads
        (behind_size (header_of w) (leb 128 (mask_bit w.masking)) (length w.payload))
        (body w.masking w.payload)
        (frame_of w)
unfolding behind_size
behind_size-Reads w v =
    let size = length w.payload in
    let masked = leb 128 (mask_bit w.masking) in
    let sent = body w.masking w.payload in
    let finish : InboundFrame = inbound_frame (header_of w) w.payload in
    let last : Reads
        (read_payload masked size >>= λ payload. pure (inbound_frame (header_of w) payload))
        (sent ++ []) finish =
      bind-Reads (read_payload masked size) (λ payload. pure (inbound_frame (header_of w) payload))
        sent [] w.payload finish (read_payload-Reads w.masking w.payload v.masking)
        (pure-Reads finish) in
    let whole : Reads (behind_size (header_of w) masked size) (sent ++ []) finish =
      bind-Reads (check_size size)
        (λ _. read_payload masked size >>= λ payload. pure (inbound_frame (header_of w) payload)) []
        (sent ++ []) tt finish (check_size-Reads size v.fits) last in
    rw (append-nil sent, inbound_frame-header_of w v) at whole

read_rest-Reads :
    (w : Wire)
    → IsWire w
    → Reads
        (read_rest (header_of w))
        (long_size (length w.payload) ++ body w.masking w.payload)
        (frame_of w)
unfolding read_rest
read_rest-Reads w v =
    let size = length w.payload in
    let whole =
      bind-Reads (payload_size (short_size size))
        (behind_size (header_of w) (leb 128 (mask_bit w.masking))) (long_size size)
        (body w.masking w.payload) size (frame_of w)
        (payload_size-Reads size (omega (arith, v.fits))) (behind_size-Reads w v) in
    rw (low_bits w.masking size, high_bit w.masking size) (unfold behind_size in whole)

-- A frame on the wire is read as it was meant, of whatever form its length is and masked or not.
pub read_frame-Reads : (w : Wire) → IsWire w → Reads read_frame (wire_bytes w) (frame_of w)
unfolding read_frame
read_frame-Reads w v =
    bind-Reads (recv_exact 2) read_rest (header_of w)
      (long_size (length w.payload) ++ body w.masking w.payload) (header_of w) (frame_of w)
      (recv_exact-Reads (header_of w)) (read_rest-Reads w v)

behind_size-too_large :
    (header : Bytes) (masked : Bool) (size : ℕ) (c : Client) (link : Link)
    (segments : List (ℕ × Bytes))
    → max_inbound_frame_bytes < size
    → behind_size header masked size (with_segments c link segments)
      ≡ close_with (codes "websocket frame too large") c
unfolding behind_size check_size close_with close_locked
behind_size-too_large header masked size c link segments h =
    let over : ltb max_inbound_frame_bytes size ≡ true = ground arith in rw over refl

pub read_frame-too_large :
    (c : Client) (link : Link) (first : ℕ) (masking : Option Bytes) (size : ℕ) (rest : Bytes)
    (segments : List (ℕ × Bytes))
    → max_inbound_frame_bytes < size
    → size < 2 ^ 64
    → flat segments ≡ first ∷ (mask_bit masking + short_size size) ∷ (long_size size ++ rest)
    → read_frame (with_segments c link segments) ≡ close_with (codes "websocket frame too large") c
unfolding read_frame read_rest close_with behind_size
read_frame-too_large c link first masking size rest segments h k e =
    let header : Bytes = first ∷ (mask_bit masking + short_size size) ∷ [] in
    let (middle, f, g) = recv_exact-Reads header c link segments (long_size size ++ rest) e in
    let (left, m, n) = payload_size-Reads size k c link middle rest f in
    let sized : payload_size (get_or header 1 0 % 128) (with_segments c link middle)
        ≡ (with_segments c link left, success size) =
      rw (low_bits masking size) n in
    let masked = leb 128 (get_or header 1 0) in
    continue-then (recv_exact 2 (with_segments c link segments)) read_rest
      (with_segments c link middle) header g
    ∙ (continue-then (payload_size (get_or header 1 0 % 128) (with_segments c link middle))
          (behind_size header masked) (with_segments c link left) size sized
        ∙ behind_size-too_large header masked size c link left h)
