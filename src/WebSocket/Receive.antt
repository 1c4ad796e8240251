-- ===== src/WebSocket/Receive.antt =====
-- receive_text of src/transport/websocket_client.cpp. A test of a bit of a header's byte is a
-- comparison or a remainder.
use zoal_atc.Common.{
  ℕ, zero, suc, ◌*◌, ◌%◌, Bool, [], Option, none, some, leb, ltb, ◌==◌, if◌then◌else◌, Bytes, codes,
  length, get_or,
}
use zoal_atc.Endpoint.{Parsed, failure, success}
use zoal_atc.WebSocket.Frame.{read_u16, read_u64, mask_from}
use zoal_atc.WebSocket.Link.{flat}
use zoal_atc.WebSocket.Client.{Client, Action, pure, ◌>>=◌, close_with, recv_exact}

pub record InboundFrame : Type 0 where
  pub final_frame : Bool
  pub opcode : ℕ
  pub payload : Bytes

abbrev pub max_inbound_frame_bytes : ℕ
max_inbound_frame_bytes = 1024 * 1024

-- `header[1] & 0x7F`, or what the longer forms say.
unfoldable pub payload_size : ℕ → Action ℕ
payload_size size =
    if size == 126
    then (do extended ← recv_exact 2; pure (read_u16 extended))
    else if size == 127
    then (do extended ← recv_exact 8; pure (read_u64 extended))
    else pure size

unfoldable pub check_size : ℕ → Action (Unit {0})
check_size size =
    if ltb max_inbound_frame_bytes size
    then close_with (codes "websocket frame too large")
    else pure tt

unfoldable pub frame_mask : Bool → Action Bytes
frame_mask masked = if masked then recv_exact 4 else pure []

abbrev pub unmasked : Bool → Bytes → Bytes → Bytes
unmasked masked mask bytes = if masked then mask_from mask 0 bytes else bytes

-- (`recv_exact` of no bytes does nothing.)
unfoldable pub read_payload : Bool → ℕ → Action Bytes
unfolding frame_mask
read_payload masked size = do
  mask ← frame_mask masked
  bytes ← recv_exact size
  pure (unmasked masked mask bytes)

abbrev pub inbound_frame : Bytes → Bytes → InboundFrame
inbound_frame header payload = record {
  final_frame = leb 128 (get_or header 0 0);
  opcode = get_or header 0 0 % 16;
  payload = payload;
}

-- What follows the two bytes of the header.
unfoldable pub read_rest : Bytes → Action InboundFrame
unfolding payload_size check_size read_payload
read_rest header = do
  size ← payload_size (get_or header 1 0 % 128)
  _ ← check_size size
  payload ← read_payload (leb 128 (get_or header 1 0)) size
  pure (inbound_frame header payload)

unfoldable pub read_frame : Action InboundFrame
unfolding read_rest
read_frame = recv_exact 2 >>= read_rest

-- A round of the loop, which goes on by `next` behind a frame that is neither text nor a close. Out of
-- fuel there is no result.
unfoldable pub dispatch :
    (Client → Option (Client × Parsed Bytes))
    → Client × Parsed InboundFrame
    → Option (Client × Parsed Bytes)
dispatch next (c, failure message) = some (c, failure message)
dispatch next (c, success frame) =
    let more = next c in
    if frame.opcode == 8
    then some (close_with (codes "websocket closed") c)
    else if frame.opcode == 1
    then if frame.final_frame
      then some (c, success frame.payload)
      else some (close_with (codes "fragmented websocket text frames are unsupported") c)
    else more

unfoldable pub receive_loop : ℕ → Client → Option (Client × Parsed Bytes)
unfolding dispatch read_frame
receive_loop zero c = none
receive_loop (suc fuel) c = dispatch (receive_loop fuel) (read_frame c)

-- How many bytes can still arrive, and so more rounds than there can be.
unfoldable pub round_bound : Client → ℕ
round_bound c = elim c.socket [ none ↦ 1 | some link ↦ suc (length (flat link.segments)) ]
