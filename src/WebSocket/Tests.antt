-- ===== src/WebSocket/Tests.antt =====
-- The WebSocket client (src/transport/websocket_client.cpp) at concrete inputs.
use zoal_atc.Common.{
  ℕ, ◌≡◌, refl, ◌+◌, ◌*◌, ◌≤◌, inl, true, List, [], ◌∷◌, ◌++◌, none, some, arith, Bytes, codes,
}
use zoal_atc.Endpoint.{WebSocketEndpoint, Parsed, success}
use zoal_atc.Base64.{base64_encode, letter}
use zoal_atc.Common.{to_decimal}
use zoal_atc.Endpoint.{host_header}
use zoal_atc.Gate.{initial_delay_ms}
use zoal_atc.Gate.Pacing.{last_dial}
use zoal_atc.WebSocket.Frame.{append_u64, mask_from, size_bytes, text_frame}
use zoal_atc.WebSocket.Link.{Link, closed, flat}
use zoal_atc.WebSocket.Client.{Client, new_client, close_with}
use zoal_atc.WebSocket.Receive.{receive_loop}
use zoal_atc.Gate.{ready, note_failure, next_delay}
use zoal_atc.WebSocket.Dial.{
  handshake_request, Answer, Attempt, answers, refused, Resolution, resolved, unresolved, dial,
  connect_locked, receive_text,
}
use zoal_atc.WebSocket.States.{IsSound, Connects, connect_locked-Connects}
use zoal_atc.WebSocket.Introduction.{Reached, connect_locked-Reached}
use zoal_atc.WebSocket.Pacing.{Away, dial_times, dial_times_span}
use zoal_atc.WebSocket.Calls.{
  Received, receive_text-Received, connects, closes, reauthenticates, run, run-new_client-IsSound,
}
use zoal_atc.WebSocket.Exact.{with_segments}
use zoal_atc.WebSocket.Wires.{Wire}
use zoal_atc.WebSocket.Inbox.{
  verdict, receive_loop-verdict, receive_loop-text_frame, receive_loop-too_large,
}

abbrev console : WebSocketEndpoint
console = record {
  host = codes "atc.local";
  port = 80;
  path = codes "/plugin";
  auth_token = codes "key";
  client_id = codes "plane";
  simbrief_id = [];
  capabilities = codes "gui" ∷ codes "stt" ∷ [];
}

abbrev silent : Link
silent = record { segments = []; ending = closed; writes = []; sent = [] }

abbrev ping : Wire
ping = record { final = true; opcode = 9; masking = none; payload = [] }

abbrev greeting : Wire
greeting = record { final = true; opcode = 1; masking = none; payload = codes "hi" }

-- A ping and a text in two segments that cut through both frames.
abbrev two_frames : List (ℕ × Bytes)
two_frames = (137, []) ∷ (0, 129 ∷ 2 ∷ b'h' ∷ []) ∷ (b'i', 129 ∷ []) ∷ []

receive_loop-verdict_example :
    (left : List (ℕ × Bytes)) × (flat left ≡ 129 ∷ [])
    × (receive_loop 2 (with_segments (new_client console) silent two_frames)
        ≡ some (verdict greeting (with_segments (new_client console) silent left)))
receive_loop-verdict_example =
    receive_loop-verdict (new_client console) silent (ping ∷ []) greeting (129 ∷ []) 2 two_frames
      (
        record {
          wire = record { opcode = omega arith; masking = tt; fits = omega arith };
          no_text = λ e. omega arith;
          no_close = λ e. omega arith;
        },
        tt,
      )
      (record { opcode = omega arith; masking = tt; fits = omega arith }) (inl refl) (omega arith)
      refl

abbrev key_mask : Bytes
key_mask = 1 ∷ 2 ∷ 3 ∷ 4 ∷ []

abbrev one_frame : List (ℕ × Bytes)
one_frame = (129, 130 ∷ 1 ∷ 2 ∷ []) ∷ (3, 4 ∷ 105 ∷ 107 ∷ 7 ∷ []) ∷ []

one_frame_bytes : flat one_frame ≡ text_frame key_mask (codes "hi") ++ 7 ∷ []
unfolding text_frame mask_from size_bytes
one_frame_bytes = refl

receive_loop-text_frame_example :
    (left : List (ℕ × Bytes)) × (flat left ≡ 7 ∷ [])
    × (receive_loop 1 (with_segments (new_client console) silent one_frame)
        ≡ some (with_segments (new_client console) silent left, success (codes "hi")))
receive_loop-text_frame_example =
    receive_loop-text_frame (new_client console) silent key_mask (codes "hi") (7 ∷ []) 0 one_frame
      (omega arith) (omega arith) one_frame_bytes

abbrev huge_frame : List (ℕ × Bytes)
huge_frame = (130, 127 ∷ 0 ∷ 0 ∷ []) ∷ (0, 0 ∷ 0 ∷ 16 ∷ 0 ∷ 1 ∷ []) ∷ []

huge_frame_bytes : flat huge_frame ≡ 130 ∷ 127 ∷ (append_u64 1048577 ++ [])
unfolding append_u64
huge_frame_bytes = refl

receive_loop-too_large_example :
    receive_loop 1 (with_segments (new_client console) silent huge_frame)
    ≡ some (close_with (codes "websocket frame too large") (new_client console))
receive_loop-too_large_example =
    receive_loop-too_large (new_client console) silent 130 none 1048577 [] 0 huge_frame
      (omega arith) (omega arith) huge_frame_bytes

-- The response and the first byte of a frame, in one segment.
abbrev upgrade : Answer
upgrade = record {
  link = record {
    segments =
        (b'H', codes "TTP/1.1 101 Switching Protocols\r\n\r\n") ∷ (129, 2 ∷ b'h' ∷ b'i' ∷ []) ∷ [];
    ending = closed;
    writes = [];
    sent = [];
  };
  key = 0 ∷ 1 ∷ 2 ∷ 3 ∷ 4 ∷ 5 ∷ 6 ∷ 7 ∷ 8 ∷ 9 ∷ 10 ∷ 11 ∷ 12 ∷ 13 ∷ 14 ∷ 15 ∷ [];
  mask = key_mask;
  reads = 4;
  last_error = [];
}

abbrev addresses : List Attempt
addresses = refused (codes "Connection refused") ∷ answers upgrade ∷ []

receive_text-Received_example :
    (r : Client × Parsed Bytes) × (receive_text 0 (resolved addresses) (new_client console)
      ≡ some r)
    × Received r
receive_text-Received_example =
    receive_text-Received 0 (resolved addresses) (new_client console) (inl (refl, refl))

connect_locked-Connects_example :
    Connects 7
      (new_client console)
      (connect_locked 7 (unresolved (codes "no such host")) (new_client console))
connect_locked-Connects_example =
    connect_locked-Connects 7 (unresolved (codes "no such host")) (new_client console)
      (inl (refl, refl))

connect_locked-Reached_example :
    Reached console addresses (connect_locked 0 (resolved addresses) (new_client console))
connect_locked-Reached_example =
    connect_locked-Reached 0 addresses (new_client console) (refl, refl)

run-new_client-IsSound_example :
    IsSound (
      run (new_client console) (connects 0 (resolved addresses) ∷ closes ∷ reauthenticates [] ∷ []))
run-new_client-IsSound_example =
    run-new_client-IsSound console
      (connects 0 (resolved addresses) ∷ closes ∷ reauthenticates [] ∷ [])

-- The console is away, and `connect` is called three times in six seconds.
abbrev three_calls : List (ℕ × Resolution)
three_calls = (0, unresolved []) ∷ (1000, unresolved []) ∷ (6000, unresolved []) ∷ []

three_calls-Away : Away (new_client console) three_calls
unfolding connect_locked dial note_failure next_delay ready
three_calls-Away = ((_, refl), omega arith, ((_, refl), omega arith, ((_, refl), omega arith, tt)))

three_calls_dials : dial_times (new_client console) three_calls ≡ 0 ∷ 6000 ∷ []
unfolding connect_locked dial note_failure next_delay ready
three_calls_dials = refl

dial_times_span_example : 0 + initial_delay_ms * 1 ≤ last_dial 0 (6000 ∷ [])
dial_times_span_example =
    dial_times_span console three_calls 0 (6000 ∷ []) three_calls-Away three_calls_dials

-- The request for the upgrade, with the key in base64 and the token.
handshake_request-console :
    handshake_request console (codes "Hello")
    ≡ codes
        "GET /plugin HTTP/1.1\r\nHost: atc.local\r\nUpgrade: websocket\r\nConnection: Upgrade\r\nSec-WebSocket-Key: SGVsbG8=\r\nSec-WebSocket-Version: 13\r\nAuthorization: Bearer key\r\n\r\n"
unfolding handshake_request host_header base64_encode letter to_decimal
handshake_request-console = refl
