-- ===== src/WebSocket/Dial.antt =====
-- connect_locked and what it calls, and the operations that a caller sees
-- (src/transport/websocket_client.cpp). The answers of the name service and of the system's `connect`
-- within its five seconds are arguments, as are the clock and the numbers that are drawn.
use zoal_atc.Common.{
  ℕ, zero, suc, ◌/◌, Bool, true, not, ◌||◌, List, [], ◌∷◌, ◌++◌, Option, none, some, ltb,
  if◌then◌else◌, Bytes, codes, text_eq, length, to_decimal,
}
use zoal_atc.Base64.{base64_encode}
use zoal_atc.Endpoint.{
  WebSocketEndpoint, Parsed, failure, success, is_nil, starts_with, host_header,
}
use zoal_atc.Gate.{ReconnectGate, ready, note_failure, note_success, reset}
use zoal_atc.WebSocket.Link.{Ending, closed, broken, Link, arrived, nothing, recv_socket}
use zoal_atc.WebSocket.Client.{
  Client, Action, ◌>>=◌, Status, close_locked, send_all_locked, send_text_locked,
}
use zoal_atc.WebSocket.Receive.{receive_loop, round_bound}

-- An address that answers: its link, the sixteen bytes of the key and the mask that are drawn, how
-- many reads the three seconds of the handshake leave room for, and the message of the last error,
-- which the source reports when the peer closes.
pub record Answer : Type 0 where
  pub link : Link
  pub key : Bytes
  pub mask : Bytes
  pub reads : ℕ
  pub last_error : Bytes

pub data Attempt : Type 0 where
  no_socket refused : Bytes → Attempt
  answers : Answer → Attempt

pub data Resolution : Type 0 where
  unresolved : Bytes → Resolution
  resolved : List Attempt → Resolution

abbrev pub authorization : Bytes → Bytes
authorization token =
    if is_nil token then [] else codes "Authorization: Bearer " ++ (token ++ codes "\r\n")

unfoldable pub handshake_request : WebSocketEndpoint → Bytes → Bytes
handshake_request endpoint key =
    codes "GET "
    ++ (endpoint.path
        ++ (codes " HTTP/1.1\r\nHost: "
            ++ (host_header endpoint
                ++ (codes "\r\nUpgrade: websocket\r\nConnection: Upgrade\r\nSec-WebSocket-Key: "
                    ++ (base64_encode key
                        ++ (codes "\r\nSec-WebSocket-Version: 13\r\n"
                            ++ (authorization endpoint.auth_token ++ codes "\r\n")))))))

unfoldable pub send_handshake_locked : Bytes → Action (Unit {0})
unfolding handshake_request
send_handshake_locked key c = send_all_locked (handshake_request c.endpoint key) c

-- `find` of a text.
abbrev pub contains : Bytes → Bytes → Bool
contains wanted [] = starts_with wanted []
contains wanted (b ∷ text) =
    let later = contains wanted text in if starts_with wanted (b ∷ text) then true else later

abbrev pub header_end : Bytes
header_end = codes "\r\n\r\n"

-- What the whole response says.
unfoldable pub upgrade_status : Bytes → Status
upgrade_status response =
    if starts_with (codes "HTTP/1.1 101") response || starts_with (codes "HTTP/1.0 101") response
    then success tt
    else failure (codes "websocket upgrade rejected")

abbrev pub response_error : Bytes → Ending → Bytes
response_error last_error closed = last_error
response_error last_error (broken message) = message

-- The loop over the reads of the response, which keeps what is left of the arriving bytes.
unfoldable pub response_loop : ℕ → Bytes → Bytes → Link → Link × Status
unfolding upgrade_status
response_loop zero last_error response link =
    if contains header_end response
    then (link, upgrade_status response)
    else (link, failure (codes "websocket handshake timed out"))
response_loop (suc reads) last_error response link =
    let more : Link × Status = elim (recv_socket 512 link.segments) [
      | nothing ↦ (link, failure (response_error last_error link.ending))
      | arrived bytes segments ↦
          let next = record link { segments = segments } in
          let rest = response_loop reads last_error (response ++ bytes) next in
          if ltb 8192 (length (response ++ bytes))
          then (next, failure (codes "websocket handshake response too large"))
          else rest
    ] in
    if contains header_end response then (link, upgrade_status response) else more

unfoldable pub read_handshake_response_locked : ℕ → Bytes → Action (Unit {0})
unfolding response_loop
read_handshake_response_locked reads last_error c = elim c.socket [
  | none ↦ (c, failure last_error)
  | some link ↦
      let (next, status) = response_loop reads last_error [] link in
      (record c { socket = some next }, status)
]

abbrev pub quoted_list : List Bytes → Bytes
quoted_list [] = []
quoted_list (text ∷ texts) = codes ",\"" ++ (text ++ (codes "\"" ++ quoted_list texts))

abbrev pub hello_simbrief : Bytes → Bytes
hello_simbrief id = if is_nil id then [] else codes ",\"simbrief_id\":\"" ++ (id ++ codes "\"")

abbrev pub hello_capabilities : List Bytes → Bytes
hello_capabilities [] = []
hello_capabilities (text ∷ texts) =
    codes ",\"capabilities\":[\"" ++ (text ++ (codes "\"" ++ (quoted_list texts ++ codes "]")))

unfoldable pub hello_frame : WebSocketEndpoint → Bytes
hello_frame endpoint =
    codes "{\"type\":\"hello\",\"protocol\":2,\"client_id\":\""
    ++ (endpoint.client_id
        ++ (codes "\""
            ++ (hello_simbrief endpoint.simbrief_id
                ++ (hello_capabilities endpoint.capabilities ++ codes "}"))))

unfoldable pub send_hello_locked : Bytes → Action (Unit {0})
unfolding hello_frame send_text_locked
send_hello_locked mask c =
    if is_nil c.endpoint.client_id
    then (c, success tt)
    else send_text_locked mask (hello_frame c.endpoint) c

abbrev pub mark_connected : Action (Unit {0})
mark_connected c = (record c { connected = true }, success tt)

-- The handshake and the introduction on a socket that is new.
unfoldable pub greet : Answer → Action (Unit {0})
unfolding send_handshake_locked read_handshake_response_locked send_hello_locked
greet answer = do
  _ ← send_handshake_locked answer.key
  _ ← read_handshake_response_locked answer.reads answer.last_error
  _ ← mark_connected
  send_hello_locked answer.mask

-- An address that fails is closed, and its message is kept while the next one is tried.
abbrev pub settle_attempt : Client × Status → (Bytes → Client → Client × Status) → Client × Status
settle_attempt (c, success _) next = (c, success tt)
settle_attempt (c, failure message) next = next message (close_locked c)

unfoldable pub try_all : List Attempt → Bytes → Action (Unit {0})
unfolding greet close_locked
try_all [] message c = (c, failure message)
try_all (no_socket message ∷ attempts) before c = try_all attempts message c
try_all (refused message ∷ attempts) before c = try_all attempts message c
try_all (answers answer ∷ attempts) before c =
    settle_attempt (greet answer (record c { socket = some answer.link })) (try_all attempts)

-- How a dial moves the gate.
abbrev pub settle_dial : ℕ → Client × Status → Client × Status
settle_dial now_ms (c, success _) = (record c { gate = note_success c.gate }, success tt)
settle_dial now_ms (c, failure message) =
    (record c { gate = note_failure c.gate now_ms }, failure message)

unfoldable pub dial : ℕ → Resolution → Action (Unit {0})
unfolding try_all
dial now_ms (unresolved message) c =
    settle_dial now_ms
      (c, failure (codes "resolve " ++ (c.endpoint.host ++ (codes ": " ++ message))))
dial now_ms (resolved attempts) c = settle_dial now_ms (try_all attempts (codes "connect failed") c)

abbrev pub waiting : ReconnectGate → Bytes
waiting gate =
    codes "console not reachable; retrying every "
    ++ (to_decimal (gate.delay_ms / 1000) ++ codes "s")

unfoldable pub connect_locked : ℕ → Resolution → Action (Unit {0})
unfolding dial
connect_locked now_ms resolution c =
    if c.connected
    then (c, success tt)
    else if not (ready c.gate now_ms)
    then (c, failure (waiting c.gate))
    else dial now_ms resolution c

unfoldable pub reauthenticate : Bytes → Client → Client
unfolding close_locked
reauthenticate token c =
    if text_eq c.endpoint.auth_token token
    then c
    else close_locked
        (record c { endpoint = record c.endpoint { auth_token = token }; gate = reset c.gate })

unfoldable pub send_text : ℕ → Resolution → Bytes → Bytes → Action (Unit {0})
unfolding connect_locked send_text_locked
send_text now_ms resolution mask payload = do
  _ ← connect_locked now_ms resolution
  send_text_locked mask payload

-- What follows the connecting, with fuel for all that can arrive.
abbrev pub receive_connected : Client × Status → Option (Client × Parsed Bytes)
receive_connected (c, failure message) = some (c, failure message)
receive_connected (c, success _) = receive_loop (round_bound c) c

unfoldable pub receive_text : ℕ → Resolution → Client → Option (Client × Parsed Bytes)
unfolding connect_locked receive_loop round_bound
receive_text now_ms resolution c = receive_connected (connect_locked now_ms resolution c)
