-- ===== src/WebSocket/Client.antt =====
-- The client's state, its reads and its writes (src/transport/websocket_client.cpp).
use zoal_atc.Common.{
  ℕ, zero, suc, ◌-◌, ◌*◌, Bool, true, false, [], ◌∷◌, ◌++◌, Option, none, some, Bytes, codes,
  length, take, drop, min,
}
use zoal_atc.Endpoint.{WebSocketEndpoint, Parsed, failure, success}
use zoal_atc.Gate.{ReconnectGate, fresh_gate}
use zoal_atc.WebSocket.Link.{
  Ending, closed, broken, Link, arrived, nothing, recv_socket, took, refused, send_socket,
}
use zoal_atc.WebSocket.Frame.{text_frame}

-- `socket_` is what it is connected to, with nothing for -1.
pub record Client : Type 0 where
  pub endpoint : WebSocketEndpoint
  pub socket : Option Link
  pub connected : Bool
  pub gate : ReconnectGate

abbrev pub new_client : WebSocketEndpoint → Client
new_client endpoint = record {
  endpoint = endpoint;
  socket = none;
  connected = false;
  gate = fresh_gate;
}

-- An operation gives a value or a failed status with its message; a status that succeeds is
-- `success tt`.
abbrev pub Action {ℓ} : Type ℓ → Type ℓ
Action A = Client → Client × Parsed A

abbrev pub pure {ℓ} : {A : Type ℓ} → A → Action A
pure a c = (c, success a)

-- What follows an operation, which an error ends.
abbrev pub continue {ℓ κ} :
    {A : Type ℓ} {B : Type κ} → Client × Parsed A → (A → Action B) → Client × Parsed B
continue (c, failure message) f = (c, failure message)
continue (c, success a) f = f a c

infixl 5 ◌>>=◌
abbrev pub ◌>>=◌ {ℓ κ} : {A : Type ℓ} {B : Type κ} → Action A → (A → Action B) → Action B
(m >>= f) c = continue (m c) f

abbrev pub Status : Type 0
Status = Parsed (Unit {0})

unfoldable pub close_locked : Client → Client
close_locked c = record c { socket = none; connected = false }

-- `close()` and a failed status.
unfoldable pub close_with {ℓ} : {A : Type ℓ} → Bytes → Action A
unfolding close_locked
close_with message c = (close_locked c, failure message)

abbrev pub read_error : Ending → Bytes
read_error closed = codes "websocket closed"
read_error (broken message) = message

-- The socket, if there is a connection.
abbrev pub open_link : Bool → Option Link → Option Link
open_link true socket = socket
open_link false socket = none

abbrev pub io_chunk : ℕ
io_chunk = 16 * 1024

-- The loop of `recv_exact` with `size` bytes still to come, behind those received.
unfoldable pub recv_loop : ℕ → ℕ → Bytes → Action Bytes
unfolding close_with
recv_loop fuel zero got c = (c, success got)
recv_loop zero (suc size) got c = (c, failure [])
recv_loop (suc fuel) (suc size) got c = elim (open_link c.connected c.socket) [
  | none ↦ (c, failure (codes "websocket not connected"))
  | some link ↦ elim (recv_socket (min (suc size) io_chunk) link.segments) [
    | nothing ↦ close_with (read_error link.ending) c
    | arrived bytes segments ↦
        recv_loop fuel (suc size - length bytes) (got ++ bytes)
          (record c { socket = some (record link { segments = segments }) })
  ]
]

-- Each round receives a byte at least.
unfoldable pub recv_exact : ℕ → Action Bytes
unfolding recv_loop
recv_exact size = recv_loop size size []

-- The loop of `send_all_locked`.
unfoldable pub send_loop : ℕ → Bytes → Link → Link × Status
send_loop fuel [] link = (link, success tt)
send_loop zero (b ∷ bytes) link = (link, failure [])
send_loop (suc fuel) (b ∷ bytes) link =
    elim (send_socket (min (length (b ∷ bytes)) io_chunk) link.writes) [
      | refused message writes ↦ (record link { writes = writes }, failure message)
      | took n writes ↦
          send_loop fuel (drop n (b ∷ bytes))
            (record link { writes = writes; sent = link.sent ++ take n (b ∷ bytes) })
    ]

-- `send` on no socket fails; `socket_` is set wherever this is called.
unfoldable pub send_all_locked : Bytes → Action (Unit {0})
unfolding send_loop
send_all_locked bytes c = elim c.socket [
  | none ↦ (c, failure [])
  | some link ↦
      let (next, status) = send_loop (length bytes) bytes link in
      (record c { socket = some next }, status)
]

-- A failed operation closes the connection.
abbrev pub closing {ℓ} : {A : Type ℓ} → Client × Parsed A → Client × Parsed A
closing (c, failure message) = close_with message c
closing (c, success a) = (c, success a)

-- The mask that is drawn is an argument.
unfoldable pub send_text_locked : Bytes → Bytes → Action (Unit {0})
unfolding text_frame send_all_locked
send_text_locked mask payload c = closing (send_all_locked (text_frame mask payload) c)
