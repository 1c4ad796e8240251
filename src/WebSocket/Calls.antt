-- ===== src/WebSocket/Calls.antt =====
-- Any calls of the client, one after another (src/transport/websocket_client.cpp).
use mathlib.Core.Path.{subst}
use zoal_atc.Common.{
  ℕ, suc, ◌≤◌, ◌≡◌, refl, sym, inl, inr, true, List, [], ◌∷◌, Option, none, some, arith, if_both,
  Bytes, length, text_eq,
}
use zoal_atc.Endpoint.{WebSocketEndpoint, Parsed, failure, success}
use zoal_atc.WebSocket.Link.{Link, flat}
use zoal_atc.WebSocket.Client.{
  Client, Status, new_client, continue, close_locked, close_with, send_text_locked,
}
use zoal_atc.WebSocket.Receive.{receive_loop, round_bound, max_inbound_frame_bytes}
use zoal_atc.WebSocket.Dial.{
  Resolution, connect_locked, reauthenticate, send_text, receive_connected, receive_text,
}
use zoal_atc.WebSocket.Exact.{with_segments}
use zoal_atc.WebSocket.Inbox.{Result, receive_loop-Result}
use zoal_atc.WebSocket.States.{
  IsIdle, IsLive, IsSound, Outcome, connect_locked-Outcome, send_text_locked-Outcome,
}

with_segments-same :
    (c : Client) (link : Link)
    → c.socket ≡ some link
    → c.connected ≡ true
    → with_segments c link link.segments ≡ c
with_segments-same c link e f =
    λ i. record { endpoint = c.endpoint; socket = sym e i; connected = sym f i; gate = c.gate }

-- A client that is connected, and a text that was received within the limit or a failure without a
-- connection.
abbrev pub Received : Client × Parsed Bytes → Type 0
Received (c, success text) = IsLive c × (length text ≤ max_inbound_frame_bytes)
Received (c, failure message) = IsIdle c

Result-Received :
    (c : Client) (link : Link) (segments : List (ℕ × Bytes)) (o : Option (Client × Parsed Bytes))
    → Result c link segments o
    → (r : Client × Parsed Bytes) × (o ≡ some r) × Received r
unfolding close_with close_locked
Result-Received c link segments o (r, e, inl (message, f)) = (r, e, rw f (refl, refl))
Result-Received c link segments o (r, e, inr (text, left, f, p, le)) =
    (r, e, rw f (((record link { segments = left }, refl), refl), p))

receive_loop-Received :
    (c : Client)
    → IsLive c
    → (r : Client × Parsed Bytes) × (receive_loop (round_bound c) c ≡ some r) × Received r
unfolding round_bound
receive_loop-Received c ((link, e), f) =
    Result-Received c link link.segments (receive_loop (round_bound c) c) (
      subst (λ (d : Client). Result c link link.segments (receive_loop (round_bound d) d))
        (with_segments-same c link e f)
        (receive_loop-Result c link (suc (length (flat link.segments))) link.segments
          (omega arith)))

-- `receive_text` of a client whose connection and socket agree comes to an end: with a text of at
-- most a mebibyte on a connection that stays, or with an error and no connection.
pub receive_text-Received :
    (now_ms : ℕ) (resolution : Resolution) (c : Client)
    → IsSound c
    → (r : Client × Parsed Bytes) × (receive_text now_ms resolution c ≡ some r) × Received r
unfolding receive_text
receive_text-Received now_ms resolution c sound =
    connected (connect_locked now_ms resolution c)
      (connect_locked-Outcome now_ms resolution c sound)
  where
    connected :
        (r : Client × Status)
        → Outcome IsLive IsIdle r
        → (t : Client × Parsed Bytes) × (receive_connected r ≡ some t) × Received t
    connected (d, success u) live = receive_loop-Received d live
    connected (d, failure message) idle = ((d, failure message), refl, idle)

close_locked-IsIdle : (c : Client) → IsIdle (close_locked c)
unfolding close_locked
close_locked-IsIdle c = (refl, refl)

reauthenticate-IsSound : (token : Bytes) (c : Client) → IsSound c → IsSound (reauthenticate token c)
unfolding reauthenticate close_locked
reauthenticate-IsSound token c sound =
    if_both IsSound (text_eq c.endpoint.auth_token token) sound (inl (refl, refl))

send_text-Outcome :
    (now_ms : ℕ) (resolution : Resolution) (mask payload : Bytes) (c : Client)
    → IsSound c
    → Outcome IsLive IsIdle (send_text now_ms resolution mask payload c)
unfolding send_text
send_text-Outcome now_ms resolution mask payload c sound =
    connected (connect_locked now_ms resolution c)
      (connect_locked-Outcome now_ms resolution c sound)
  where
    connected :
        (r : Client × Status)
        → Outcome IsLive IsIdle r
        → Outcome IsLive IsIdle (continue r (λ _. send_text_locked mask payload))
    connected (d, success u) live = send_text_locked-Outcome mask payload d live
    connected (d, failure message) idle = idle

-- The calls of the client, with what the clock, the network and the draws answer.
pub data Call : Type 0 where
  connects receives : ℕ → Resolution → Call
  sends : ℕ → Resolution → Bytes → Bytes → Call
  closes : Call
  reauthenticates : Bytes → Call

-- The client behind a result, which is there whenever a client is sound.
abbrev pub client_of : Client → Option (Client × Parsed Bytes) → Client
client_of c none = c
client_of c (some r) = r.0

unfoldable pub step : Client → Call → Client
unfolding connect_locked send_text receive_text close_locked reauthenticate
step c (connects now_ms resolution) = (connect_locked now_ms resolution c).0
step c (receives now_ms resolution) = client_of c (receive_text now_ms resolution c)
step c (sends now_ms resolution mask payload) = (send_text now_ms resolution mask payload c).0
step c closes = close_locked c
step c (reauthenticates token) = reauthenticate token c

unfoldable pub run : Client → List Call → Client
unfolding step
run c [] = c
run c (call ∷ calls) = run (step c call) calls

Outcome-IsSound {ℓ} : {A : Type ℓ} (r : Client × Parsed A) → Outcome IsLive IsIdle r → IsSound r.0
Outcome-IsSound (d, success a) h = inr h
Outcome-IsSound (d, failure message) h = inl h

Received-IsSound : (r : Client × Parsed Bytes) → Received r → IsSound r.0
Received-IsSound (d, success text) h = inr h.0
Received-IsSound (d, failure message) h = inl h

step-IsSound : (c : Client) (call : Call) → IsSound c → IsSound (step c call)
unfolding step
step-IsSound c (connects now_ms resolution) h =
    Outcome-IsSound (connect_locked now_ms resolution c)
      (connect_locked-Outcome now_ms resolution c h)
step-IsSound c (receives now_ms resolution) h =
    let (r, e, received) = receive_text-Received now_ms resolution c h in
    rw e (Received-IsSound r received)
step-IsSound c (sends now_ms resolution mask payload) h =
    Outcome-IsSound (send_text now_ms resolution mask payload c)
      (send_text-Outcome now_ms resolution mask payload c h)
step-IsSound c closes h = inl (close_locked-IsIdle c)
step-IsSound c (reauthenticates token) h = reauthenticate-IsSound token c h

run-IsSound : (c : Client) (calls : List Call) → IsSound c → IsSound (run c calls)
unfolding run
run-IsSound c [] h = h
run-IsSound c (call ∷ calls) h = run-IsSound (step c call) calls (step-IsSound c call h)

-- Whatever is called and whatever the network answers, a client that began without a socket either
-- has a socket and counts as connected, or has none and does not.
pub run-new_client-IsSound :
    (endpoint : WebSocketEndpoint) (calls : List Call) → IsSound (run (new_client endpoint) calls)
run-new_client-IsSound endpoint calls = run-IsSound (new_client endpoint) calls (inl (refl, refl))
