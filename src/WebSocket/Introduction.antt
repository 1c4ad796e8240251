-- ===== src/WebSocket/Introduction.antt =====
-- A dial that succeeds (greet and try_all of the model, which are the loop over the addresses in
-- connect_locked of src/transport/websocket_client.cpp).
use mathlib.Core.Path.{subst}
use zoal_atc.Common.{
  ℕ, ◌≡◌, refl, sym, ap, ◌∙◌, inl, inr, true, List, [], ◌∷◌, ◌++◌, some, if◌then◌else◌, Bool-cases,
  arith, Bytes, codes, length, append_assoc, append-nil,
}
use zoal_atc.Endpoint.{WebSocketEndpoint, failure, success, is_nil}
use zoal_atc.WebSocket.Frame.{text_frame}
use zoal_atc.WebSocket.Link.{Link, flat}
use zoal_atc.WebSocket.Client.{
  Client, Action, Status, continue, ◌>>=◌, close_with, close_locked, closing, send_loop,
  send_all_locked, send_text_locked,
}
use zoal_atc.WebSocket.Dial.{
  Answer, Attempt, no_socket, refused, answers, handshake_request, send_handshake_locked,
  read_handshake_response_locked, response_loop, hello_frame, send_hello_locked, mark_connected,
  greet, settle_attempt, try_all, resolved, settle_dial, dial, connect_locked,
}
use zoal_atc.Gate.{ready}
use zoal_atc.WebSocket.States.{IsIdle, Same, On, Outcome, greet-Leaves}
use zoal_atc.WebSocket.Greeting.{
  Sends, send_loop-Sends, IsUpgrade, Responds, response_loop-Responds,
}

-- What the client says of itself once the upgrade is accepted: nothing if it has no identity.
abbrev pub introduction : WebSocketEndpoint → Bytes → Bytes
introduction endpoint mask =
    if is_nil endpoint.client_id then [] else text_frame mask (hello_frame endpoint)

-- Of a success: the connection is to that address, the bytes sent are `bytes`, and those taken off the
-- arriving ones are an accepted response.
abbrev pub Introduced : Link → Bytes → Client × Status → Type 0
Introduced link bytes (d, failure message) = Unit
Introduced link bytes (d, success u) =
    (next : Link) × (d.socket ≡ some next)
    × (next.sent ≡ link.sent ++ bytes)
    × ((response : Bytes) × (flat link.segments ≡ response ++ flat next.segments)
        × IsUpgrade response)

-- The same of what is sent alone.
abbrev Said : Link → Bytes → Client × Status → Type 0
Said link bytes (d, failure message) = Unit
Said link bytes (d, success u) =
    (next : Link) × (d.socket ≡ some next)
    × (next.sent ≡ link.sent ++ bytes)
    × (next.segments ≡ link.segments)

closing-Said :
    (c : Client) (link : Link) (bytes : Bytes) (r : Link × Status)
    → Sends bytes link r
    → Said link bytes
        (closing (let (next, status) = r in (record c { socket = some next }, status)))
unfolding close_with
closing-Said c link bytes (next, success u) (e, (f, g)) = (next, refl, e, f)
closing-Said c link bytes (next, failure message) h = tt

send_hello_locked-Said :
    (c : Client) (link : Link) (mask : Bytes)
    → Said link
        (introduction c.endpoint mask)
        (send_hello_locked mask (record c { socket = some link; connected = true }))
unfolding send_hello_locked send_text_locked send_all_locked
send_hello_locked-Said c link mask = elim (Bool-cases (is_nil c.endpoint.client_id)) [
  | inl e ↦ rw e (link, refl, sym (append-nil link.sent), refl)
  | inr e ↦
      let bytes = text_frame mask (hello_frame c.endpoint) in
      rw e (
        closing-Said (record c { connected = true }) link bytes
          (send_loop (length bytes) bytes link)
          (send_loop-Sends (length bytes) bytes link (omega arith)))
]

-- The introduction and what it follows.
Said-Introduced :
    (link middle : Link) (first second : Bytes) (r : Client × Status)
    → middle.sent ≡ link.sent ++ first
    → ((response : Bytes) × (flat link.segments ≡ response ++ flat middle.segments)
        × IsUpgrade response)
    → Said middle second r
    → Introduced link (first ++ second) r
Said-Introduced link middle first second (d, failure message) e up h = tt
Said-Introduced link middle first second (d, success u) e (response, f, up) (next, s, sent, same) =
    (
      next,
      s,
      sent ∙ (ap (λ (b : Bytes). b ++ second) e ∙ append_assoc link.sent first second),
      (response, f ∙ ap (λ (t : List (ℕ × Bytes)). response ++ flat t) (sym same), up),
    )

connect_hello : Bytes → Unit {0} → Action (Unit {0})
connect_hello mask _ = mark_connected >>= λ _. send_hello_locked mask

-- After the handshake has been sent.
respond-Introduced :
    (c : Client) (link middle : Link) (mask first : Bytes) (r : Link × Status)
    → middle.sent ≡ link.sent ++ first
    → middle.segments ≡ link.segments
    → Responds [] middle r
    → Introduced link (first ++ introduction c.endpoint mask) (
        continue
          (let (next, status) = r in (record c { socket = some next }, status))
          (connect_hello mask))
unfolding connect_hello
respond-Introduced c link middle mask first (next, failure message) e f h = tt
respond-Introduced c link middle mask first (next, success u) e f ((response, g, up), sent) =
    Said-Introduced link next first (introduction c.endpoint mask)
      (send_hello_locked mask (record c { socket = some next; connected = true })) (sent ∙ e)
      (response, ap flat (sym f) ∙ g, up) (send_hello_locked-Said c next mask)

await_response : Answer → Unit {0} → Action (Unit {0})
await_response answer _ =
    read_handshake_response_locked answer.reads answer.last_error >>= connect_hello answer.mask

handshake-Introduced :
    (c : Client) (answer : Answer) (first : Bytes) (r : Link × Status)
    → Sends first answer.link r
    → Introduced answer.link (first ++ introduction c.endpoint answer.mask) (
        continue
          (let (next, status) = r in (record c { socket = some next }, status))
          (await_response answer))
unfolding await_response read_handshake_response_locked
handshake-Introduced c answer first (middle, failure message) h = tt
handshake-Introduced c answer first (middle, success u) (e, (f, g)) =
    respond-Introduced c answer.link middle answer.mask first
      (response_loop answer.reads answer.last_error [] middle) e f
      (response_loop-Responds answer.reads answer.last_error [] middle)

-- The bytes that a client sends to an address before any other.
abbrev pub opening : WebSocketEndpoint → Answer → Bytes
opening endpoint answer = handshake_request endpoint answer.key ++ introduction endpoint answer.mask

greet-Introduced :
    (c : Client) (answer : Answer)
    → Introduced answer.link
        (opening c.endpoint answer)
        (greet answer (record c { socket = some answer.link }))
unfolding greet send_handshake_locked send_all_locked await_response connect_hello
greet-Introduced c answer =
    let request = handshake_request c.endpoint answer.key in
    handshake-Introduced c answer request (send_loop (length request) request answer.link)
      (send_loop-Sends (length request) request answer.link (omega arith))

-- One of the addresses has answered, and got the opening.
abbrev pub Reached : WebSocketEndpoint → List Attempt → Client × Status → Type 0
Reached endpoint attempts (d, failure message) = Unit
Reached endpoint attempts (d, success u) =
    (before : List Attempt) × (answer : Answer) × (behind : List Attempt) × (attempts
      ≡ before ++ answers answer ∷ behind)
    × Introduced answer.link (opening endpoint answer) (d, success u)

Reached-later :
    (endpoint : WebSocketEndpoint) (attempt : Attempt) (attempts : List Attempt)
    (r : Client × Status)
    → Reached endpoint attempts r
    → Reached endpoint (attempt ∷ attempts) r
Reached-later endpoint attempt attempts (d, failure message) h = tt
Reached-later endpoint attempt attempts (d, success u) (before, answer, behind, e, h) =
    (attempt ∷ before, answer, behind, ap (◌∷◌ attempt) e, h)

settle_attempt-Reached :
    (o : Client) (answer : Answer) (attempts : List Attempt) (r : Client × Status)
    → Outcome (On o true) (Same o) r
    → Introduced answer.link (opening o.endpoint answer) r
    → ((message : Bytes) (c : Client)
        → IsIdle c
        → c.endpoint ≡ o.endpoint
        → Reached o.endpoint attempts (try_all attempts message c))
    → Reached o.endpoint (answers answer ∷ attempts) (settle_attempt r (try_all attempts))
unfolding close_locked
settle_attempt-Reached o answer attempts (d, success u) p h k = ([], answer, attempts, refl, h)
settle_attempt-Reached o answer attempts (d, failure message) (g, e) h k =
    Reached-later o.endpoint (answers answer) attempts (try_all attempts message (close_locked d))
      (k message (close_locked d) (refl, refl) e)

try_all-Reached :
    (endpoint : WebSocketEndpoint) (attempts : List Attempt) (message : Bytes) (c : Client)
    → IsIdle c
    → c.endpoint ≡ endpoint
    → Reached endpoint attempts (try_all attempts message c)
unfolding try_all
try_all-Reached endpoint [] message c idle e = tt
try_all-Reached endpoint (no_socket m ∷ attempts) message c idle e =
    Reached-later endpoint (no_socket m) attempts (try_all attempts m c)
      (try_all-Reached endpoint attempts m c idle e)
try_all-Reached endpoint (refused m ∷ attempts) message c idle e =
    Reached-later endpoint (refused m) attempts (try_all attempts m c)
      (try_all-Reached endpoint attempts m c idle e)
try_all-Reached endpoint (answers answer ∷ attempts) message c (n, f) e =
    let opened : Client = record c { socket = some answer.link } in
    subst
      (λ (x : WebSocketEndpoint).
        Reached x (answers answer ∷ attempts)
          (settle_attempt (greet answer opened) (try_all attempts)))
      e
      (settle_attempt-Reached c answer attempts (greet answer opened)
        (greet-Leaves c answer opened ((answer.link, refl), f, (refl, refl)))
        (greet-Introduced c answer)
        (λ m d idle g.
          subst (λ (x : WebSocketEndpoint). Reached x attempts (try_all attempts m d)) (sym e)
            (try_all-Reached endpoint attempts m d idle (g ∙ e))))

settle_dial-Reached :
    (now_ms : ℕ) (endpoint : WebSocketEndpoint) (attempts : List Attempt) (r : Client × Status)
    → Reached endpoint attempts r
    → Reached endpoint attempts (settle_dial now_ms r)
settle_dial-Reached now_ms endpoint attempts (d, failure message) h = h
settle_dial-Reached now_ms endpoint attempts (d, success u) h = h

-- A call of `connect` that succeeds where there was no connection is connected to one of the
-- addresses that the name stands for. That address got the request for the upgrade and, if the
-- plugin has an identity, then the introduction, and nothing else; and what was taken off its
-- bytes is a response that begins with the status 101 and has the end of its header.
pub connect_locked-Reached :
    (now_ms : ℕ) (attempts : List Attempt) (c : Client)
    → IsIdle c
    → Reached c.endpoint attempts (connect_locked now_ms (resolved attempts) c)
unfolding connect_locked dial
connect_locked-Reached now_ms attempts c (n, f) = elim (Bool-cases (ready c.gate now_ms)) [
  | inl open_ ↦
      simp (f, open_)
        (settle_dial-Reached now_ms c.endpoint attempts
          (try_all attempts (codes "connect failed") c)
          (try_all-Reached c.endpoint attempts (codes "connect failed") c (n, f) refl))
  | inr shut ↦ simp (f, shut) tt
]
