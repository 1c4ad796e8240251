-- ===== src/WebSocket/States.antt =====
-- The state that the client's operations leave (src/transport/websocket_client.cpp).
use zoal_atc.Common.{
  ◌≡◌, refl, ap, ◌⊎◌, inl, inr, Bool, true, false, List, [], ◌∷◌, ℕ, none, some, Bool-cases,
  Option-cases, if_both, Bytes, codes, length,
}
use zoal_atc.Endpoint.{Parsed, failure, success, is_nil}
use zoal_atc.Gate.{ReconnectGate, ready, note_failure, note_success}
use zoal_atc.WebSocket.Frame.{text_frame}
use zoal_atc.WebSocket.Link.{Link}
use zoal_atc.WebSocket.Client.{
  Client, Action, Status, ◌>>=◌, continue, close_locked, close_with, send_loop, send_all_locked,
  closing, send_text_locked,
}
use zoal_atc.WebSocket.Dial.{
  Answer, Attempt, no_socket, refused, answers, Resolution, resolved, unresolved, handshake_request,
  send_handshake_locked, response_loop, read_handshake_response_locked, hello_frame,
  send_hello_locked, mark_connected, greet, settle_attempt, try_all, settle_dial, dial, waiting,
  connect_locked,
}

-- Not connected, and connected.
abbrev pub IsIdle : Client → Type 0
IsIdle c = (c.socket ≡ none) × (c.connected ≡ false)

abbrev pub IsLive : Client → Type 0
IsLive c = ((link : Link) × (c.socket ≡ some link)) × (c.connected ≡ true)

-- What an operation's outcome says, of the client that a success and a failure leave.
abbrev pub Outcome {ℓ} :
    {A : Type ℓ} → (Client → Type 0) → (Client → Type 0) → Client × Parsed A → Type 0
Outcome P Q (c, success a) = P c
Outcome P Q (c, failure message) = Q c

abbrev pub Leaves {ℓ} :
    {A : Type ℓ} → (Client → Type 0) → (Client → Type 0) → (Client → Type 0) → Action A → Type 0
Leaves P Q R m = (c : Client) → P c → Outcome Q R (m c)

continue-Outcome {ℓ κ} :
    {A : Type ℓ} {B : Type κ} (P Q R : Client → Type 0) (r : Client × Parsed A) (f : A → Action B)
    → Outcome P R r
    → ((a : A) → Leaves P Q R (f a))
    → Outcome Q R (continue r f)
continue-Outcome P Q R (c, success a) f h k = k a c h
continue-Outcome P Q R (c, failure message) f h k = h

bind-Leaves {ℓ κ} :
    {A : Type ℓ} {B : Type κ} (P M Q R : Client → Type 0) (m : Action A) (f : A → Action B)
    → Leaves P M R m
    → ((a : A) → Leaves M Q R (f a))
    → Leaves P Q R (m >>= f)
bind-Leaves P M Q R m f h k c p = continue-Outcome M Q R (m c) f (h c p) k

-- The gate and the endpoint, which only the end of a dial and a new token change.
abbrev pub Same : Client → Client → Type 0
Same c d = (d.gate ≡ c.gate) × (d.endpoint ≡ c.endpoint)

-- On a socket, with the rest as in `o`.
abbrev pub On : Client → Bool → Client → Type 0
On o b c = ((link : Link) × (c.socket ≡ some link)) × (c.connected ≡ b) × Same o c

-- A pair of a link and a status, put into the client.
put_link :
    (o : Client) (b : Bool) (c : Client) (r : Link × Status)
    → On o b c
    → Outcome
        (On o b)
        (Same o)
        (let (next, status) = r in (record c { socket = some next }, status))
put_link o b c (next, success u) (s, e, (g, h)) = ((next, refl), e, (g, h))
put_link o b c (next, failure message) (s, e, (g, h)) = (g, h)

send_all_locked-Leaves :
    (o : Client) (b : Bool) (bytes : Bytes)
    → Leaves (On o b) (On o b) (Same o) (send_all_locked bytes)
unfolding send_all_locked
send_all_locked-Leaves o b bytes c p = elim (Option-cases c.socket) [
  | inl n ↦ let ((link, e), live, same) = p in absurd cc
  | inr (link, e) ↦ rw (e, send_all_locked) (put_link o b c (send_loop (length bytes) bytes link) p)
]

response-Leaves :
    (o : Client) (b : Bool) (reads : ℕ) (last : Bytes)
    → Leaves (On o b) (On o b) (Same o) (read_handshake_response_locked reads last)
unfolding read_handshake_response_locked
response-Leaves o b reads last c p = elim (Option-cases c.socket) [
  | inl n ↦ let ((link, e), live, same) = p in absurd cc
  | inr (link, e) ↦
      rw (e, read_handshake_response_locked) (put_link o b c (response_loop reads last [] link) p)
]

closing-Outcome :
    (o : Client) (b : Bool) (r : Client × Status)
    → Outcome (On o b) (Same o) r
    → Outcome (On o b) (Same o) (closing r)
unfolding close_with close_locked
closing-Outcome o b (c, success u) h = h
closing-Outcome o b (c, failure message) h = h

send_text_locked-Leaves :
    (o : Client) (b : Bool) (mask payload : Bytes)
    → Leaves (On o b) (On o b) (Same o) (send_text_locked mask payload)
unfolding send_text_locked
send_text_locked-Leaves o b mask payload c p =
    closing-Outcome o b (send_all_locked (text_frame mask payload) c)
      (send_all_locked-Leaves o b (text_frame mask payload) c p)

send_hello_locked-Leaves :
    (o : Client) (b : Bool) (mask : Bytes)
    → Leaves (On o b) (On o b) (Same o) (send_hello_locked mask)
unfolding send_hello_locked
send_hello_locked-Leaves o b mask c p =
    if_both (Outcome (On o b) (Same o)) (is_nil c.endpoint.client_id) p
      (send_text_locked-Leaves o b mask (hello_frame c.endpoint) c p)

mark_connected-Leaves : (o : Client) → Leaves (On o false) (On o true) (Same o) mark_connected
mark_connected-Leaves o c (s, e, same) = (s, refl, same)

pub greet-Leaves :
    (o : Client) (answer : Answer) → Leaves (On o false) (On o true) (Same o) (greet answer)
unfolding greet send_handshake_locked
greet-Leaves o answer =
    bind-Leaves (On o false) (On o false) (On o true) (Same o) (send_handshake_locked answer.key)
      respond (λ c p. send_all_locked-Leaves o false (handshake_request c.endpoint answer.key) c p)
      (λ _.
        bind-Leaves (On o false) (On o false) (On o true) (Same o)
          (read_handshake_response_locked answer.reads answer.last_error) connect
          (response-Leaves o false answer.reads answer.last_error)
          (λ _.
            bind-Leaves (On o false) (On o true) (On o true) (Same o) mark_connected
              (λ _. send_hello_locked answer.mask) (mark_connected-Leaves o)
              (λ _. send_hello_locked-Leaves o true answer.mask)))
  where
    connect : Unit {0} → Action (Unit {0})
    connect _ = mark_connected >>= λ _. send_hello_locked answer.mask

    respond : Unit {0} → Action (Unit {0})
    respond _ = read_handshake_response_locked answer.reads answer.last_error >>= connect

-- Idle, with the rest as in `o`.
abbrev pub Off : Client → Client → Type 0
Off o c = IsIdle c × Same o c

settle_attempt-Outcome :
    (o : Client) (r : Client × Status) (next : Bytes → Client → Client × Status)
    → Outcome (On o true) (Same o) r
    → ((message : Bytes) → Leaves (Off o) (On o true) (Off o) (next message))
    → Outcome (On o true) (Off o) (settle_attempt r next)
unfolding close_locked
settle_attempt-Outcome o (c, success u) next h k = h
settle_attempt-Outcome o (c, failure message) next h k =
    k message (close_locked c) ((refl, refl), h)

try_all-Leaves :
    (o : Client) (attempts : List Attempt) (message : Bytes)
    → Leaves (Off o) (On o true) (Off o) (try_all attempts message)
unfolding try_all
try_all-Leaves o [] message c p = p
try_all-Leaves o (no_socket m ∷ attempts) message c p = try_all-Leaves o attempts m c p
try_all-Leaves o (refused m ∷ attempts) message c p = try_all-Leaves o attempts m c p
try_all-Leaves o (answers answer ∷ attempts) message c ((n, f), same) =
    settle_attempt-Outcome o (greet answer (record c { socket = some answer.link }))
      (try_all attempts)
      (greet-Leaves o answer (record c { socket = some answer.link })
        ((answer.link, refl), f, same))
      (λ m. try_all-Leaves o attempts m)

-- What a dial that succeeds leaves, and one that fails.
abbrev pub Opened : Client → Client → Type 0
Opened c d = IsLive d × (d.gate ≡ note_success c.gate) × (d.endpoint ≡ c.endpoint)

abbrev pub Failed : ℕ → Client → Client → Type 0
Failed now_ms c d = IsIdle d × (d.gate ≡ note_failure c.gate now_ms) × (d.endpoint ≡ c.endpoint)

-- What `connect` makes of the client: nothing where there is a connection or the gate is closed, and
-- else a connection with the gate open, or none and a failure at that time.
abbrev pub Connects : ℕ → Client → Client × Status → Type 0
Connects now_ms c r =
    ((c.connected ≡ true) × (r ≡ (c, success tt)))
    ⊎ (((c.connected ≡ false) × (ready c.gate now_ms ≡ false) × (r ≡ (c, failure (waiting c.gate))))
        ⊎ ((c.connected ≡ false)
            × (ready c.gate now_ms ≡ true)
            × Outcome (Opened c) (Failed now_ms c) r))

settle_dial-Outcome :
    (now_ms : ℕ) (c : Client) (r : Client × Status)
    → Outcome (On c true) (Off c) r
    → Outcome (Opened c) (Failed now_ms c) (settle_dial now_ms r)
settle_dial-Outcome now_ms c (d, success u) (s, e, (g, h)) = ((s, e), ap note_success g, h)
settle_dial-Outcome now_ms c (d, failure message) (idle, (g, h)) =
    (idle, ap (λ (gate : ReconnectGate). note_failure gate now_ms) g, h)

dial-Outcome :
    (now_ms : ℕ) (resolution : Resolution) (c : Client)
    → IsIdle c
    → Outcome (Opened c) (Failed now_ms c) (dial now_ms resolution c)
unfolding dial
dial-Outcome now_ms (unresolved message) c idle = (idle, refl, refl)
dial-Outcome now_ms (resolved attempts) c idle =
    settle_dial-Outcome now_ms c (try_all attempts (codes "connect failed") c)
      (try_all-Leaves c attempts (codes "connect failed") c (idle, (refl, refl)))

abbrev pub IsSound : Client → Type 0
IsSound c = IsIdle c ⊎ IsLive c

-- Of a client whose connection and socket agree, `connect` does nothing where there is a
-- connection; where there is none and the gate is closed it reports how long the waits are and
-- does nothing else; and where the gate is ready it dials once, which either leaves a connection
-- and an open gate, or no socket at all and the gate with one failure more, whatever the network
-- answers.
pub connect_locked-Connects :
    (now_ms : ℕ) (resolution : Resolution) (c : Client)
    → IsSound c
    → Connects now_ms c (connect_locked now_ms resolution c)
unfolding connect_locked
connect_locked-Connects now_ms resolution c (inr (s, e)) = inl (e, simp e refl)
connect_locked-Connects now_ms resolution c (inl (n, f)) = elim (Bool-cases (ready c.gate now_ms)) [
  | inl open_ ↦ inr (inr (f, open_, simp (f, open_) (dial-Outcome now_ms resolution c (n, f))))
  | inr shut ↦ inr (inl (f, shut, simp (f, shut) refl))
]

Outcome-weaken {ℓ} :
    {A : Type ℓ} (P Q R S : Client → Type 0) (r : Client × Parsed A)
    → ((d : Client) → P d → R d)
    → ((d : Client) → Q d → S d)
    → Outcome P Q r
    → Outcome R S r
Outcome-weaken P Q R S (d, success a) f g h = f d h
Outcome-weaken P Q R S (d, failure message) f g h = g d h

-- A connection comes of a success and none of a failure.
pub connect_locked-Outcome :
    (now_ms : ℕ) (resolution : Resolution) (c : Client)
    → IsSound c
    → Outcome IsLive IsIdle (connect_locked now_ms resolution c)
unfolding connect_locked
connect_locked-Outcome now_ms resolution c (inr (s, e)) = simp e (s, refl)
connect_locked-Outcome now_ms resolution c (inl (n, f)) = elim (Bool-cases (ready c.gate now_ms)) [
  | inl open_ ↦
      simp (f, open_)
        (Outcome-weaken (Opened c) (Failed now_ms c) IsLive IsIdle (dial now_ms resolution c)
          (λ d h. h.0) (λ d h. h.0) (dial-Outcome now_ms resolution c (n, f)))
  | inr shut ↦ simp (f, shut) (n, refl)
]

closing-IsIdle :
    (o : Client) (r : Client × Status)
    → Outcome (On o true) (Same o) r
    → Outcome IsLive IsIdle (closing r)
unfolding close_with close_locked
closing-IsIdle o (c, success u) (s, e, same) = (s, e)
closing-IsIdle o (c, failure message) h = (refl, refl)

-- A text that can not be sent closes the connection.
pub send_text_locked-Outcome :
    (mask payload : Bytes) (c : Client)
    → IsLive c
    → Outcome IsLive IsIdle (send_text_locked mask payload c)
unfolding send_text_locked
send_text_locked-Outcome mask payload c (s, e) =
    closing-IsIdle c (send_all_locked (text_frame mask payload) c)
      (send_all_locked-Leaves c true (text_frame mask payload) c (s, e, (refl, refl)))
