-- ===== src/WebSocket/Greeting.antt =====
-- What crosses the wire before a connection counts as one (send_all_locked, send_handshake_locked,
-- read_handshake_response_locked and send_hello_locked of src/transport/websocket_client.cpp).
use zoal_atc.Common.{
  ℕ, zero, suc, ◌≤◌, ◌<◌, min, ◌≡◌, refl, sym, ap, ◌∙◌, ◌⊎◌, inl, inr, Bool, true, false, List, [],
  ◌∷◌, ◌++◌, arith, ltb, if◌then◌else◌, if_both, if_known, Bytes, codes, ◌||◌, length, take, drop,
  append_assoc, append-nil, take-drop, length-drop,
}
use zoal_atc.Endpoint.{failure, success, starts_with}
use zoal_atc.WebSocket.Link.{
  Write, Link, arrived, nothing, recv_socket, took, refused, send_socket, flat,
}
use zoal_atc.WebSocket.Exact.{recv_socket-arrived}
use zoal_atc.WebSocket.Client.{Status, io_chunk, send_loop}
use zoal_atc.WebSocket.Dial.{contains, header_end, response_error, upgrade_status, response_loop}

-- Nothing but what is sent and how `send` will answer differs.
abbrev pub SameSide : Link → Link → Type 0
SameSide link next = (next.segments ≡ link.segments) × (next.ending ≡ link.ending)

-- What the loop leaves: all the bytes behind those sent before, or a beginning of them and an error.
abbrev pub Sends : Bytes → Link → Link × Status → Type 0
Sends bytes link (next, success u) = (next.sent ≡ link.sent ++ bytes) × SameSide link next
Sends bytes link (next, failure message) =
    ((done : Bytes) × (rest : Bytes) × (bytes ≡ done ++ rest) × (next.sent ≡ link.sent ++ done))
    × SameSide link next

send_socket-took :
    (chunk : ℕ) (writes : List Write)
    → 0 < chunk
    → ((n : ℕ) × (left : List Write) × (send_socket chunk writes ≡ took n left)
        × (0 < n)
        × (n ≤ chunk))
      ⊎ ((message : Bytes) × (left : List Write) × (send_socket chunk writes
            ≡ refused message left))
send_socket-took chunk [] h = inl (chunk, [], refl, h, omega arith)
send_socket-took chunk (Write.takes n ∷ writes) h =
    inl (min (suc n) chunk, writes, refl, omega arith, omega arith)
send_socket-took chunk (Write.refuses message ∷ writes) h = inr (message, writes, refl)

-- The rest of the bytes, behind a beginning that has been sent.
Sends-later :
    (n : ℕ) (bytes : Bytes) (link : Link) (writes : List Write) (r : Link × Status)
    → Sends (drop n bytes) (record link { writes = writes; sent = link.sent ++ take n bytes }) r
    → Sends bytes link r
Sends-later n bytes link writes (next, success u) (e, side) = (
  e
      ∙ (append_assoc link.sent (take n bytes) (drop n bytes)
          ∙ ap (λ (b : Bytes). link.sent ++ b) (take-drop n bytes)),
  side,
)
Sends-later n bytes link writes (next, failure message) ((done, rest, e, f), side) = (
  (
    take n bytes ++ done,
    rest,
    sym (
        append_assoc (take n bytes) done rest
        ∙ (ap (λ (b : Bytes). take n bytes ++ b) (sym e) ∙ take-drop n bytes)),
    f ∙ append_assoc link.sent (take n bytes) done,
  ),
  side,
)

pub send_loop-Sends :
    (fuel : ℕ) (bytes : Bytes) (link : Link)
    → length bytes ≤ fuel
    → Sends bytes link (send_loop fuel bytes link)
unfolding send_loop
send_loop-Sends fuel [] link h = (sym (append-nil link.sent), (refl, refl))
send_loop-Sends zero (b ∷ bytes) link h = absurd (omega arith)
send_loop-Sends (suc fuel) (b ∷ bytes) link h =
    elim (send_socket-took (min (length (b ∷ bytes)) io_chunk) link.writes (omega arith)) [
      | inr (message, left, e) ↦
          rw (e, send_loop) (([], b ∷ bytes, refl, sym (append-nil link.sent)), (refl, refl))
      | inl (n, left, e, lo, hi) ↦
          let next = record link { writes = left; sent = link.sent ++ take n (b ∷ bytes) } in
          let shorter : length (drop n (b ∷ bytes)) ≤ fuel =
            omega (arith, length-drop n (b ∷ bytes), lo) in
          rw (e, send_loop)
            (Sends-later n (b ∷ bytes) link left (send_loop fuel (drop n (b ∷ bytes)) next)
              (send_loop-Sends fuel (drop n (b ∷ bytes)) next shorter))
    ]

-- A response that is accepted.
abbrev pub IsUpgrade : Bytes → Type 0
IsUpgrade response =
    (contains header_end response ≡ true)
    × ((starts_with (codes "HTTP/1.1 101") response ≡ true)
        ⊎ (starts_with (codes "HTTP/1.0 101") response ≡ true))

-- What the loop makes of what was read before: a success has taken a response off the arriving bytes
-- that is accepted with it.
abbrev pub Responds : Bytes → Link → Link × Status → Type 0
Responds before link (next, success u) =
    ((got : Bytes) × (flat link.segments ≡ got ++ flat next.segments) × IsUpgrade (before ++ got))
    × (next.sent ≡ link.sent)
Responds before link (next, failure message) = next.sent ≡ link.sent

or_true : (a b : Bool) → (a || b) ≡ true → (a ≡ true) ⊎ (b ≡ true)
or_true true b h = inl refl
or_true false b h = inr h

upgrade_status-Responds :
    (response : Bytes) (link : Link)
    → contains header_end response ≡ true
    → Responds response link (link, upgrade_status response)
unfolding upgrade_status
upgrade_status-Responds response link e =
    if_known (λ (s : Status). Responds response link (link, s))
      (starts_with (codes "HTTP/1.1 101") response || starts_with (codes "HTTP/1.0 101") response)
      (λ t. (
        (
          [],
          refl,
          rw (append-nil response) (
            e,
            or_true (starts_with (codes "HTTP/1.1 101") response)
                (starts_with (codes "HTTP/1.0 101") response) t,
          ),
        ),
        refl,
      ))
      (λ f. refl)

recv_socket-cases :
    (segments : List (ℕ × Bytes))
    → (recv_socket 512 segments ≡ nothing)
      ⊎ ((bytes : Bytes) × (left : List (ℕ × Bytes)) × (recv_socket 512 segments
            ≡ arrived bytes left)
          × (flat segments ≡ bytes ++ flat left))
recv_socket-cases [] = inl refl
recv_socket-cases (segment ∷ segments) =
    let (bytes, left, e, f, lo, hi) =
      recv_socket-arrived 512 (segment ∷ segments) (omega arith) (omega arith) in
    inr (bytes, left, e, f)

Responds-later :
    (before bytes : Bytes) (link : Link) (left : List (ℕ × Bytes)) (r : Link × Status)
    → flat link.segments ≡ bytes ++ flat left
    → Responds (before ++ bytes) (record link { segments = left }) r
    → Responds before link r
Responds-later before bytes link left (next, failure message) e h = h
Responds-later before bytes link left (next, success u) e ((got, f, up), sent) = (
  (
    bytes ++ got,
    e ∙ (ap (λ (b : Bytes). bytes ++ b) f ∙ sym (append_assoc bytes got (flat next.segments))),
    rw (append_assoc before bytes got) at up,
  ),
  sent,
)

pub response_loop-Responds :
    (reads : ℕ) (last_error before : Bytes) (link : Link)
    → Responds before link (response_loop reads last_error before link)
unfolding response_loop
response_loop-Responds zero last_error before link =
    if_known (Responds before link) (contains header_end before)
      (λ e. upgrade_status-Responds before link e) (λ f. refl)
response_loop-Responds (suc reads) last_error before link =
    if_known (Responds before link) (contains header_end before)
      (λ e. upgrade_status-Responds before link e)
      (λ f. more (λ got next. response_loop-Responds reads last_error got next))
  where
    Later : Type 0
    Later =
        (got : Bytes) (next : Link) → Responds got next (response_loop reads last_error got next)

    later :
        Later
        → (bytes : Bytes) (left : List (ℕ × Bytes)) → flat link.segments ≡ bytes ++ flat left
        → Responds before link (
            if ltb 8192 (length (before ++ bytes))
            then (
              record link { segments = left },
              failure (codes "websocket handshake response too large"),
            )
            else response_loop reads last_error (before ++ bytes) (record link { segments = left }))
    later ih bytes left e =
        if_both (Responds before link) (ltb 8192 (length (before ++ bytes))) refl (
          Responds-later before bytes link left
            (response_loop reads last_error (before ++ bytes) (record link { segments = left })) e
            (ih (before ++ bytes) (record link { segments = left })))

    more :
        Later
        → Responds before link (elim (recv_socket 512 link.segments) [
          | nothing ↦ (link, failure (response_error last_error link.ending))
          | arrived bytes segments ↦
              (if ltb 8192 (length (before ++ bytes))
                then (
                  record link { segments = segments },
                  failure (codes "websocket handshake response too large"),
                )
                else response_loop reads last_error
                    (before ++ bytes)
                    (record link { segments = segments }))
        ])
    more ih = elim (recv_socket-cases link.segments) [
      | inl e ↦ rw e refl
      | inr (bytes, left, e, f) ↦ rw e (later ih bytes left f)
    ]
