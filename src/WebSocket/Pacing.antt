-- ===== src/WebSocket/Pacing.antt =====
-- The reconnect gate at work in connect_locked of src/transport/websocket_client.cpp.
use mathlib.Core.Path.{subst}
use zoal_atc.Common.{
  ℕ, ◌+◌, ◌*◌, ◌^◌, ◌≤◌, ◌<◌, ◌≡◌, refl, sym, ap, inl, inr, List, [], ◌∷◌, if◌then◌else◌, Bytes,
  length,
}
use zoal_atc.Endpoint.{WebSocketEndpoint, failure, success}
use zoal_atc.Gate.{ReconnectGate, ready, fresh_gate, initial_delay_ms, max_delay_ms}
use zoal_atc.Gate.Pacing.{Paced, Paced-span, last_dial, fresh-IsPaced}
use zoal_atc.WebSocket.Client.{Client, Status, new_client}
use zoal_atc.WebSocket.Dial.{Resolution, connect_locked}
use zoal_atc.WebSocket.States.{IsIdle, Outcome, Opened, Failed, connect_locked-Connects}

-- Calls that all fail, at times that leave room for the longest wait.
abbrev pub Away : Client → List (ℕ × Resolution) → Type 0
Away c [] = Unit
Away c ((now_ms, resolution) ∷ calls) =
    ((message : Bytes) × ((connect_locked now_ms resolution c).1 ≡ failure message))
    × (now_ms + max_delay_ms < 2 ^ 64)
    × Away (connect_locked now_ms resolution c).0 calls

-- The times of the calls at which the gate lets the client reach for the network.
abbrev pub dial_times : Client → List (ℕ × Resolution) → List ℕ
dial_times c [] = []
dial_times c ((now_ms, resolution) ∷ calls) =
    let later = dial_times (connect_locked now_ms resolution c).0 calls in
    if ready c.gate now_ms then now_ms ∷ later else later

-- A failed call that reached for the network.
settled_dial :
    (now_ms : ℕ) (c : Client) (r : Client × Status) (message : Bytes)
    → Outcome (Opened c) (Failed now_ms c) r
    → r.1 ≡ failure message
    → Failed now_ms c r.0
settled_dial now_ms c (d, success u) message h e = absurd cc
settled_dial now_ms c (d, failure m) message h e = h

dial_times-Paced :
    (c : Client) (calls : List (ℕ × Resolution))
    → IsIdle c
    → Away c calls
    → Paced c.gate (dial_times c calls)
dial_times-Paced c [] idle away = tt
dial_times-Paced c ((now_ms, resolution) ∷ calls) idle ((message, e), room, away) =
    let d = (connect_locked now_ms resolution c).0 in
    elim (connect_locked-Connects now_ms resolution c (inl idle)) [
      | inl (live, f) ↦ let (none_, off) = idle in absurd cc
      | inr (inl (n, shut, f)) ↦
          let same : d ≡ c = ap (λ (r : Client × Status). r.0) f in
          let ih = dial_times-Paced d calls (subst IsIdle (sym same) idle) away in
          rw shut (subst (λ (x : Client). Paced x.gate (dial_times d calls)) same ih)
      | inr (inr (n, open_, f)) ↦
          let (idle', gate, endpoint) =
            settled_dial now_ms c (connect_locked now_ms resolution c) message f e in
          let ih = dial_times-Paced d calls idle' away in
          rw open_
            (open_, room, subst (λ (g : ReconnectGate). Paced g (dial_times d calls)) gate ih)
    ]

-- However often `connect` is called of a new client, while each call fails and the clock does not
-- wrap within the longest wait, the calls that reach for the network are five seconds apart on
-- average at least.
pub dial_times_span :
    (endpoint : WebSocketEndpoint) (calls : List (ℕ × Resolution)) (t : ℕ) (ts : List ℕ)
    → Away (new_client endpoint) calls
    → dial_times (new_client endpoint) calls ≡ t ∷ ts
    → t + initial_delay_ms * length ts ≤ last_dial t ts
dial_times_span endpoint calls t ts away e =
    Paced-span fresh_gate t ts fresh-IsPaced
      (subst (Paced fresh_gate) e (dial_times-Paced (new_client endpoint) calls (refl, refl) away))
