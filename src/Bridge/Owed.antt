-- ===== src/Bridge/Owed.antt =====
-- What the panel and the notifications are owed, and the operations under the lock
-- (src/gui/gui_bridge.cpp).
use zoal_atc.Common.{
  ap, sym, ◌∙◌, ℕ, ◌≤◌, ◌<◌, ◌≡◌, refl, Bool, false, List, [], ◌∷◌, inl, inr, arith, Option-cases,
  Bytes, length, length-snoc, length-drop-snoc, if_both, not,
}
use zoal_atc.Frames.{GuiResponse, GuiEvent, build_js_event}
use zoal_atc.Bridge.State.{JsMessage, GuiBridge, find_pending, erase_pending}
use zoal_atc.Bridge.Settle.{
  enqueue_js, enqueue_status, replay_events, replay, settle, settle_failed, settle_each, subscribe,
  failure,
}

pub record IsBounded (b : GuiBridge) : Type 0 where
  pub room : 0 < b.config.max_js_queue
  pub js : length b.js_queue ≤ b.config.max_js_queue
  pub notify : length b.notify_queue ≤ b.config.max_js_queue
  pub detached : b.panel_attached ≡ false → b.js_queue ≡ []

-- What the bound speaks of.
abbrev owed : GuiBridge → ℕ × List JsMessage × List GuiEvent × Bool
owed b = (b.config.max_js_queue, b.js_queue, b.notify_queue, b.panel_attached)

pub same_owed : (b c : GuiBridge) → owed c ≡ owed b → IsBounded b → IsBounded c
same_owed b c e v = record {
  room = omega (arith, ap (λ o. o.0) e, v.room);
  js = rw (ap (λ o. o.0) e, ap (λ o. o.1) e) v.js;
  notify = rw (ap (λ o. o.0) e, ap (λ o. o.2) e) v.notify;
  detached = λ a. ap (λ o. o.1) e ∙ v.detached (sym (ap (λ o. o.3) e) ∙ a);
}

pub enqueue_js-IsBounded :
    (b : GuiBridge) (payload : Bytes) → IsBounded b → IsBounded (enqueue_js b payload)
unfolding enqueue_js
enqueue_js-IsBounded b payload v = record {
  room = ground arith;
  js = grind (arith, length-snoc, length-drop-snoc);
  notify = ground arith;
  detached = λ e. ground arith;
}

pub enqueue_status-IsBounded : (b : GuiBridge) → IsBounded b → IsBounded (enqueue_status b)
unfolding enqueue_status
enqueue_status-IsBounded b v = enqueue_js-IsBounded b _ v

replay_events-IsBounded :
    (events : List GuiEvent) (b : GuiBridge) → IsBounded b → IsBounded (replay_events events b)
unfolding replay_events
replay_events-IsBounded [] b v = v
replay_events-IsBounded (event ∷ events) b v =
    replay_events-IsBounded events _ (enqueue_js-IsBounded b (build_js_event event) v)

pub replay-IsBounded : (b : GuiBridge) → IsBounded b → IsBounded (replay b)
unfolding replay
replay-IsBounded b v = replay_events-IsBounded b.cache _ (enqueue_status-IsBounded b v)

pub settle-IsBounded :
    (b : GuiBridge) (id : ℕ) (response : GuiResponse) (internal : Bool)
    → IsBounded b
    → IsBounded (settle b id response internal)
unfolding settle
settle-IsBounded b id response internal v =
    if_both IsBounded internal
      (if_both IsBounded _ (enqueue_status-IsBounded _ (settled v)) (settled v))
      (if_both IsBounded (not b.panel_attached) v (enqueue_js-IsBounded b _ v))
  where
    settled :
        {n : ℕ} {ok : Bool}
        → IsBounded b
        → IsBounded (record b { subscribe_request_id = n; subscribed = ok })
    settled v = same_owed b _ refl v

settle_failed-IsBounded :
    (reason : Bytes) (b : GuiBridge) (id : ℕ) → IsBounded b → IsBounded (settle_failed reason b id)
unfolding settle_failed
settle_failed-IsBounded reason b id v = elim (Option-cases (find_pending id b.pending)) [
  | inl e ↦ rw (e, settle_failed) v
  | inr (p, e) ↦
      rw (e, settle_failed)
        (settle-IsBounded (record b { pending = erase_pending id b.pending }) id (failure id reason)
          p.internal (same_owed b _ refl v))
]

pub settle_each-IsBounded :
    (reason : Bytes) (ids : List ℕ) (b : GuiBridge)
    → IsBounded b
    → IsBounded (settle_each reason ids b)
unfolding settle_each
settle_each-IsBounded reason [] b v = v
settle_each-IsBounded reason (id ∷ ids) b v =
    settle_each-IsBounded reason ids _ (settle_failed-IsBounded reason b id v)

pub subscribe-IsBounded : (b : GuiBridge) (now : ℕ) → IsBounded b → IsBounded (subscribe b now)
unfolding subscribe
subscribe-IsBounded b now v = same_owed b _ refl v
