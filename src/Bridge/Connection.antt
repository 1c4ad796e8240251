-- ===== src/Bridge/Connection.antt =====
-- Losing and gaining the connection (src/gui/gui_bridge.cpp).
use zoal_atc.Common.{
  ℕ, ◌+◌, ◌<◌, ◌^◌, ◌≡◌, refl, ap, ◌∙◌, inl, inr, Bool, true, false, not, List, [], ◌∷◌, arith,
  Option-cases, if_both, if_known, Bytes, codes,
}
use zoal_atc.Bridge.State.{GuiBridge, find_pending, erase_pending, sort_ids, all_ids}
use zoal_atc.Bridge.Settle.{
  enqueue_js, enqueue_status, settle, settle_failed, settle_each, fail_all, failure,
}
use zoal_atc.Bridge.Handlers.{set_connected}
use zoal_atc.Bridge.Pending.{settle_all-pending}
use zoal_atc.Bridge.Tracking.{enqueue_status-core, IsTracked}
use zoal_atc.Bridge.Steps.{Keeps, same, subscribe-Keeps}
use zoal_atc.Bridge.Reach.{then_core}

-- Not subscribed, as `b` but for the requests.
pub record Quiet (b c : GuiBridge) : Type 0 where
  pub next : c.next_request_id ≡ b.next_request_id
  pub caps : c.config ≡ b.config
  pub link : c.connected ≡ b.connected
  pub attached : c.panel_attached ≡ b.panel_attached
  pub unsubscribed : c.subscribed ≡ false

settle-Quiet :
    (b : GuiBridge) (id : ℕ) (reason : Bytes) (internal : Bool)
    → b.subscribed ≡ false
    → Quiet b (settle b id (failure id reason) internal)
unfolding settle enqueue_status enqueue_js
settle-Quiet b id reason internal e = record {
  next = ground arith;
  caps = ground arith;
  link = ground arith;
  attached = ground arith;
  unsubscribed = ground arith;
}

settle_failed-Quiet :
    (reason : Bytes) (b : GuiBridge) (id : ℕ)
    → b.subscribed ≡ false
    → Quiet b (settle_failed reason b id)
unfolding settle_failed
settle_failed-Quiet reason b id s = elim (Option-cases (find_pending id b.pending)) [
  | inl e ↦
      rw (e, settle_failed)
        (record { next = refl; caps = refl; link = refl; attached = refl; unsubscribed = s })
  | inr (p, e) ↦
      let q =
        settle-Quiet (record b { pending = erase_pending id b.pending }) id reason p.internal s in
      rw (e, settle_failed)
        (record {
          next = q.next;
          caps = q.caps;
          link = q.link;
          attached = q.attached;
          unsubscribed = q.unsubscribed;
        })
]

settle_each-Quiet :
    (reason : Bytes) (ids : List ℕ) (b : GuiBridge)
    → b.subscribed ≡ false
    → Quiet b (settle_each reason ids b)
unfolding settle_each
settle_each-Quiet reason [] b s = record {
  next = refl;
  caps = refl;
  link = refl;
  attached = refl;
  unsubscribed = s;
}
settle_each-Quiet reason (id ∷ ids) b s =
    let q = settle_failed-Quiet reason b id s in
    let r = settle_each-Quiet reason ids (settle_failed reason b id) q.unsubscribed in
    record {
      next = r.next ∙ q.next;
      caps = r.caps ∙ q.caps;
      link = r.link ∙ q.link;
      attached = r.attached ∙ q.attached;
      unsubscribed = r.unsubscribed;
    }

-- With nothing pending and nothing subscribed there is little to track.
idle-IsTracked :
    (b : GuiBridge) → b.pending ≡ [] → b.subscribed ≡ false → 0 < b.next_request_id → IsTracked b
idle-IsTracked b e s n = record {
  ids = rw e tt;
  distinct = rw e tt;
  own = rw e tt;
  external = rw e (omega arith);
  offline = λ o. (e, s);
  positive = n;
}

fail_all-Keeps :
    (b : GuiBridge) (reason : Bytes)
    → b.subscribed ≡ false
    → 0 < b.next_request_id
    → Keeps b (fail_all b reason)
unfolding fail_all
fail_all-Keeps b reason s n =
    let q = settle_each-Quiet reason (sort_ids (all_ids b.pending)) b s in
    (
      idle-IsTracked _ (settle_all-pending reason b) q.unsubscribed (omega (arith, q.next, n)),
      omega (arith, q.next),
    )

pub set_connected-Keeps :
    (b : GuiBridge) (connected : Bool) (now : ℕ)
    → IsTracked b
    → b.next_request_id + 1 < 2 ^ 64
    → Keeps b (set_connected b connected now)
unfolding set_connected
set_connected-Keeps b connected now v h = if_both (Keeps b) _ (same b b refl v) (
    then_core b _ _ (enqueue_status-core _) (
      if_known (Keeps b) (not connected) (λ off. fail_all-Keeps lost _ refl v.positive)
        (λ on.
          if_both (Keeps b) _ (subscribe-Keeps turned now (up (ground arith)) h (ground arith))
            (up (ground arith), omega arith))))
  where
    turned : GuiBridge
    turned = record b { connected = connected }

    lost : GuiBridge
    lost = record turned { subscribed = false }

    up : connected ≡ true → IsTracked turned
    up e = record {
      ids = v.ids;
      distinct = v.distinct;
      own = v.own;
      external = v.external;
      offline = λ o. cc;
      positive = v.positive;
    }

-- When a bridge that was connected is told that the console is gone, nothing is pending any more,
-- and it is neither subscribed nor connected.
pub set_connected-settles :
    (b : GuiBridge) (now : ℕ)
    → b.connected ≡ true
    → ((set_connected b false now).pending ≡ [])
      × ((set_connected b false now).subscribed ≡ false)
      × ((set_connected b false now).connected ≡ false)
unfolding set_connected fail_all
set_connected-settles b now on =
    let lost = record b { connected = false; subscribed = false } in
    let ids = sort_ids (all_ids b.pending) in
    let q = settle_each-Quiet (codes "console disconnected") ids lost refl in
    let c = enqueue_status-core (settle_each (codes "console disconnected") ids lost) in
    rw on (
      ap (λ (g : GuiBridge). g.pending) c ∙ settle_all-pending (codes "console disconnected") lost,
      ap (λ (g : GuiBridge). g.subscribed) c ∙ q.unsubscribed,
      ap (λ (g : GuiBridge). g.connected) c ∙ q.link,
    )
