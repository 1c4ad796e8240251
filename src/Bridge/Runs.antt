-- ===== src/Bridge/Runs.antt =====
-- The bookkeeping of `Tracking` after any calls, and deadlines (src/gui/gui_bridge.cpp).
use zoal_atc.Common.{
  ℕ, ◌+◌, ◌<◌, ◌^◌, ◌≡◌, refl, inl, inr, List, [], ◌∷◌, none, arith, Option-cases, length, codes,
}
use zoal_atc.Frames.{GuiResponse}
use zoal_atc.Bridge.State.{
  GuiBridge, GuiBridgeConfig, new_bridge, find_pending, erase_pending, sort_ids, expired_ids,
}
use zoal_atc.Bridge.Handlers.{
  Call, submits, attaches, installs, detaches, shows, receives, connects, ticks, takes_frames,
  takes_messages, takes_events, set_local_action, detach_panel, on_response, tick,
  take_socket_frames, take_js_messages, take_notification_events, step, run,
}
use zoal_atc.Bridge.Pending.{
  Distinct, live, find-erase_self, settle-pending, settle_expired-pending,
}
use zoal_atc.Bridge.Tracking.{IsTracked}
use zoal_atc.Bridge.Steps.{Keeps, same, settle_each-Keeps}
use zoal_atc.Bridge.Reach.{
  submit-Keeps, attach_panel-Keeps, set_panel_visible-Keeps, on_socket_frame-Keeps,
}
use zoal_atc.Bridge.Connection.{set_connected-Keeps}

set_local_action-Keeps :
    (b : GuiBridge) (handler : _) → IsTracked b → Keeps b (set_local_action b handler)
unfolding set_local_action
set_local_action-Keeps b handler v = (
  record {
    ids = v.ids;
    distinct = v.distinct;
    own = v.own;
    external = v.external;
    offline = v.offline;
    positive = v.positive;
  },
  omega arith,
)

detach_panel-Keeps : (b : GuiBridge) → IsTracked b → Keeps b (detach_panel b)
unfolding detach_panel
detach_panel-Keeps b v = (
  record {
    ids = tt;
    distinct = tt;
    own = tt;
    external = omega arith;
    offline = λ o. (refl, refl);
    positive = v.positive;
  },
  omega arith,
)

tick-Keeps : (b : GuiBridge) (now : ℕ) → IsTracked b → Keeps b (tick b now)
unfolding tick
tick-Keeps b now v =
    let (w, e) =
      settle_each-Keeps (codes "request timed out") (sort_ids (expired_ids now b.pending)) b v in
    (w, omega (arith, e))

pub step-Keeps :
    (b : GuiBridge) (call : Call)
    → IsTracked b
    → b.next_request_id + 1 < 2 ^ 64
    → Keeps b (step b call)
unfolding step
step-Keeps b (submits json now) v h = submit-Keeps b json now v h
step-Keeps b (attaches now) v h = attach_panel-Keeps b now v h
step-Keeps b (installs handler) v h = set_local_action-Keeps b handler v
step-Keeps b detaches v h = detach_panel-Keeps b v
step-Keeps b (shows visible) v h = set_panel_visible-Keeps b visible v
step-Keeps b (receives frame now) v h = on_socket_frame-Keeps b frame v
step-Keeps b (connects connected now) v h = set_connected-Keeps b connected now v h
step-Keeps b (ticks now) v h = tick-Keeps b now v
step-Keeps b takes_frames v h = unfold take_socket_frames in same b _ refl v
step-Keeps b (takes_messages max) v h = unfold take_js_messages in same b _ refl v
step-Keeps b (takes_events max) v h = unfold take_notification_events in same b _ refl v

run-IsTracked :
    (b : GuiBridge) (calls : List Call)
    → IsTracked b
    → b.next_request_id + length calls < 2 ^ 64
    → IsTracked (run b calls)
unfolding run
run-IsTracked b [] v h = v
run-IsTracked b (call ∷ calls) v h =
    let (w, n) = step-Keeps b call v (omega (arith, h)) in
    run-IsTracked (step b call) calls w (omega (arith, h, n))

-- After any calls of a new bridge, fewer than 2 ^ 64 - 1: the pending ids are distinct, positive
-- and below the next one, a pending request of the bridge's own is the subscribe it awaits, the
-- panel's requests are no more than the cap, and without a connection nothing is pending and the
-- bridge is not subscribed.
pub run-new-IsTracked :
    (config : GuiBridgeConfig) (calls : List Call)
    → length calls + 1 < 2 ^ 64
    → IsTracked (run (new_bridge config) calls)
run-new-IsTracked config calls h = run-IsTracked (new_bridge config) calls start (omega (arith, h))
  where
    start : IsTracked (new_bridge config)
    start = record {
      ids = tt;
      distinct = tt;
      own = tt;
      external = omega arith;
      offline = λ e. (refl, refl);
      positive = omega arith;
    }

-- After a tick exactly the requests whose deadline is still to come are pending, where no two have
-- one id.
pub tick-pending :
    (b : GuiBridge) (now : ℕ) → Distinct b.pending → (tick b now).pending ≡ live now b.pending
unfolding tick
tick-pending b now d = settle_expired-pending (codes "request timed out") b now d

on_response-absent :
    (b : GuiBridge) (response : GuiResponse)
    → find_pending response.request_id b.pending ≡ none
    → on_response b response ≡ b
unfolding on_response
on_response-absent b response e = rw (e, on_response) refl

on_response-gone :
    (b : GuiBridge) (response : GuiResponse)
    → find_pending response.request_id (on_response b response).pending ≡ none
unfolding on_response
on_response-gone b response = elim (Option-cases (find_pending response.request_id b.pending)) [
  | inl e ↦ rw (e, on_response) e
  | inr (p, e) ↦
      let erased = record b { pending = erase_pending response.request_id b.pending } in
      rw (e, on_response, settle-pending erased response.request_id response p.internal)
        (find-erase_self response.request_id b.pending)
]

-- After an answer, a second one with its id changes nothing, whatever it says.
pub on_response-once :
    (b : GuiBridge) (first second : GuiResponse)
    → second.request_id ≡ first.request_id
    → on_response (on_response b first) second ≡ on_response b first
on_response-once b first second e =
    on_response-absent (on_response b first) second (rw e (on_response-gone b first))
