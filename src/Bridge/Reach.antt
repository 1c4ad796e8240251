-- ===== src/Bridge/Reach.antt =====
-- The bookkeeping of `Tracking` under the public operations of src/gui/gui_bridge.cpp.
use zoal_atc.Common.{
  ℕ, ◌+◌, ◌<◌, ◌^◌, ◌≡◌, refl, ap, inl, inr, Bool, true, false, List, [], ◌∷◌, ◌++◌, none, arith,
  Option-cases, Bool-cases, if_both, if_known, Bytes,
}
use zoal_atc.Frames.{
  GuiResponse, GuiEvent, parse_panel_request, parse_gui_response, parse_gui_event, is_gui_frame,
}
use zoal_atc.Bridge.State.{LocalAnswer, Pending, GuiBridge, find_pending, erase_pending, next64}
use zoal_atc.Bridge.Settle.{can_see_events}
use zoal_atc.Bridge.Handlers.{
  local_answer, answer_locally, submit, attach_panel, set_panel_visible, on_response, on_event,
  is_cached, on_socket_frame, remember, pop_to,
}
use zoal_atc.Bridge.Pending.{find-erase_self}
use zoal_atc.Bridge.Tracking.{
  core, enqueue_js-core, replay-core, IsTracked, same_core, erased-IsTracked, settle-IsTracked,
}
use zoal_atc.Bridge.Steps.{
  Keeps, same, next64-suc, ids_later, settle-next, subscribe-Keeps, proxy-Keeps,
}

-- A step followed by messages to the panel.
pub then_core : (b c d : GuiBridge) → core d ≡ core c → Keeps b c → Keeps b d
then_core b c d e (v, n) = (same_core c d e v, rw (ap (λ (g : GuiBridge). g.next_request_id) e) n)

pub answer_locally-Keeps :
    (b : GuiBridge) (answer : LocalAnswer)
    → IsTracked b
    → b.next_request_id + 1 < 2 ^ 64
    → Keeps b (answer_locally b answer).0
unfolding answer_locally
answer_locally-Keeps b answer v h =
    if_both (Keeps b) b.panel_attached (then_core b _ _ (enqueue_js-core _ _) counted) counted
  where
    grown : next64 b.next_request_id ≡ b.next_request_id + 1
    grown = next64-suc b.next_request_id h

    counted : Keeps b (record b { next_request_id = next64 b.next_request_id })
    counted = (
      record {
        ids = ids_later b.pending b.next_request_id _ (omega (arith, grown)) v.ids;
        distinct = v.distinct;
        own = v.own;
        external = v.external;
        offline = v.offline;
        positive = omega (arith, grown);
      },
      omega (arith, grown),
    )

pub submit-Keeps :
    (b : GuiBridge) (json : Bytes) (now : ℕ)
    → IsTracked b
    → b.next_request_id + 1 < 2 ^ 64
    → Keeps b (submit b json now).0
unfolding submit
submit-Keeps b json now v h = elim (Option-cases (parse_panel_request json)) [
  | inl e ↦ rw (e, submit) (same b b refl v)
  | inr (request, e) ↦ elim (Option-cases (local_answer b.config.local_action request)) [
    | inl l ↦ rw (e, l, submit) (proxy-Keeps b request now v h)
    | inr (answer, l) ↦ rw (e, l, submit) (answer_locally-Keeps b answer v h)
  ]
]

pub attach_panel-Keeps :
    (b : GuiBridge) (now : ℕ)
    → IsTracked b
    → b.next_request_id + 1 < 2 ^ 64
    → Keeps b (attach_panel b now).0
unfolding attach_panel
attach_panel-Keeps b now v h = then_core b _ _ (replay-core _) (
    if_known (Keeps b) b.connected (λ on. subscribe-Keeps shown now shown-IsTracked h on)
      (λ off. (shown-IsTracked, omega arith)))
  where
    shown : GuiBridge
    shown = record b { panel_attached = true; panel_visible = true; js_queue = [] }

    shown-IsTracked : IsTracked shown
    shown-IsTracked = same_core b shown refl v

pub set_panel_visible-Keeps :
    (b : GuiBridge) (visible : Bool) → IsTracked b → Keeps b (set_panel_visible b visible)
unfolding set_panel_visible
set_panel_visible-Keeps b visible v =
    if_both (Keeps b) _ (same b b refl v)
      (if_both (Keeps b) _ (then_core b _ _ (replay-core _) turned) turned)
  where
    turned : Keeps b (record b { panel_visible = visible })
    turned = same b _ refl v

find-nil : (id : ℕ) (ps : List Pending) → ps ≡ [] → find_pending id ps ≡ none
unfolding find_pending
find-nil id ps e = rw e refl

on_response-Keeps :
    (b : GuiBridge) (response : GuiResponse) → IsTracked b → Keeps b (on_response b response)
unfolding on_response
on_response-Keeps b response v = elim (Option-cases (find_pending response.request_id b.pending)) [
  | inl e ↦ rw (e, on_response) (same b b refl v)
  | inr (p, e) ↦
      let erased = record b { pending = erase_pending response.request_id b.pending } in
      let offline : b.connected ≡ false → response.ok ≡ false =
        (λ o. let n = find-nil response.request_id b.pending (v.offline o).0 in cc) in
      rw (e, on_response)
        (
          settle-IsTracked erased response.request_id response p.internal
              (erased-IsTracked b response.request_id v)
              (find-erase_self response.request_id b.pending) offline,
          rw (settle-next erased response.request_id response p.internal) (omega arith),
        )
]

on_event-Keeps : (b : GuiBridge) (event : GuiEvent) → IsTracked b → Keeps b (on_event b event)
unfolding on_event
on_event-Keeps b event v =
    if_both (Keeps b) (can_see_events b) (then_core b noted _ (enqueue_js-core noted _) kept)
      (if_both (Keeps b) (is_cached event.event b.cache) (then_core b noted _ refl kept) kept)
  where
    noted : GuiBridge
    noted = record b {
      cache = remember event b.cache;
      notify_queue = pop_to b.config.max_js_queue (b.notify_queue ++ event ∷ []);
    }

    kept : Keeps b noted
    kept = same b noted refl v

pub on_socket_frame-Keeps :
    (b : GuiBridge) (frame : Bytes) → IsTracked b → Keeps b (on_socket_frame b frame).0
unfolding on_socket_frame
on_socket_frame-Keeps b frame v = elim (Bool-cases (is_gui_frame frame)) [
  | inr other ↦ rw other (same b b refl v)
  | inl gui ↦ elim (Option-cases (parse_gui_response frame)) [
    | inr (response, r) ↦ rw (gui, r, on_socket_frame) (on_response-Keeps b response v)
    | inl r ↦ elim (Option-cases (parse_gui_event frame)) [
      | inr (event, e) ↦ rw (gui, r, e, on_socket_frame) (on_event-Keeps b event v)
      | inl e ↦ rw (gui, r, e, on_socket_frame) (same b b refl v)
    ]
  ]
]
