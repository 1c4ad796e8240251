-- ===== src/Bridge/Bounds.antt =====
-- The caps of the queues that the panel and the notifications read (src/gui/gui_bridge.cpp).
use zoal_atc.Common.{
  ℕ, ◌≤◌, refl, Bool, true, List, [], ◌∷◌, ◌++◌, inl, inr, arith, Option-cases, Bool-cases, Bytes,
  length, length-drop, min, if_both, not, drop-nil, leb,
}
use zoal_atc.Frames.{
  PanelRequest, GuiResponse, GuiEvent, build_js_event, parse_panel_request, parse_gui_response,
  parse_gui_event, is_gui_frame,
}
use zoal_atc.Bridge.State.{LocalAnswer, SubmitResult, next64, GuiBridge, find_pending}
use zoal_atc.Bridge.Settle.{fail_all, can_see_events}
use zoal_atc.Bridge.Owed.{
  IsBounded, same_owed, enqueue_js-IsBounded, enqueue_status-IsBounded, replay-IsBounded,
  settle-IsBounded, settle_each-IsBounded, subscribe-IsBounded,
}
use zoal_atc.Bridge.Handlers.{
  Call, submits, attaches, installs, detaches, shows, receives, connects, ticks, takes_frames,
  takes_messages, takes_events, local_answer, answer_locally, proxy, submit, attach_panel,
  set_local_action, detach_panel, set_panel_visible, on_response, pop_to, on_event, on_socket_frame,
  set_connected, tick, take_socket_frames, take_js_messages, take_notification_events, step, run,
  remember, is_cached,
}

answer_locally-IsBounded :
    (b : GuiBridge) (answer : LocalAnswer) → IsBounded b → IsBounded (answer_locally b answer).0
unfolding answer_locally
answer_locally-IsBounded b answer v =
    if_both IsBounded b.panel_attached (enqueue_js-IsBounded _ _ counted) counted
  where
    counted : IsBounded (record b { next_request_id = next64 b.next_request_id })
    counted = same_owed b _ refl v

proxy-IsBounded :
    (b : GuiBridge) (request : PanelRequest) (now : ℕ)
    → IsBounded b
    → IsBounded (proxy b request now).0
unfolding proxy
proxy-IsBounded b request now v =
    if_both {A = GuiBridge × SubmitResult} (λ r. IsBounded r.0) (not b.connected) v
      (if_both {A = GuiBridge × SubmitResult} (λ r. IsBounded r.0)
        (leb b.config.max_pending (length b.pending)) v (same_owed b _ refl v))

submit-IsBounded :
    (b : GuiBridge) (json : Bytes) (now : ℕ) → IsBounded b → IsBounded (submit b json now).0
unfolding submit
submit-IsBounded b json now v = elim (Option-cases (parse_panel_request json)) [
  | inl e ↦ rw (e, submit) v
  | inr (request, e) ↦ elim (Option-cases (local_answer b.config.local_action request)) [
    | inl l ↦ rw (e, l, submit) (proxy-IsBounded b request now v)
    | inr (answer, l) ↦ rw (e, l, submit) (answer_locally-IsBounded b answer v)
  ]
]

attach_panel-IsBounded : (b : GuiBridge) (now : ℕ) → IsBounded b → IsBounded (attach_panel b now).0
unfolding attach_panel
attach_panel-IsBounded b now v =
    replay-IsBounded _ (if_both IsBounded b.connected (subscribe-IsBounded _ now opened) opened)
  where
    opened : IsBounded (record b { panel_attached = true; panel_visible = true; js_queue = [] })
    opened = record { room = v.room; js = omega arith; notify = v.notify; detached = λ e. refl }

set_panel_visible-IsBounded :
    (b : GuiBridge) (visible : Bool) → IsBounded b → IsBounded (set_panel_visible b visible)
unfolding set_panel_visible
set_panel_visible-IsBounded b visible v =
    if_both IsBounded _ v (if_both IsBounded _ (replay-IsBounded _ turned) turned)
  where
    turned : IsBounded (record b { panel_visible = visible })
    turned = same_owed b _ refl v

on_response-IsBounded :
    (b : GuiBridge) (response : GuiResponse) → IsBounded b → IsBounded (on_response b response)
unfolding on_response
on_response-IsBounded b response v =
    elim (Option-cases (find_pending response.request_id b.pending)) [
      | inl e ↦ rw (e, on_response) v
      | inr (p, e) ↦
          rw (e, on_response)
            (settle-IsBounded _ response.request_id response p.internal (same_owed b _ refl v))
    ]

length-pop_to : (max : ℕ) (queue : List GuiEvent) → length (pop_to max queue) ≤ max
unfolding pop_to
length-pop_to max [] = omega arith
length-pop_to max (event ∷ queue) = ground (arith, length-pop_to max queue)

on_event-IsBounded : (b : GuiBridge) (event : GuiEvent) → IsBounded b → IsBounded (on_event b event)
unfolding on_event
on_event-IsBounded b event v =
    if_both IsBounded (can_see_events b) (enqueue_js-IsBounded _ (build_js_event event) noted)
      (if_both IsBounded (is_cached event.event b.cache) missed noted)
  where
    noted : IsBounded (record b {
      cache = remember event b.cache;
      notify_queue = pop_to b.config.max_js_queue (b.notify_queue ++ event ∷ []);
    })
    noted = record {
      room = v.room;
      js = v.js;
      notify = length-pop_to b.config.max_js_queue _;
      detached = v.detached;
    }

    missed : IsBounded (record b {
      cache = remember event b.cache;
      notify_queue = pop_to b.config.max_js_queue (b.notify_queue ++ event ∷ []);
      dropped_events = next64 b.dropped_events;
    })
    missed = record { room = v.room; js = v.js; notify = noted.notify; detached = v.detached }

on_socket_frame-IsBounded :
    (b : GuiBridge) (frame : Bytes) → IsBounded b → IsBounded (on_socket_frame b frame).0
unfolding on_socket_frame
on_socket_frame-IsBounded b frame v = elim (Bool-cases (is_gui_frame frame)) [
  | inr other ↦ rw other v
  | inl gui ↦ elim (Option-cases (parse_gui_response frame)) [
    | inr (response, r) ↦ rw (gui, r, on_socket_frame) (on_response-IsBounded b response v)
    | inl r ↦ elim (Option-cases (parse_gui_event frame)) [
      | inr (event, e) ↦ rw (gui, r, e, on_socket_frame) (on_event-IsBounded b event v)
      | inl e ↦ rw (gui, r, e, on_socket_frame) v
    ]
  ]
]

set_connected-IsBounded :
    (b : GuiBridge) (connected : Bool) (now : ℕ)
    → IsBounded b
    → IsBounded (set_connected b connected now)
unfolding set_connected fail_all
set_connected-IsBounded b connected now v = if_both IsBounded _ v (
    enqueue_status-IsBounded _ (
      if_both IsBounded _ (settle_each-IsBounded _ _ _ (turned v))
        (if_both IsBounded _ (subscribe-IsBounded _ now (turned v)) (turned v))))
  where
    turned :
        {s : Bool} → IsBounded b → IsBounded (record b { connected = connected; subscribed = s })
    turned v = same_owed b _ refl v

take_js_messages-IsBounded :
    (b : GuiBridge) (max : ℕ) → IsBounded b → IsBounded (take_js_messages b max).0
unfolding take_js_messages
take_js_messages-IsBounded b max v = record {
  room = v.room;
  js = omega (arith, length-drop (min max (length b.js_queue)) b.js_queue, v.js);
  notify = v.notify;
  detached = λ e. rw (v.detached e) (drop-nil (min max 0));
}

pub step-IsBounded : (b : GuiBridge) (call : Call) → IsBounded b → IsBounded (step b call)
unfolding step
step-IsBounded b (submits json now) v = submit-IsBounded b json now v
step-IsBounded b (attaches now) v = attach_panel-IsBounded b now v
step-IsBounded b (installs handler) v = unfold set_local_action in same_owed b _ refl v
step-IsBounded b detaches v =
    unfold detach_panel in
    record { room = v.room; js = omega arith; notify = v.notify; detached = λ e. refl }
step-IsBounded b (shows visible) v = set_panel_visible-IsBounded b visible v
step-IsBounded b (receives frame now) v = on_socket_frame-IsBounded b frame v
step-IsBounded b (connects connected now) v = set_connected-IsBounded b connected now v
step-IsBounded b (ticks now) v = unfold tick in settle_each-IsBounded _ _ b v
step-IsBounded b takes_frames v = unfold take_socket_frames in same_owed b _ refl v
step-IsBounded b (takes_messages max) v = take_js_messages-IsBounded b max v
step-IsBounded b (takes_events max) v =
    unfold take_notification_events in
    record {
      room = v.room;
      js = v.js;
      notify =
          omega (arith, length-drop (min max (length b.notify_queue)) b.notify_queue, v.notify);
      detached = v.detached;
    }

-- Where the cap is positive, both queues are within it and a panel that is not attached is owed
-- nothing, this is so after any calls as well.
pub run-IsBounded : (b : GuiBridge) (calls : List Call) → IsBounded b → IsBounded (run b calls)
unfolding run
run-IsBounded b [] v = v
run-IsBounded b (call ∷ calls) v = run-IsBounded (step b call) calls (step-IsBounded b call v)
