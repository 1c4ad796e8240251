-- ===== src/Bridge/Handlers.antt =====
-- The public operations of the bridge, each one step.
use zoal_atc.Common.{
  ℕ, Bool, true, false, not, ◌&&◌, List, [], ◌∷◌, ◌++◌, Option, none, some, leb, if◌then◌else◌,
  Bytes, codes, text_eq, length, take, drop, to_decimal, min,
}
use zoal_atc.Frames.{
  GuiRequest, GuiResponse, GuiEvent, PanelRequest, parse_panel_request, parse_gui_response,
  parse_gui_event, is_gui_frame, build_gui_request, build_js_response, build_js_event,
  build_request_ack,
}
use zoal_atc.Bridge.State.{
  JsMessage, LocalAnswer, SubmitResult, Pending, GuiBridge, next64, add64, find_pending,
  erase_pending, put_pending, sort_ids, expired_ids,
}
use zoal_atc.Bridge.Settle.{
  enqueue_js, enqueue_status, replay, settle, settle_each, fail_all, subscribe, can_see_events,
  bool_eq,
}

abbrev pub refusal : Bytes → SubmitResult
refusal reason = record {
  accepted = false;
  request_id = 0;
  ack_json = build_request_ack false 0 reason;
}

abbrev pub receipt : ℕ → SubmitResult
receipt id = record { accepted = true; request_id = id; ack_json = build_request_ack true id [] }

-- An empty handler, or one that answers `nullopt`, leaves the request to the console.
abbrev pub local_answer :
    Option (Bytes → Bytes → Option LocalAnswer) → PanelRequest → Option LocalAnswer
local_answer none request = none
local_answer (some handler) request = handler request.action request.payload_json

unfoldable pub answer_locally : GuiBridge → LocalAnswer → GuiBridge × SubmitResult
answer_locally b answer =
    let id = b.next_request_id in
    let counted = record b { next_request_id = next64 id } in
    let response : GuiResponse = record {
      request_id = id;
      ok = answer.ok;
      payload_json = answer.payload_json;
      error = answer.error;
    } in
    (
      (if b.panel_attached then enqueue_js counted (build_js_response response) else counted),
      receipt id,
    )

unfoldable pub proxy : GuiBridge → PanelRequest → ℕ → GuiBridge × SubmitResult
proxy b request now_ms =
    let id = b.next_request_id in
    let entry : Pending = record {
      id = id;
      deadline_ms = add64 now_ms b.config.request_timeout_ms;
      internal = false;
    } in
    let frame : GuiRequest = record {
      request_id = id;
      action = request.action;
      payload_json = request.payload_json;
    } in
    if not b.connected
    then (b, refusal (codes "console disconnected"))
    else if leb b.config.max_pending (length b.pending)
    then (b, refusal (codes "too many requests in flight"))
    else (
      record b {
        next_request_id = next64 id;
        pending = put_pending entry b.pending;
        socket_frames = b.socket_frames ++ build_gui_request frame ∷ [];
      },
      receipt id,
    )

-- The three times that the lock is taken are one step here: the first only copies the handler, which
-- `set_local_action` installs once at start-up.
unfoldable pub submit : GuiBridge → Bytes → ℕ → GuiBridge × SubmitResult
submit b panel_request_json now_ms = elim (parse_panel_request panel_request_json) [
  | none ↦ (b, refusal (codes "malformed request"))
  | some request ↦ elim (local_answer b.config.local_action request) [
    | some answer ↦ answer_locally b answer
    | none ↦ proxy b request now_ms
  ]
]

unfoldable pub attach_panel : GuiBridge → ℕ → GuiBridge × Bytes
attach_panel b now_ms =
    let shown = record b { panel_attached = true; panel_visible = true; js_queue = [] } in
    let asked = if b.connected then subscribe shown now_ms else shown in
    let replayed = replay asked in
    (
      replayed,
      codes "{\"ok\":true,\"replayed\":" ++ (to_decimal (length replayed.cache) ++ codes "}"),
    )

unfoldable pub set_local_action :
    GuiBridge → Option (Bytes → Bytes → Option LocalAnswer) → GuiBridge
set_local_action b handler =
    let c = b.config in record b { config = record c { local_action = handler } }

unfoldable pub detach_panel : GuiBridge → GuiBridge
detach_panel b = record b {
  panel_attached = false;
  panel_visible = false;
  js_queue = [];
  pending = [];
  subscribe_request_id = 0;
  subscribed = false;
}

unfoldable pub set_panel_visible : GuiBridge → Bool → GuiBridge
set_panel_visible b visible =
    let turned = record b { panel_visible = visible } in
    if bool_eq b.panel_visible visible
    then b
    else if visible && b.panel_attached
    then replay turned
    else turned

-- The answer of the console to a request that is still pending.
unfoldable pub on_response : GuiBridge → GuiResponse → GuiBridge
on_response b response = elim (find_pending response.request_id b.pending) [
  | none ↦ b
  | some entry ↦
      settle (record b { pending = erase_pending response.request_id b.pending })
        response.request_id response entry.internal
]

unfoldable pub is_cached : Bytes → List GuiEvent → Bool
is_cached name [] = false
is_cached name (held ∷ cache) = if text_eq held.event name then true else is_cached name cache

-- The first event of that name takes the new payload, and a new name goes to the end.
unfoldable pub remember : GuiEvent → List GuiEvent → List GuiEvent
remember event [] = event ∷ []
remember event (held ∷ cache) =
    if text_eq held.event event.event
    then record held { payload_json = event.payload_json } ∷ cache
    else held ∷ remember event cache

-- `while (notify_queue_.size() > max) notify_queue_.pop_front()`.
unfoldable pub pop_to : ℕ → List GuiEvent → List GuiEvent
pop_to max [] = []
pop_to max (event ∷ queue) =
    let rest = pop_to max queue in if leb (length (event ∷ queue)) max then event ∷ queue else rest

unfoldable pub on_event : GuiBridge → GuiEvent → GuiBridge
on_event b event =
    let noted = record b {
      cache = remember event b.cache;
      notify_queue = pop_to b.config.max_js_queue (b.notify_queue ++ event ∷ []);
    } in
    if can_see_events b
    then enqueue_js noted (build_js_event event)
    else if is_cached event.event b.cache
    then record noted { dropped_events = next64 b.dropped_events }
    else noted

unfoldable pub on_socket_frame : GuiBridge → Bytes → GuiBridge × Bool
on_socket_frame b frame =
    if not (is_gui_frame frame) then (b, false) else elim (parse_gui_response frame) [
      | some response ↦ (on_response b response, true)
      | none ↦ elim (parse_gui_event frame) [
        | some event ↦ (on_event b event, true)
        | none ↦ (b, true)
      ]
    ]

unfoldable pub set_connected : GuiBridge → Bool → ℕ → GuiBridge
set_connected b connected now_ms =
    let turned = record b { connected = connected } in
    let lost = record turned { subscribed = false } in
    if bool_eq b.connected connected
    then b
    else enqueue_status (
        if not connected
        then fail_all lost (codes "console disconnected")
        else if b.panel_attached
        then subscribe turned now_ms
        else turned)

unfoldable pub tick : GuiBridge → ℕ → GuiBridge
tick b now_ms = settle_each (codes "request timed out") (sort_ids (expired_ids now_ms b.pending)) b

unfoldable pub take_socket_frames : GuiBridge → GuiBridge × List Bytes
take_socket_frames b = (record b { socket_frames = [] }, b.socket_frames)

unfoldable pub take_js_messages : GuiBridge → ℕ → GuiBridge × List JsMessage
take_js_messages b max =
    let count = min max (length b.js_queue) in
    (record b { js_queue = drop count b.js_queue }, take count b.js_queue)

unfoldable pub take_notification_events : GuiBridge → ℕ → GuiBridge × List GuiEvent
take_notification_events b max =
    let count = min max (length b.notify_queue) in
    (record b { notify_queue = drop count b.notify_queue }, take count b.notify_queue)

-- Every call of the bridge, by whichever thread.
pub data Call : Type 0 where
  submits : Bytes → ℕ → Call
  attaches : ℕ → Call
  installs : Option (Bytes → Bytes → Option LocalAnswer) → Call
  detaches : Call
  shows : Bool → Call
  receives : Bytes → ℕ → Call
  connects : Bool → ℕ → Call
  ticks : ℕ → Call
  takes_frames : Call
  takes_messages takes_events : ℕ → Call

unfoldable pub step : GuiBridge → Call → GuiBridge
step b (submits json now_ms) = (submit b json now_ms).0
step b (attaches now_ms) = (attach_panel b now_ms).0
step b (installs handler) = set_local_action b handler
step b detaches = detach_panel b
step b (shows visible) = set_panel_visible b visible
step b (receives frame now_ms) = (on_socket_frame b frame).0
step b (connects connected now_ms) = set_connected b connected now_ms
step b (ticks now_ms) = tick b now_ms
step b takes_frames = (take_socket_frames b).0
step b (takes_messages max) = (take_js_messages b max).0
step b (takes_events max) = (take_notification_events b max).0

unfoldable pub run : GuiBridge → List Call → GuiBridge
run b [] = b
run b (call ∷ calls) = run (step b call) calls
