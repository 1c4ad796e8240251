-- ===== src/Bridge/Settle.antt =====
-- The operations under the lock: `enqueue_js_locked` to `subscribe_locked`, and `can_see_events_locked`.
use zoal_atc.Common.{
  ℕ, Bool, true, false, not, ◌&&◌, List, [], ◌∷◌, ◌++◌, none, some, ◌==◌, leb, if◌then◌else◌, Bytes,
  length, drop,
}
use zoal_atc.Frames.{
  GuiResponse, GuiEvent, build_js_response, build_js_event, build_js_status, build_gui_subscribe,
}
use zoal_atc.Bridge.State.{
  JsMessage, GuiBridge, console_event_channel, next64, add64, find_pending, erase_pending,
  put_pending, sort_ids, all_ids,
}

-- The oldest message makes room for the new one.
unfoldable pub enqueue_js : GuiBridge → Bytes → GuiBridge
enqueue_js b payload =
    let message : JsMessage = record { channel = console_event_channel; payload = payload } in
    if not b.panel_attached
    then b
    else if leb b.config.max_js_queue (length b.js_queue)
    then record b {
      js_queue = drop 1 b.js_queue ++ message ∷ [];
      dropped_events = next64 b.dropped_events;
    }
    else record b { js_queue = b.js_queue ++ message ∷ [] }

unfoldable pub enqueue_status : GuiBridge → GuiBridge
enqueue_status b = enqueue_js b (
    build_js_status (record {
      connected = b.connected;
      subscribed = b.subscribed;
      pending = length b.pending;
      dropped_events = b.dropped_events;
    }))

unfoldable pub replay_events : List GuiEvent → GuiBridge → GuiBridge
replay_events [] b = b
replay_events (event ∷ events) b = replay_events events (enqueue_js b (build_js_event event))

unfoldable pub replay : GuiBridge → GuiBridge
replay b = replay_events b.cache (enqueue_status b)

abbrev pub bool_eq : Bool → Bool → Bool
bool_eq true b = b
bool_eq false b = not b

-- The bridge's own subscribe settles `subscribed_`; any other answer goes to an attached panel.
unfoldable pub settle : GuiBridge → ℕ → GuiResponse → Bool → GuiBridge
settle b request_id response internal =
    let retired = if request_id == b.subscribe_request_id then 0 else b.subscribe_request_id in
    let settled = record b { subscribe_request_id = retired; subscribed = response.ok } in
    let changed = not (bool_eq b.subscribed response.ok) in
    if internal
    then (if changed then enqueue_status settled else settled)
    else if not b.panel_attached
    then b
    else enqueue_js b (build_js_response response)

abbrev pub failure : ℕ → Bytes → GuiResponse
failure id reason = record { request_id = id; ok = false; payload_json = []; error = reason }

-- One round of the loops of `tick` and `fail_all_locked`. (An id that is not pending is none of
-- those the loops have collected.)
unfoldable pub settle_failed : Bytes → GuiBridge → ℕ → GuiBridge
settle_failed reason b id = elim (find_pending id b.pending) [
  | none ↦ b
  | some p ↦
      settle (record b { pending = erase_pending id b.pending }) id (failure id reason) p.internal
]

unfoldable pub settle_each : Bytes → List ℕ → GuiBridge → GuiBridge
settle_each reason [] b = b
settle_each reason (id ∷ ids) b = settle_each reason ids (settle_failed reason b id)

unfoldable pub fail_all : GuiBridge → Bytes → GuiBridge
fail_all b reason = settle_each reason (sort_ids (all_ids b.pending)) b

unfoldable pub subscribe : GuiBridge → ℕ → GuiBridge
subscribe b now_ms =
    let retired =
      if b.subscribe_request_id == 0
      then b.pending
      else erase_pending b.subscribe_request_id b.pending in
    let id = b.next_request_id in
    record b {
      next_request_id = next64 id;
      subscribe_request_id = id;
      pending =
          put_pending
            (record {
              id = id;
              deadline_ms = add64 now_ms b.config.request_timeout_ms;
              internal = true;
            })
            retired;
      socket_frames = b.socket_frames ++ build_gui_subscribe id b.config.topics ∷ [];
    }

abbrev pub can_see_events : GuiBridge → Bool
can_see_events b = b.panel_attached && b.panel_visible
