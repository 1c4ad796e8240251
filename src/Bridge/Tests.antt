-- ===== src/Bridge/Tests.antt =====
-- Runs of the bridge, and its theorems at them.
use zoal_atc.Common.{◌≡◌, refl, true, false, List, [], ◌∷◌, ◌++◌, none, some, codes, map, arith}
use zoal_atc.Json.Escape.{shown}
use zoal_atc.Json.Values.{Value, bool, obj, end, member, print}
use zoal_atc.Frames.{GuiResponse, build_gui_request, build_js_response}
use zoal_atc.Frames.Parse.{kept, response_members}
use zoal_atc.Bridge.State.{
  GuiBridge, GuiBridgeConfig, console_event_channel, new_bridge, next64, add64, find_pending,
  erase_pending, put_pending,
}
use zoal_atc.Bridge.Handlers.{
  Call, submits, attaches, connects, ticks, receipt, submit, on_response, on_socket_frame,
  set_connected, tick, run,
}
use zoal_atc.Bridge.Owed.{IsBounded}
use zoal_atc.Bridge.Bounds.{run-IsBounded}
use zoal_atc.Bridge.Pending.{Distinct, live}
use zoal_atc.Bridge.Tracking.{IsTracked}
use zoal_atc.Bridge.Connection.{set_connected-settles}
use zoal_atc.Bridge.Runs.{run-new-IsTracked, tick-pending, on_response-once}
use zoal_atc.Bridge.Delivery.{asking, submit-accepts, on_socket_frame-answers}

abbrev config : GuiBridgeConfig
config = record {
  request_timeout_ms = 8000;
  max_pending = 2;
  max_js_queue = 3;
  topics = codes "plan" ∷ [];
  local_action = none;
}

-- The panel's request 5 and the bridge's own 4 are in flight.
abbrev busy : GuiBridge
busy = record (new_bridge config) {
  next_request_id = 6;
  pending =
      record { id = 5; deadline_ms = 9000; internal = false }
      ∷ record { id = 4; deadline_ms = 8500; internal = true }
      ∷ [];
  subscribe_request_id = 4;
  connected = true;
  panel_attached = true;
  panel_visible = true;
}

abbrev payload : Value
payload = obj (member (codes "ok") (bool false) end)

busy-Distinct : Distinct busy.pending
unfolding find_pending
busy-Distinct = (refl, (refl, tt))

found : find_pending 5 busy.pending ≡ some (record { id = 5; deadline_ms = 9000; internal = false })
unfolding find_pending
found = refl

on_socket_frame-answers_example :
    on_socket_frame busy (print (obj (response_members 5 true payload []))) ≡ (
      record busy {
        pending = erase_pending 5 busy.pending;
        js_queue =
            busy.js_queue
            ++ record {
              channel = console_event_channel;
              payload = build_js_response (record {
                request_id = 5;
                ok = true;
                payload_json = kept payload;
                error = map shown [];
              });
            }
              ∷ [];
      },
      true,
    )
on_socket_frame-answers_example =
    on_socket_frame-answers busy 5 true payload []
      (record { id = 5; deadline_ms = 9000; internal = false }) (omega arith) (tt, tt) found refl
      refl (omega arith)

abbrev connected : GuiBridge
connected = record (new_bridge config) { connected = true; panel_attached = true }

submit-accepts_example : submit connected (asking (codes "load") payload) 100 ≡ (
  record connected {
    next_request_id = next64 1;
    pending =
        put_pending
          (record { id = 1; deadline_ms = add64 100 8000; internal = false })
          connected.pending;
    socket_frames =
        connected.socket_frames
        ++ build_gui_request (record {
          request_id = 1;
          action = map shown (codes "load");
          payload_json = kept payload;
        })
          ∷ [];
  },
  receipt 1,
)
submit-accepts_example =
    submit-accepts connected (codes "load") payload 100 (λ e. cc) (tt, tt) refl refl (omega arith)

abbrev calls : List Call
calls = attaches 0 ∷ connects true 10 ∷ submits (asking (codes "load") payload) 20 ∷ ticks 9000 ∷ []

run-new-IsTracked_example : IsTracked (run (new_bridge config) calls)
run-new-IsTracked_example = run-new-IsTracked config calls (omega arith)

new-IsBounded : IsBounded (new_bridge config)
new-IsBounded = record {
  room = omega arith;
  js = omega arith;
  notify = omega arith;
  detached = λ e. refl;
}

run-IsBounded_example : IsBounded (run (new_bridge config) calls)
run-IsBounded_example = run-IsBounded (new_bridge config) calls new-IsBounded

set_connected-settles_example :
    ((set_connected busy false 50).pending ≡ [])
    × ((set_connected busy false 50).subscribed ≡ false)
    × ((set_connected busy false 50).connected ≡ false)
set_connected-settles_example = set_connected-settles busy 50 refl

tick-pending_example : (tick busy 8600).pending ≡ live 8600 busy.pending
tick-pending_example = tick-pending busy 8600 busy-Distinct

abbrev answer : GuiResponse
answer = record { request_id = 5; ok = true; payload_json = []; error = [] }

abbrev late : GuiResponse
late = record { request_id = 5; ok = false; payload_json = []; error = codes "late" }

on_response-once_example : on_response (on_response busy answer) late ≡ on_response busy answer
on_response-once_example = on_response-once busy answer late refl
