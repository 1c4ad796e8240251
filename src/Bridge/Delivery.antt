-- ===== src/Bridge/Delivery.antt =====
-- What becomes of one request, from the panel's message to the answer that the panel is handed.
use zoal_atc.Common.{
  ℕ, ◌<◌, ◌^◌, ◌≡◌, ◌≢◌, refl, Bool, true, false, [], ◌∷◌, ◌++◌, none, some, arith, map, Bytes,
  length, codes, text_eq,
}
use zoal_atc.Json.Escape.{shown}
use zoal_atc.Json.Object.{lookup_field}
use zoal_atc.Json.Values.{Value, str, obj, end, member, print, IsWellFormed}
use zoal_atc.Frames.{
  GuiResponse, PanelRequest, is_gui_frame, build_js_response, build_gui_request, has_prefix,
}
use zoal_atc.Frames.Build.{number-IsWellFormed}
use zoal_atc.Frames.Parse.{
  kept, response_members, parse_gui_response-print, parse_panel_request-print, is_gui_frame-print,
}
use zoal_atc.Bridge.State.{
  Pending, GuiBridge, console_event_channel, next64, add64, find_pending, erase_pending,
  put_pending,
}
use zoal_atc.Bridge.Settle.{enqueue_js, settle}
use zoal_atc.Bridge.Handlers.{receipt, local_answer, proxy, submit, on_response, on_socket_frame}

abbrev pub asking : Bytes → Value → Bytes
asking action payload =
    print (obj (member (codes "action") (str action) (member (codes "payload") payload end)))

proxy-accepts :
    (b : GuiBridge) (request : PanelRequest) (now : ℕ)
    → b.connected ≡ true
    → length b.pending < b.config.max_pending
    → proxy b request now ≡ (
      record b {
        next_request_id = next64 b.next_request_id;
        pending =
            put_pending
              (record {
                id = b.next_request_id;
                deadline_ms = add64 now b.config.request_timeout_ms;
                internal = false;
              })
              b.pending;
        socket_frames =
            b.socket_frames
            ++ build_gui_request (record {
              request_id = b.next_request_id;
              action = request.action;
              payload_json = request.payload_json;
            })
              ∷ [];
      },
      receipt b.next_request_id,
    )
unfolding proxy
proxy-accepts b request now on room = ground arith

-- A panel's message of an action that is not empty and a well-formed payload, which no local
-- handler answers, while the console is there and fewer than the cap are in flight, is accepted
-- under the next id: the request is pending with its deadline, its frame is queued for the socket,
-- and nothing else of the bridge changes.
pub submit-accepts :
    (b : GuiBridge) (action : Bytes) (payload : Value) (now : ℕ)
    → action ≢ []
    → IsWellFormed payload
    → local_answer b.config.local_action
        (record { action = map shown action; payload_json = kept payload })
      ≡ none
    → b.connected ≡ true
    → length b.pending < b.config.max_pending
    → submit b (asking action payload) now ≡ (
      record b {
        next_request_id = next64 b.next_request_id;
        pending =
            put_pending
              (record {
                id = b.next_request_id;
                deadline_ms = add64 now b.config.request_timeout_ms;
                internal = false;
              })
              b.pending;
        socket_frames =
            b.socket_frames
            ++ build_gui_request (record {
              request_id = b.next_request_id;
              action = map shown action;
              payload_json = kept payload;
            })
              ∷ [];
      },
      receipt b.next_request_id,
    )
unfolding submit
submit-accepts b action payload now ne w none_local on room =
    rw (parse_panel_request-print action payload ne w, submit, none_local)
      (proxy-accepts b (record { action = map shown action; payload_json = kept payload }) now on
        room)

on_response-shows :
    (b : GuiBridge) (response : GuiResponse) (entry : Pending)
    → find_pending response.request_id b.pending ≡ some entry
    → entry.internal ≡ false
    → b.panel_attached ≡ true
    → length b.js_queue < b.config.max_js_queue
    → on_response b response ≡ record b {
      pending = erase_pending response.request_id b.pending;
      js_queue =
          b.js_queue
          ++ record { channel = console_event_channel; payload = build_js_response response } ∷ [];
    }
unfolding on_response settle enqueue_js
on_response-shows b response entry found ext on room = rw (found, on_response, ext) (ground arith)

response_is_gui :
    (id : ℕ) (ok : Bool) (payload : Value) (error : Bytes)
    → IsWellFormed payload
    → is_gui_frame (print (obj (response_members id ok payload error))) ≡ true
unfolding lookup_field has_prefix text_eq
response_is_gui id ok payload error w =
    is_gui_frame-print (response_members id ok payload error) (codes "gui_response")
      (tt, (number-IsWellFormed id, (tt, (w, (tt, tt))))) refl

-- The console's answer, read off the socket as a compact JSON object, where its id is below 2 ^ 64
-- and pending for the panel, its payload is well formed, the panel is attached and its queue has
-- room: the request is no longer pending, the envelope of the answer (control characters of the
-- error `shown`) is queued last, nothing else of the bridge changes, and the frame counts as
-- handled.
pub on_socket_frame-answers :
    (b : GuiBridge) (id : ℕ) (ok : Bool) (payload : Value) (error : Bytes) (entry : Pending)
    → id < 2 ^ 64
    → IsWellFormed payload
    → find_pending id b.pending ≡ some entry
    → entry.internal ≡ false
    → b.panel_attached ≡ true
    → length b.js_queue < b.config.max_js_queue
    → on_socket_frame b (print (obj (response_members id ok payload error))) ≡ (
      record b {
        pending = erase_pending id b.pending;
        js_queue =
            b.js_queue
            ++ record {
              channel = console_event_channel;
              payload = build_js_response (record {
                request_id = id;
                ok = ok;
                payload_json = kept payload;
                error = map shown error;
              });
            }
              ∷ [];
      },
      true,
    )
unfolding on_socket_frame
on_socket_frame-answers b id ok payload error entry lt w found ext on room =
    let response : GuiResponse = record {
      request_id = id;
      ok = ok;
      payload_json = kept payload;
      error = map shown error;
    } in
    rw (
      response_is_gui id ok payload error w,
      parse_gui_response-print id ok payload error lt w,
      on_response-shows b response entry found ext on room,
    )
