-- ===== src/Frames.antt =====
-- src/gui/gui_frames.cpp and include/zoal_atc/gui/gui_frames.hpp: the GUI frames of the socket and
-- the envelopes of the panel.
pub mod Build
pub mod Parse
mod Tests
use zoal_atc.Common.{
  ℕ, Bool, true, false, not, ◌&&◌, List, [], ◌∷◌, ◌++◌, Option, none, some, if◌then◌else◌, ◌>>=◌,
  ◌==◌, Bytes, codes, text_eq, to_decimal, read_digits,
}
use zoal_atc.Json.{json_escape, json_raw_field, json_unquote}

pub record GuiRequest : Type 0 where
  pub request_id : ℕ
  pub action : Bytes
  pub payload_json : Bytes

pub record GuiResponse : Type 0 where
  pub request_id : ℕ
  pub ok : Bool
  pub payload_json : Bytes
  pub error : Bytes

pub record GuiEvent : Type 0 where
  pub event : Bytes
  pub payload_json : Bytes

pub record PanelRequest : Type 0 where
  pub action : Bytes
  pub payload_json : Bytes

pub record GuiStatus : Type 0 where
  pub connected : Bool
  pub subscribed : Bool
  pub pending : ℕ
  pub dropped_events : ℕ

unfoldable pub json_value : Bytes → Bytes
json_value [] = codes "null"
json_value (c ∷ raw) = c ∷ raw

unfoldable pub string_field : Bytes → Bytes → Option Bytes
string_field json key = json_raw_field json key >>= json_unquote

-- `has_value() && *found == text`.
abbrev pub is_value : Option Bytes → Bytes → Bool
is_value none text = false
is_value (some found) text = text_eq found text

unfoldable pub frame_is : Bytes → Bytes → Bool
frame_is json type = is_value (string_field json (codes "type")) type

pub uint_value : Bytes → Option ℕ
uint_value [] = none
uint_value (c ∷ raw) = read_digits (c ∷ raw) 0

unfoldable pub uint_field : Bytes → Bytes → Option ℕ
unfolding uint_value
uint_field json key = json_raw_field json key >>= uint_value

unfoldable pub bool_field : Bytes → Bytes → Bool
bool_field json key = is_value (json_raw_field json key) (codes "true")

abbrev pub bool_text : Bool → Bytes
bool_text b = if b then codes "true" else codes "false"

unfoldable pub build_gui_request : GuiRequest → Bytes
unfolding json_value
build_gui_request request =
    codes "{\"type\":\"gui_request\",\"request_id\":"
    ++ (to_decimal request.request_id
        ++ (codes ",\"action\":\""
            ++ (json_escape request.action
                ++ (codes "\",\"payload\":" ++ (json_value request.payload_json ++ codes "}")))))

-- The topics from the second on.
topic_tail : List Bytes → Bytes
topic_tail [] = []
topic_tail (t ∷ topics) = codes ",\"" ++ (json_escape t ++ (codes "\"" ++ topic_tail topics))

topic_list : List Bytes → Bytes
topic_list [] = []
topic_list (t ∷ topics) = codes "\"" ++ (json_escape t ++ (codes "\"" ++ topic_tail topics))

unfoldable pub build_gui_subscribe : ℕ → List Bytes → Bytes
unfolding topic_list topic_tail
build_gui_subscribe request_id topics =
    codes "{\"type\":\"gui_subscribe\",\"request_id\":"
    ++ (to_decimal request_id ++ (codes ",\"topics\":[" ++ (topic_list topics ++ codes "]}")))

-- `has_value() && *payload != "null"` keeps the payload, else it stays empty.
abbrev pub payload_or_empty : Option Bytes → Bytes
payload_or_empty none = []
payload_or_empty (some payload) = if text_eq payload (codes "null") then [] else payload

abbrev pub value_or : Option Bytes → Bytes → Bytes
value_or none text = text
value_or (some found) text = found

unfoldable pub parse_gui_response : Bytes → Option GuiResponse
parse_gui_response frame = if not (frame_is frame (codes "gui_response")) then none else do
  request_id ← uint_field frame (codes "request_id")
  some (record {
    request_id = request_id;
    ok = bool_field frame (codes "ok");
    payload_json = payload_or_empty (json_raw_field frame (codes "payload"));
    error = value_or (string_field frame (codes "error")) [];
  })

-- `has_value()` and not empty.
abbrev pub non_empty : Option Bytes → Option Bytes
non_empty none = none
non_empty (some []) = none
non_empty (some (c ∷ text)) = some (c ∷ text)

unfoldable pub parse_gui_event : Bytes → Option GuiEvent
parse_gui_event frame = if not (frame_is frame (codes "gui_event")) then none else do
  name ← non_empty (string_field frame (codes "event"))
  some (record {
    event = name;
    payload_json = payload_or_empty (json_raw_field frame (codes "payload"));
  })

-- `type->rfind("gui_", 0) == 0`.
unfoldable pub has_prefix : Bytes → Bytes → Bool
has_prefix [] text = true
has_prefix (c ∷ prefix) [] = false
has_prefix (c ∷ prefix) (d ∷ text) = c == d && has_prefix prefix text

gui_type : Option Bytes → Bool
gui_type none = false
gui_type (some type) = has_prefix (codes "gui_") type

unfoldable pub is_gui_frame : Bytes → Bool
unfolding gui_type has_prefix
is_gui_frame frame = gui_type (string_field frame (codes "type"))

unfoldable pub parse_panel_request : Bytes → Option PanelRequest
parse_panel_request message = do
  action ← non_empty (string_field message (codes "action"))
  some (record {
    action = action;
    payload_json = payload_or_empty (json_raw_field message (codes "payload"));
  })

unfoldable pub build_js_response : GuiResponse → Bytes
unfolding json_value
build_js_response response =
    codes "{\"kind\":\"response\",\"request_id\":"
    ++ (to_decimal response.request_id
        ++ (codes ",\"ok\":"
            ++ (bool_text response.ok
                ++ (codes ",\"payload\":"
                    ++ (json_value response.payload_json
                        ++ (codes ",\"error\":\""
                            ++ (json_escape response.error ++ codes "\"}")))))))

unfoldable pub build_js_event : GuiEvent → Bytes
unfolding json_value
build_js_event event =
    codes "{\"kind\":\"event\",\"event\":\""
    ++ (json_escape event.event
        ++ (codes "\",\"payload\":" ++ (json_value event.payload_json ++ codes "}")))

unfoldable pub build_js_status : GuiStatus → Bytes
build_js_status status =
    codes "{\"kind\":\"status\",\"connected\":"
    ++ (bool_text status.connected
        ++ (codes ",\"subscribed\":"
            ++ (bool_text status.subscribed
                ++ (codes ",\"pending\":"
                    ++ (to_decimal status.pending
                        ++ (codes ",\"dropped_events\":"
                            ++ (to_decimal status.dropped_events ++ codes "}")))))))

unfoldable pub build_request_ack : Bool → ℕ → Bytes → Bytes
build_request_ack accepted request_id error =
    codes "{\"accepted\":"
    ++ (bool_text accepted
        ++ (codes ",\"request_id\":"
            ++ (to_decimal request_id
                ++ (codes ",\"error\":\"" ++ (json_escape error ++ codes "\"}")))))
