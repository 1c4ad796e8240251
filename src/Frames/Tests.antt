-- ===== src/Frames/Tests.antt =====
-- The frames' theorems at concrete messages.
use zoal_atc.Common.{◌≡◌, ◌≢◌, refl, true, [], some, codes, Bytes, map, arith, text_eq}
use zoal_atc.Json.{json_raw_field}
use zoal_atc.Json.Escape.{shown}
use zoal_atc.Json.Object.{lookup_field, fields_of}
use zoal_atc.Json.Values.{
  Value, num, str, obj, end, member, print, quoted, IsWellFormed, MembersWellFormed,
}
use zoal_atc.Frames.{
  build_gui_request, parse_gui_response, is_gui_frame, has_prefix, frame_is, uint_field,
  string_field,
}
use zoal_atc.Frames.Build.{payload_text, payload_value}
use zoal_atc.Frames.Parse.{
  kept, response_members, parse_gui_response-print, event_members, is_gui_frame-print,
  build_gui_request-read,
}

abbrev payload : Value
payload =
    obj
      (member (codes "callsign") (str (codes "N\"1")) (member (codes "fl") (num (codes "350")) end))

payload-IsWellFormed : IsWellFormed payload
payload-IsWellFormed = ground arith

abbrev name : Bytes
name = codes "plan"

name-ne-nil : name ≢ []
name-ne-nil e = cc

parse_gui_response-print_example :
    parse_gui_response (print (obj (response_members 7 true payload (codes "none"))))
    ≡ some (record {
      request_id = 7;
      ok = true;
      payload_json = kept payload;
      error = map shown (codes "none");
    })
parse_gui_response-print_example =
    parse_gui_response-print 7 true payload (codes "none") (omega arith) payload-IsWellFormed

event-type :
    lookup_field (codes "type") (fields_of (event_members name payload))
    ≡ some (quoted (codes "gui_event"))
unfolding lookup_field text_eq
event-type = refl

event-MembersWellFormed : MembersWellFormed (event_members name payload)
event-MembersWellFormed = (tt, (tt, (payload-IsWellFormed, tt)))

is_gui_frame-print_example :
    is_gui_frame (print (obj (event_members name payload)))
    ≡ has_prefix (codes "gui_") (map shown (codes "gui_event"))
is_gui_frame-print_example =
    is_gui_frame-print (event_members name payload) (codes "gui_event") event-MembersWellFormed
      event-type

build_gui_request-read_example :
    let frame =
      build_gui_request
        (record { request_id = 9; action = name; payload_json = payload_text (some payload) }) in
    (frame_is frame (codes "gui_request") ≡ true)
    × (uint_field frame (codes "request_id") ≡ some 9)
    × (string_field frame (codes "action") ≡ some (map shown name))
    × (json_raw_field frame (codes "payload") ≡ some (print (payload_value (some payload))))
build_gui_request-read_example =
    build_gui_request-read 9 name (some payload) (omega arith) payload-IsWellFormed
