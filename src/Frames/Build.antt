-- ===== src/Frames/Build.antt =====
-- The builders of src/gui/gui_frames.cpp against the texts of JSON values.
use zoal_atc.Common.{
  ℕ, ◌≡◌, refl, Bool, true, false, List, [], ◌∷◌, Option, none, some, Bytes, codes, to_decimal,
  to_decimal-digits, to_decimal-ne-nil, IsDigit, All, append_assoc, arith,
}
use zoal_atc.Json.{json_escape}
use zoal_atc.Json.Values.{
  Value, null, bool, num, str, arr, obj, Items, nil, item, Members, end, member, print, print_items,
  print_more, number_char, IsWellFormed,
}
use zoal_atc.Frames.{
  topic_tail, topic_list, bool_text, GuiStatus, json_value, build_gui_request, build_gui_subscribe,
  build_js_response, build_js_event, build_js_status, build_request_ack,
}

-- A payload as its text; the source keeps `null` as the empty text.
abbrev pub payload_text : Option Value → Bytes
payload_text none = []
payload_text (some v) = print v

abbrev pub payload_value : Option Value → Value
payload_value none = null
payload_value (some v) = v

abbrev pub PayloadWellFormed : Option Value → Type 0
PayloadWellFormed none = Unit
PayloadWellFormed (some v) = IsWellFormed v

digit-number_char : (c : ℕ) → IsDigit c → number_char c ≡ true
digit-number_char c h = ground arith

pub number-IsWellFormed : (n : ℕ) → IsWellFormed (num (to_decimal n))
number-IsWellFormed n = (to_decimal-ne-nil n, digits (to_decimal n) (to_decimal-digits n))
  where
    digits : (text : Bytes) → All IsDigit text → All (λ c. number_char c ≡ true) text
    digits [] h = tt
    digits (c ∷ text) (h, hs) = (digit-number_char c h, digits text hs)

json_value-print : (v : Value) → IsWellFormed v → json_value (print v) ≡ print v
unfolding json_value
json_value-print null h = refl
json_value-print (bool true) h = refl
json_value-print (bool false) h = refl
json_value-print (num []) h = absurd (h.0 refl)
json_value-print (num (c ∷ text)) h = refl
json_value-print (str s) h = refl
json_value-print (arr xs) h = refl
json_value-print (obj ms) h = refl

json_value-payload :
    (p : Option Value) → PayloadWellFormed p → json_value (payload_text p) ≡ print (payload_value p)
json_value-payload none h = unfold json_value in refl
json_value-payload (some v) h = json_value-print v h

abbrev pub request_members : ℕ → Bytes → Option Value → Members
request_members id action payload = member (codes "type") (str (codes "gui_request")) (
    member (codes "request_id") (num (to_decimal id))
      (member (codes "action") (str action) (member (codes "payload") (payload_value payload) end)))

-- The frame of a request with a well-formed payload or none is the text of one JSON object of its
-- four fields, whatever the action holds; without a payload it has the payload `null`.
pub build_gui_request-print :
    (id : ℕ) (action : Bytes) (payload : Option Value)
    → PayloadWellFormed payload
    → build_gui_request
        (record { request_id = id; action = action; payload_json = payload_text payload })
      ≡ print (obj (request_members id action payload))
unfolding build_gui_request json_escape
build_gui_request-print id action payload h = rw (json_value-payload payload h) (simp append_assoc)

abbrev pub topic_items : List Bytes → Items
topic_items [] = nil
topic_items (t ∷ topics) = item (str t) (topic_items topics)

topic_tail-print : (topics : List Bytes) → topic_tail topics ≡ print_more (topic_items topics)
unfolding topic_tail
topic_tail-print [] = refl
topic_tail-print (t ∷ topics) = rw (topic_tail-print topics) (simp append_assoc)

topic_list-print : (topics : List Bytes) → topic_list topics ≡ print_items (topic_items topics)
unfolding topic_list
topic_list-print [] = refl
topic_list-print (t ∷ topics) = rw (topic_tail-print topics) (simp append_assoc)

-- The frame of a subscription is the text of one JSON object, whose topics are the array of the
-- given strings in their order, whatever the strings hold.
pub build_gui_subscribe-print :
    (id : ℕ) (topics : List Bytes)
    → build_gui_subscribe id topics
      ≡ print (
          obj (
            member (codes "type") (str (codes "gui_subscribe")) (
              member
                (codes "request_id")
                (num (to_decimal id))
                (member (codes "topics") (arr (topic_items topics)) end))))
unfolding build_gui_subscribe json_escape
build_gui_subscribe-print id topics = rw (topic_list-print topics) (simp append_assoc)

bool_text-print : (b : Bool) → bool_text b ≡ print (bool b)
bool_text-print true = refl
bool_text-print false = refl

-- The envelope of an answer with a well-formed payload or none is the text of one JSON object of
-- its five fields, whatever the error holds; without a payload it has the payload `null`.
pub build_js_response-print :
    (id : ℕ) (ok : Bool) (payload : Option Value) (error : Bytes)
    → PayloadWellFormed payload
    → build_js_response
        (record { request_id = id; ok = ok; payload_json = payload_text payload; error = error })
      ≡ print (
          obj (
            member (codes "kind") (str (codes "response")) (
              member (codes "request_id") (num (to_decimal id)) (
                member (codes "ok") (bool ok) (
                  member
                    (codes "payload")
                    (payload_value payload)
                    (member (codes "error") (str error) end))))))
unfolding build_js_response json_escape
build_js_response-print id ok payload error h =
    rw (json_value-payload payload h, bool_text-print ok) (simp append_assoc)

-- The envelope of an event with a well-formed payload or none is the text of one JSON object of
-- its three fields, whatever its name holds.
pub build_js_event-print :
    (name : Bytes) (payload : Option Value)
    → PayloadWellFormed payload
    → build_js_event (record { event = name; payload_json = payload_text payload })
      ≡ print (
          obj (
            member (codes "kind") (str (codes "event")) (
              member
                (codes "event")
                (str name)
                (member (codes "payload") (payload_value payload) end))))
unfolding build_js_event json_escape
build_js_event-print name payload h = rw (json_value-payload payload h) (simp append_assoc)

-- The envelope of the bridge's status is one well-formed JSON object of its five fields.
pub build_js_status-print :
    (s : GuiStatus)
    → build_js_status s
      ≡ print (
          obj (
            member (codes "kind") (str (codes "status")) (
              member (codes "connected") (bool s.connected) (
                member (codes "subscribed") (bool s.subscribed) (
                  member
                    (codes "pending")
                    (num (to_decimal s.pending))
                    (member (codes "dropped_events") (num (to_decimal s.dropped_events)) end))))))
unfolding build_js_status json_escape
build_js_status-print s =
    rw (bool_text-print s.connected, bool_text-print s.subscribed) (simp append_assoc)

-- The receipt of a panel's message is one well-formed JSON object of its three fields, whatever the
-- error holds.
pub build_request_ack-print :
    (accepted : Bool) (id : ℕ) (error : Bytes)
    → build_request_ack accepted id error
      ≡ print (
          obj (
            member (codes "accepted") (bool accepted) (
              member
                (codes "request_id")
                (num (to_decimal id))
                (member (codes "error") (str error) end))))
unfolding build_request_ack json_escape
build_request_ack-print accepted id error = rw (bool_text-print accepted) (simp append_assoc)
