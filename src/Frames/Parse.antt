-- ===== src/Frames/Parse.antt =====
-- The parsers of src/gui/gui_frames.cpp on the console's frames and the panel's messages.
use zoal_atc.Common.{
  ℕ, ◌<◌, ◌^◌, ◌≡◌, ◌≢◌, refl, ap, ◌∙◌, Bool, true, false, [], ◌∷◌, Option, none, some, Bytes,
  codes, to_decimal, read_digits, read_digits-to_decimal, to_decimal-ne-nil, map, ◌>>=◌, text_eq,
  arith,
}
use zoal_atc.Json.{json_raw_field, json_unquote}
use zoal_atc.Json.Escape.{shown, unquote-escape}
use zoal_atc.Json.Object.{lookup_field, fields_of, json_raw_field-print}
use zoal_atc.Json.Values.{
  Value, null, bool, num, str, arr, obj, Members, end, member, quoted, print, IsWellFormed,
  MembersWellFormed,
}
use zoal_atc.Frames.{
  is_value, non_empty, has_prefix, build_gui_request, frame_is, string_field, uint_field,
  bool_field, payload_or_empty, uint_value, parse_gui_response, parse_gui_event, is_gui_frame,
  parse_panel_request,
}
use zoal_atc.Frames.Build.{
  number-IsWellFormed, payload_text, payload_value, PayloadWellFormed, request_members,
  build_gui_request-print,
}

-- A payload as the plugin keeps it: `null` as the empty text, any other value as it was written.
abbrev pub kept : Value → Bytes
kept null = []
kept v = print v

abbrev pub response_members : ℕ → Bool → Value → Bytes → Members
response_members id ok payload error = member (codes "type") (str (codes "gui_response")) (
    member (codes "request_id") (num (to_decimal id)) (
      member (codes "ok") (bool ok)
        (member (codes "payload") payload (member (codes "error") (str error) end))))

string_field-print :
    (key : Bytes) (ms : Members)
    → MembersWellFormed ms
    → string_field (print (obj ms)) key ≡ (lookup_field key (fields_of ms) >>= json_unquote)
unfolding string_field
string_field-print key ms h =
    ap (λ (r : Option Bytes). r >>= json_unquote) (json_raw_field-print key ms h)

payload_or_empty-kept : (v : Value) → IsWellFormed v → payload_or_empty (some (print v)) ≡ kept v
unfolding text_eq
payload_or_empty-kept null h = refl
payload_or_empty-kept (bool true) h = refl
payload_or_empty-kept (bool false) h = refl
payload_or_empty-kept (num []) h = refl
payload_or_empty-kept (num (c ∷ text)) h = ground arith
payload_or_empty-kept (str s) h = refl
payload_or_empty-kept (arr xs) h = refl
payload_or_empty-kept (obj ms) h = refl

uint_value-to_decimal : (id : ℕ) → id < 2 ^ 64 → uint_value (to_decimal id) ≡ some id
unfolding uint_value read_digits
uint_value-to_decimal id h =
    uint_value-read (to_decimal id) (to_decimal-ne-nil id) ∙ read_digits-to_decimal id h
  where
    uint_value-read : (raw : Bytes) → raw ≢ [] → uint_value raw ≡ read_digits raw 0
    uint_value-read [] ne = absurd (ne refl)
    uint_value-read (c ∷ raw) ne = refl

-- The readers at a key whose value is known.
module _ (key : Bytes) (ms : Members) (h : MembersWellFormed ms) where
  raw_field-at :
      {raw : Bytes}
      → lookup_field key (fields_of ms) ≡ some raw
      → json_raw_field (print (obj ms)) key ≡ some raw
  raw_field-at e = json_raw_field-print key ms h ∙ e

  string_field-at :
      (s : Bytes)
      → lookup_field key (fields_of ms) ≡ some (quoted s)
      → string_field (print (obj ms)) key ≡ some (map shown s)
  unfolding string_field
  string_field-at s e =
      ap (λ (r : Option Bytes). r >>= json_unquote) (raw_field-at e) ∙ unquote-escape s

  uint_field-at :
      (n : ℕ)
      → n < 2 ^ 64
      → lookup_field key (fields_of ms) ≡ some (to_decimal n)
      → uint_field (print (obj ms)) key ≡ some n
  unfolding uint_field
  uint_field-at n lt e =
      ap (λ (r : Option Bytes). r >>= uint_value) (raw_field-at e) ∙ uint_value-to_decimal n lt

  bool_field-at :
      (b : Bool)
      → lookup_field key (fields_of ms) ≡ some (print (bool b))
      → bool_field (print (obj ms)) key ≡ b
  unfolding bool_field text_eq
  bool_field-at true e = ap (λ (r : Option Bytes). is_value r (codes "true")) (raw_field-at e)
  bool_field-at false e = ap (λ (r : Option Bytes). is_value r (codes "true")) (raw_field-at e)

-- The console's answer to a request, as a compact JSON object with an id below 2 ^ 64 and a well-
-- formed payload, is read as it was written: the id, the outcome, the payload as a text (`null` as
-- the empty one) and the error `shown`, with a `?` for each control character that has no short
-- escape.
pub parse_gui_response-print :
    (id : ℕ) (ok : Bool) (payload : Value) (error : Bytes)
    → id < 2 ^ 64
    → IsWellFormed payload
    → parse_gui_response (print (obj (response_members id ok payload error)))
      ≡ some (record {
        request_id = id;
        ok = ok;
        payload_json = kept payload;
        error = map shown error;
      })
unfolding parse_gui_response frame_is lookup_field text_eq
parse_gui_response-print id ok payload error h w =
    let ms = response_members id ok payload error in
    let wf : MembersWellFormed ms = (tt, (number-IsWellFormed id, (tt, (w, (tt, tt))))) in
    rw (
      string_field-at (codes "type") ms wf (codes "gui_response") refl,
      uint_field-at (codes "request_id") ms wf id h refl,
      bool_field-at (codes "ok") ms wf ok refl,
      raw_field-at (codes "payload") ms wf {raw = print payload} refl,
      string_field-at (codes "error") ms wf error refl,
      payload_or_empty-kept payload w,
    )

abbrev pub event_members : Bytes → Value → Members
event_members name payload =
    member (codes "type") (str (codes "gui_event"))
      (member (codes "event") (str name) (member (codes "payload") payload end))

non_empty-shown : (s : Bytes) → s ≢ [] → non_empty (some (map shown s)) ≡ some (map shown s)
non_empty-shown [] h = absurd (h refl)
non_empty-shown (c ∷ s) h = refl

-- A pushed event with a name that is not empty and a well-formed payload, as a compact JSON
-- object, is read as it was written: its name `shown`, and its payload as a text (`null` as the
-- empty one).
pub parse_gui_event-print :
    (name : Bytes) (payload : Value)
    → name ≢ []
    → IsWellFormed payload
    → parse_gui_event (print (obj (event_members name payload)))
      ≡ some (record { event = map shown name; payload_json = kept payload })
unfolding parse_gui_event frame_is lookup_field text_eq
parse_gui_event-print name payload h w =
    let ms = event_members name payload in
    let wf : MembersWellFormed ms = (tt, (tt, (w, tt))) in
    rw (
      string_field-at (codes "type") ms wf (codes "gui_event") refl,
      string_field-at (codes "event") ms wf name refl,
      non_empty-shown name h,
      raw_field-at (codes "payload") ms wf {raw = print payload} refl,
      payload_or_empty-kept payload w,
    )

-- A message of the panel with an action that is not empty and a well-formed payload, as a compact
-- JSON object, is read as it was written: its action `shown`, and its payload as a text (`null` as
-- the empty one).
pub parse_panel_request-print :
    (action : Bytes) (payload : Value)
    → action ≢ []
    → IsWellFormed payload
    → parse_panel_request
        (print (obj (member (codes "action") (str action) (member (codes "payload") payload end))))
      ≡ some (record { action = map shown action; payload_json = kept payload })
unfolding parse_panel_request lookup_field text_eq
parse_panel_request-print action payload h w =
    let ms = member (codes "action") (str action) (member (codes "payload") payload end) in
    let wf : MembersWellFormed ms = (tt, (w, tt)) in
    rw (
      string_field-at (codes "action") ms wf action refl,
      non_empty-shown action h,
      raw_field-at (codes "payload") ms wf {raw = print payload} refl,
      payload_or_empty-kept payload w,
    )

-- A compact JSON object of well-formed values whose first top-level `type` is a string is a GUI
-- frame exactly if that string, as it is read, begins with `gui_`.
pub is_gui_frame-print :
    (ms : Members) (type : Bytes)
    → MembersWellFormed ms
    → lookup_field (codes "type") (fields_of ms) ≡ some (quoted type)
    → is_gui_frame (print (obj ms)) ≡ has_prefix (codes "gui_") (map shown type)
unfolding is_gui_frame
is_gui_frame-print ms type wf e = rw (string_field-at (codes "type") ms wf type e)

payload_value-wf : (p : Option Value) → PayloadWellFormed p → IsWellFormed (payload_value p)
payload_value-wf none h = tt
payload_value-wf (some v) h = h

-- The frame of a request with an id below 2 ^ 64 and a well-formed payload or none, read by the
-- plugin's own readers, gives back its type, its id, its action `shown` and the text of its
-- payload.
pub build_gui_request-read :
    (id : ℕ) (action : Bytes) (payload : Option Value)
    → id < 2 ^ 64
    → PayloadWellFormed payload
    → let frame =
        build_gui_request
          (record { request_id = id; action = action; payload_json = payload_text payload }) in
      (frame_is frame (codes "gui_request") ≡ true)
      × (uint_field frame (codes "request_id") ≡ some id)
      × (string_field frame (codes "action") ≡ some (map shown action))
      × (json_raw_field frame (codes "payload") ≡ some (print (payload_value payload)))
unfolding frame_is lookup_field text_eq
build_gui_request-read id action payload h w =
    let ms = request_members id action payload in
    let wf : MembersWellFormed ms =
      (tt, (number-IsWellFormed id, (tt, (payload_value-wf payload w, tt)))) in
    rw (build_gui_request-print id action payload w) (
      rw (string_field-at (codes "type") ms wf (codes "gui_request") refl),
      uint_field-at (codes "request_id") ms wf id h refl,
      string_field-at (codes "action") ms wf action refl,
      raw_field-at (codes "payload") ms wf {raw = print (payload_value payload)} refl,
    )
