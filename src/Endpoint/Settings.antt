-- ===== src/Endpoint/Settings.antt =====
-- The pilot's file of settings: reading it and writing one setting of it
-- (src/transport/endpoint_config.cpp).
use zoal_atc.Common.{
  ℕ, zero, suc, Bool, true, false, not, ◌&&◌, ◌||◌, List, [], ◌∷◌, ◌++◌, Option, none, some, ◌==◌,
  if◌then◌else◌, Bytes, codes, text_eq,
}
use zoal_atc.Endpoint.{
  WebSocketEndpoint, Parsed, failure, success, to_lower, trim, is_nil, split_first, is_separator,
  is_comment, assigns_key, uncomment, token_is_safe, has_quoting, ticked, parse_websocket_url,
}

-- The pieces between newlines, always at least one.
unfoldable pub text_lines : Bytes → List Bytes
text_lines [] = [] ∷ []
text_lines (c ∷ text) =
    if c == b'\n'
    then [] ∷ text_lines text
    else elim (text_lines text) [ [] ↦ (c ∷ []) ∷ [] | line ∷ lines ↦ (c ∷ line) ∷ lines ]

abbrev pub bad_key : Bytes → Bytes → Parsed WebSocketEndpoint
bad_key key reason = failure (codes "config key " ++ (ticked key ++ (codes ": " ++ reason)))

-- A URL replaces the address and keeps who the plugin is.
unfoldable pub set_url : Bytes → Bytes → WebSocketEndpoint → Parsed WebSocketEndpoint
set_url key value base = elim (parse_websocket_url value) [
  | failure error ↦ bad_key key error
  | success parsed ↦ success (record parsed {
    auth_token = base.auth_token;
    client_id = base.client_id;
    simbrief_id = base.simbrief_id;
  })
]

unfoldable pub set_token : Bytes → Bytes → WebSocketEndpoint → Parsed WebSocketEndpoint
set_token key value base =
    if token_is_safe value
    then success (record base { auth_token = value })
    else bad_key key (codes "token contains a control character")

-- The two ids go into a JSON frame and share the same fence.
unfoldable pub set_id : Bytes → Bytes → WebSocketEndpoint → Parsed WebSocketEndpoint
set_id key value set =
    if not (token_is_safe value) || has_quoting value
    then bad_key key (codes "contains an unsafe character")
    else success set

-- One setting; an unknown key is ignored.
unfoldable pub apply_setting : Bytes → Bytes → WebSocketEndpoint → Parsed WebSocketEndpoint
apply_setting key value base =
    if text_eq key (codes "url") || text_eq key (codes "console_url")
    then set_url key value base
    else if text_eq key (codes "token") || text_eq key (codes "auth_token")
    then set_token key value base
    else if text_eq key (codes "client_id")
    then set_id key value (record base { client_id = value })
    else if text_eq key (codes "simbrief_id") || text_eq key (codes "simbrief_pilot_id")
    then set_id key value (record base { simbrief_id = value })
    else success base

-- One line, trimmed: blank lines, comments and lines without a separator are passed over.
unfoldable pub apply_line : Bytes → WebSocketEndpoint → Parsed WebSocketEndpoint
apply_line [] base = success base
apply_line (c ∷ line) base =
    if is_comment c then success base else elim (split_first is_separator (c ∷ line)) [
      | none ↦ success base
      | some (before, after) ↦ apply_setting (to_lower (trim before)) (trim after) base
    ]

unfoldable pub apply_lines : List Bytes → WebSocketEndpoint → Parsed WebSocketEndpoint
apply_lines [] base = success base
apply_lines (line ∷ lines) base = elim (apply_line (trim line) base) [
  | failure error ↦ failure error
  | success next ↦ apply_lines lines next
]

unfoldable pub apply_config_text : Bytes → WebSocketEndpoint → Parsed WebSocketEndpoint
apply_config_text text base = apply_lines (text_lines text) base

-- A line's content and its ending: LF, CRLF, or nothing at the end of the text.
abbrev pub Line : Type 0
Line = Bytes × Bytes

abbrev pub lf : Bytes
lf = 10 ∷ []

abbrev pub crlf : Bytes
crlf = 13 ∷ 10 ∷ []

abbrev pub at_newline : Bytes → Bool
at_newline [] = false
at_newline (d ∷ text) = d == 10

-- A carriage return in front of the first line's newline.
abbrev pub cr_ended : List Line → List Line
cr_ended [] = []
cr_ended ((content, ending) ∷ lines) = (content, crlf) ∷ lines

-- A character in front of the first line.
abbrev pub lengthened : ℕ → List Line → List Line
lengthened c [] = (c ∷ [], []) ∷ []
lengthened c ((content, ending) ∷ lines) = (c ∷ content, ending) ∷ lines

unfoldable pub file_lines : Bytes → List Line
file_lines [] = []
file_lines (c ∷ text) =
    let rest = file_lines text in
    if c == 10
    then ([], lf) ∷ rest
    else if c == 13 && at_newline text
    then cr_ended rest
    else lengthened c rest

-- The line to rewrite: the first live one that assigns the key, or else the first commented one.
unfoldable pub find_target : Bytes → List Line → ℕ → Option ℕ → Option ℕ
find_target wanted [] i commented = commented
find_target wanted ((content, ending) ∷ lines) i commented = elim (trim content) [
  | [] ↦ find_target wanted lines (suc i) commented
  | c ∷ line ↦
      let first = find_target wanted lines (suc i) (elim commented [
        | some j ↦ some j
        | none ↦ if assigns_key (uncomment (c ∷ line)) wanted then some i else none
      ]) in
      let same = find_target wanted lines (suc i) commented in
      if is_comment c then first else if assigns_key (c ∷ line) wanted then some i else same
]

unfoldable pub set_line : ℕ → Bytes → List Line → List Line
set_line i assignment [] = []
set_line zero assignment ((content, ending) ∷ lines) = (assignment, ending) ∷ lines
set_line (suc i) assignment (line ∷ lines) = line ∷ set_line i assignment lines

-- The last line gets an ending where it has none.
unfoldable pub end_last : Bytes → List Line → List Line
end_last newline [] = []
end_last newline ((content, ending) ∷ []) =
    (content, (if is_nil ending then newline else ending)) ∷ []
end_last newline (line ∷ next ∷ lines) = line ∷ end_last newline (next ∷ lines)

unfoldable pub has_crlf : Bytes → Bool
has_crlf [] = false
has_crlf (c ∷ []) = false
has_crlf (c ∷ d ∷ text) = if c == 13 && d == 10 then true else has_crlf (d ∷ text)

unfoldable pub joined : List Line → Bytes
joined [] = []
joined ((content, ending) ∷ lines) = content ++ (ending ++ joined lines)

unfoldable pub upsert_config_value : Bytes → Bytes → Bytes → Bytes
upsert_config_value text key value =
    let wanted = to_lower (trim key) in
    let assignment = wanted ++ (codes " = " ++ value) in
    let lines = file_lines text in
    let newline = if has_crlf text then crlf else lf in
    elim (find_target wanted lines 0 none) [
      | some i ↦ joined (end_last lf (set_line i assignment lines))
      | none ↦ joined (end_last lf (end_last newline lines ++ (assignment, newline) ∷ []))
    ]
