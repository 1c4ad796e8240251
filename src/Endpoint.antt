-- ===== src/Endpoint.antt =====
-- src/transport/endpoint_config.cpp: where the console is, from its URL and the pilot's file of
-- settings.
pub mod Settings
pub mod Port
pub mod Url
pub mod Safety
mod Tests
use zoal_atc.Common.{
  ℕ, zero, suc, ◌+◌, ◌-◌, ◌*◌, Bool, true, false, not, ◌&&◌, ◌||◌, List, [], ◌∷◌, ◌++◌, Option,
  none, some, ◌==◌, ltb, leb, drop, length, if◌then◌else◌, Bytes, codes, text_eq, map, to_decimal,
}
use zoal_atc.Json.{is_space, skip_ws}

pub record WebSocketEndpoint : Type 0 where
  pub host : Bytes
  pub port : ℕ
  pub path : Bytes
  pub auth_token : Bytes
  pub client_id : Bytes
  pub simbrief_id : Bytes
  pub capabilities : List Bytes

-- An error text, or what was read: `EndpointConfigResult`, and the `bool` with an `error` out
-- parameter of the two private parsers.
pub data Parsed {ℓ} (A : Type ℓ) : Type ℓ where
  failure : Bytes → Parsed A
  success : A → Parsed A

abbrev pub lower : ℕ → ℕ
lower c = if leb b'A' c && leb c b'Z' then c + 32 else c

abbrev pub to_lower : Bytes → Bytes
to_lower text = map lower text

abbrev pub is_nil : Bytes → Bool
is_nil [] = true
is_nil (c ∷ s) = false

unfoldable pub trim_end : Bytes → Bytes
trim_end [] = []
trim_end (c ∷ text) = let rest = trim_end text in if is_space c && is_nil rest then [] else c ∷ rest

abbrev pub trim : Bytes → Bytes
trim text = trim_end (skip_ws text)

-- `find(c)`: what stands before the first such character and what after it.
unfoldable pub split_first : (ℕ → Bool) → Bytes → Option (Bytes × Bytes)
split_first test [] = none
split_first test (c ∷ text) = if test c then some ([], text) else elim (split_first test text) [
  | none ↦ none
  | some (before, after) ↦ some (c ∷ before, after)
]

-- `rfind(c)`.
unfoldable pub split_last : (ℕ → Bool) → Bytes → Option (Bytes × Bytes)
split_last test [] = none
split_last test (c ∷ text) = elim (split_last test text) [
  | none ↦ if test c then some ([], text) else none
  | some (before, after) ↦ some (c ∷ before, after)
]

abbrev pub starts_with : Bytes → Bytes → Bool
starts_with [] text = true
starts_with (d ∷ s) [] = false
starts_with (d ∷ s) (c ∷ text) = if d == c then starts_with s text else false

-- `find("://")`, with what stands before it and what after it.
unfoldable pub split_scheme : Bytes → Option (Bytes × Bytes)
split_scheme [] = none
split_scheme (c ∷ text) =
    if starts_with (codes "://") (c ∷ text)
    then some ([], drop 2 text)
    else elim (split_scheme text) [ none ↦ none | some (before, after) ↦ some (c ∷ before, after) ]

-- A text between backquotes, in the error messages.
abbrev pub ticked : Bytes → Bytes
ticked text = b'`' ∷ (text ++ codes "`")

-- The host and the text of the port, empty where there is none.
unfoldable pub split_authority : Bytes → Parsed (Bytes × Bytes)
split_authority [] = success ([], [])
split_authority (c ∷ text) =
    if c == b'['
    then elim (split_first (λ d. d == b']') text) [
      | none ↦ failure (codes "unterminated IPv6 literal in " ++ ticked (c ∷ text))
      | some (host, []) ↦ success (host, [])
      | some (host, d ∷ rest) ↦
          if d == b':'
          then success (host, rest)
          else failure (codes "unexpected text after IPv6 literal in " ++ ticked (c ∷ text))
    ]
    else elim (split_last (λ d. d == b':') (c ∷ text)) [
      | none ↦ success (c ∷ text, [])
      | some (host, port_text) ↦ success (host, port_text)
    ]

abbrev pub is_digit : ℕ → Bool
is_digit c = leb b'0' c && leb c b'9'

-- The loop over the text of the port, with the value so far, at most 65535.
unfoldable pub port_loop : Bytes → Bytes → ℕ → Parsed ℕ
port_loop text [] value =
    if value == 0 then failure (codes "port 0 is not a port") else success value
port_loop text (c ∷ rest) value =
    let next = value * 10 + (c - b'0') in
    let more = port_loop text rest next in
    if not (is_digit c)
    then failure (codes "port " ++ (ticked text ++ codes " is not a number"))
    else if ltb 65535 next
    then failure (codes "port " ++ (ticked text ++ codes " is out of range"))
    else more

unfoldable pub parse_port : Bytes → Parsed ℕ
unfolding port_loop
parse_port text = if is_nil text then failure (codes "empty port") else port_loop text text 0

-- The line is split at the first `=` or `:`, and the key is compared trimmed and in lower case.
abbrev pub is_separator : ℕ → Bool
is_separator c = c == b'=' || c == b':'

unfoldable pub assigns_key : Bytes → Bytes → Bool
assigns_key line key = elim (split_first is_separator line) [
  | none ↦ false
  | some (before, after) ↦ text_eq (to_lower (trim before)) key
]

abbrev pub is_comment : ℕ → Bool
is_comment c = c == b'#' || c == b';'

abbrev pub strip_markers : Bytes → Bytes
strip_markers [] = []
strip_markers (c ∷ line) = if is_comment c then strip_markers line else c ∷ line

abbrev pub uncomment : Bytes → Bytes
uncomment line = trim (strip_markers line)

-- No character of the text is a control character, which could end the header it is put into.
unfoldable pub token_is_safe : Bytes → Bool
token_is_safe [] = true
token_is_safe (c ∷ token) = if ltb c 32 || c == 127 then false else token_is_safe token

-- The characters that would end or escape out of a JSON string as well.
unfoldable pub has_quoting : Bytes → Bool
has_quoting [] = false
has_quoting (c ∷ text) = if c == b'"' || c == b'\\' then true else has_quoting text

abbrev pub default_ws_port : ℕ
default_ws_port = 80

abbrev pub default_path : Bytes
default_path = codes "/plugin"

-- The authority and the path; within brackets no `/` is looked for, and a bracket must be closed.
unfoldable pub split_path : Bytes → Option (Bytes × Bytes)
split_path [] = some ([], default_path)
split_path (c ∷ text) =
    if c == b'['
    then elim (split_first (λ d. d == b']') text) [
      | none ↦ none
      | some (address, after) ↦ elim (split_first (λ d. d == b'/') after) [
        | none ↦ some (c ∷ text, default_path)
        | some (before, path) ↦ some (c ∷ (address ++ b']' ∷ before), b'/' ∷ path)
      ]
    ]
    else elim (split_first (λ d. d == b'/') (c ∷ text)) [
      | none ↦ some (c ∷ text, default_path)
      | some (before, path) ↦ some (before, b'/' ∷ path)
    ]

-- What follows the scheme, which has to be `ws` where there is one.
unfoldable pub after_scheme : Bytes → Parsed Bytes
after_scheme trimmed = elim (split_scheme trimmed) [
  | none ↦ success trimmed
  | some (before, rest) ↦
      if text_eq (to_lower before) (codes "wss") || text_eq (to_lower before) (codes "https")
      then failure (
          b'`'
          ∷ (to_lower before
              ++ codes
                  "://` needs TLS, which this plugin does not speak yet; use `ws://` (the console is reachable on port 80)"))
      else if not (text_eq (to_lower before) (codes "ws"))
      then failure
          (codes "unsupported scheme `" ++ (to_lower before ++ codes "://`; expected `ws://`"))
      else success rest
]

-- The port, which is the default one where the URL has none.
unfoldable pub port_of : Bytes → Parsed ℕ
port_of port_text = if is_nil port_text then success default_ws_port else parse_port port_text

unfoldable pub no_host : Bytes → Parsed WebSocketEndpoint
no_host trimmed = failure (codes "no host in " ++ ticked trimmed)

-- The endpoint of an authority and a path.
unfoldable pub endpoint_at : Bytes → Bytes → Bytes → Parsed WebSocketEndpoint
endpoint_at trimmed authority path = elim (split_authority authority) [
  | failure error ↦ failure error
  | success (host, port_text) ↦ if is_nil host then no_host trimmed else elim (port_of port_text) [
    | failure error ↦ failure error
    | success port ↦ success (record {
      host = host;
      port = port;
      path = path;
      auth_token = [];
      client_id = [];
      simbrief_id = [];
      capabilities = [];
    })
  ]
]

unfoldable pub parse_websocket_url : Bytes → Parsed WebSocketEndpoint
parse_websocket_url url =
    let trimmed = trim url in
    if is_nil trimmed then failure (codes "empty console URL") else elim (after_scheme trimmed) [
      | failure error ↦ failure error
      | success rest ↦ if is_nil rest then no_host trimmed else elim (split_path rest) [
        | none ↦ failure (codes "unterminated IPv6 literal in " ++ ticked trimmed)
        | some (authority, path) ↦ endpoint_at trimmed authority path
      ]
    ]

abbrev pub has_colon : Bytes → Bool
has_colon [] = false
has_colon (c ∷ host) = if c == b':' then true else has_colon host

-- The value of the `Host` header.
unfoldable pub host_header : WebSocketEndpoint → Bytes
host_header e =
    let host = if has_colon e.host then b'[' ∷ (e.host ++ codes "]") else e.host in
    if e.port == default_ws_port then host else host ++ b':' ∷ to_decimal e.port
