-- ===== src/Endpoint/Tests.antt =====
-- Runs of the endpoint's readers, and their theorems at them.
use zoal_atc.Common.{
  ◌≤◌, ◌<◌, ◌≡◌, ◌≢◌, ◌↔◌, refl, [], codes, Bytes, All, IsDigit, arith, text_eq, to_decimal,
}
use zoal_atc.Json.{skip_ws}
use zoal_atc.Endpoint.{
  WebSocketEndpoint, success, parse_port, parse_websocket_url, host_header, trim_end, split_first,
  split_scheme, split_path, split_authority, after_scheme, port_of, endpoint_at, assigns_key,
  token_is_safe, has_quoting,
}
use zoal_atc.Endpoint.Settings.{
  apply_config_text, apply_lines, apply_line, apply_setting, set_token, set_id, text_lines,
  file_lines, joined, upsert_config_value, find_target, set_line, end_last, has_crlf,
}
use zoal_atc.Endpoint.Port.{value_of, parse_port_iff}
use zoal_atc.Endpoint.Url.{IsEndpoint, parse_websocket_url-IsEndpoint}
use zoal_atc.Endpoint.Safety.{IsUsable, apply_config_text-IsUsable}

parse_port_iff_example : (parse_port (codes "8765") ≡ success 8765) ↔ (
    (codes "8765" ≢ [])
    × All IsDigit (codes "8765")
    × (8765 ≡ value_of (codes "8765") 0)
    × (0 < 8765)
    × (8765 ≤ 65535))
parse_port_iff_example = parse_port_iff (codes "8765") 8765

abbrev local_url : Bytes
local_url = codes " WS://[::1]:8765/plugin "

abbrev local : WebSocketEndpoint
local = record {
  host = codes "::1";
  port = 8765;
  path = codes "/plugin";
  auth_token = [];
  client_id = [];
  simbrief_id = [];
  capabilities = [];
}

local_url-parsed : parse_websocket_url local_url ≡ success local
unfolding parse_websocket_url skip_ws trim_end after_scheme split_scheme text_eq split_path
    split_first endpoint_at split_authority port_of parse_port
local_url-parsed = refl

host_header-local : host_header local ≡ codes "[::1]:8765"
unfolding host_header to_decimal
host_header-local = refl

parse_websocket_url-IsEndpoint_example : IsEndpoint local_url local
parse_websocket_url-IsEndpoint_example =
    parse_websocket_url-IsEndpoint local_url local local_url-parsed

abbrev settings : Bytes
settings = codes "# mine\ntoken = abc=\nclient_id: 7\n"

abbrev signed_in : WebSocketEndpoint
signed_in = record local { auth_token = codes "abc="; client_id = codes "7" }

settings-applied : apply_config_text settings local ≡ success signed_in
unfolding apply_config_text text_lines apply_lines apply_line skip_ws trim_end split_first
    apply_setting text_eq set_token token_is_safe has_quoting set_id
settings-applied = refl

local-IsUsable : IsUsable local
local-IsUsable = record {
  host = λ e. cc;
  port = (omega arith, omega arith);
  path = (codes "plugin", refl);
  token = tt;
  client = tt;
  simbrief = tt;
}

apply_config_text-IsUsable_example : IsUsable signed_in
apply_config_text-IsUsable_example =
    apply_config_text-IsUsable settings local signed_in local-IsUsable settings-applied

-- The first of two live lines is rewritten; the reader obeys the second, which holds the old token.
abbrev twice : Bytes
twice = codes "token = old\ntoken = old\n"

upsert-twice :
    upsert_config_value twice (codes "token") (codes "new") ≡ codes "token = new\ntoken = old\n"
unfolding upsert_config_value skip_ws trim_end file_lines find_target assigns_key split_first
    text_eq set_line end_last joined has_crlf
upsert-twice = refl

twice-applied :
    apply_config_text (codes "token = new\ntoken = old\n") local
    ≡ success (record local { auth_token = codes "old" })
unfolding apply_config_text text_lines apply_lines apply_line skip_ws trim_end split_first
    apply_setting text_eq set_token token_is_safe
twice-applied = refl
