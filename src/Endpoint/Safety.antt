-- ===== src/Endpoint/Safety.antt =====
-- What the file of settings can make of an endpoint (src/transport/endpoint_config.cpp).
use zoal_atc.Common.{
  ℕ, ◌≤◌, ◌<◌, ◌≡◌, ◌≢◌, refl, inl, inr, true, false, not, ◌||◌, List, [], ◌∷◌, none, some, arith,
  Option-cases, if_known, if_both, Bytes, codes, text_eq, All,
}
use zoal_atc.Endpoint.{
  WebSocketEndpoint, Parsed, failure, success, trim, to_lower, split_first, is_separator,
  is_comment, token_is_safe, has_quoting, parse_websocket_url,
}
use zoal_atc.Endpoint.Url.{Parsed-cases, IsPath, parse_websocket_url-IsEndpoint}
use zoal_atc.Endpoint.Settings.{
  Line, text_lines, set_url, set_token, set_id, apply_setting, apply_line, apply_lines,
  apply_config_text, file_lines, joined, at_newline, cr_ended, lengthened,
}

-- No control character: neither an end of line nor a NUL.
abbrev pub IsHeaderChar : ℕ → Type 0
IsHeaderChar c = (32 ≤ c) × (c ≢ 127)

-- Nor the end of a JSON string, nor an escape.
abbrev pub IsJsonChar : ℕ → Type 0
IsJsonChar c = (32 ≤ c) × (c ≢ 127) × (c ≢ b'"') × (c ≢ b'\\')

pub record IsUsable (e : WebSocketEndpoint) : Type 0 where
  pub host : e.host ≢ []
  pub port : (0 < e.port) × (e.port ≤ 65535)
  pub path : IsPath e.path
  pub token : All IsHeaderChar e.auth_token
  pub client : All IsJsonChar e.client_id
  pub simbrief : All IsJsonChar e.simbrief_id

token_is_safe-All : (text : Bytes) → token_is_safe text ≡ true → All IsHeaderChar text
unfolding token_is_safe
token_is_safe-All [] h = tt
token_is_safe-All (c ∷ text) h =
    ((ground arith, ground arith), token_is_safe-All text (ground arith))

quoted-All :
    (text : Bytes) → (not (token_is_safe text) || has_quoting text) ≡ false → All IsJsonChar text
unfolding token_is_safe has_quoting
quoted-All [] h = tt
quoted-All (c ∷ text) h =
    ((ground arith, ground arith, ground arith, ground arith), quoted-All text (ground arith))

-- What is shown of a result: nothing of a failure.
abbrev Usable : Parsed WebSocketEndpoint → Type 0
Usable (failure error) = Unit
Usable (success e) = IsUsable e

set_url-Usable :
    (key value : Bytes) (base : WebSocketEndpoint) → IsUsable base → Usable (set_url key value base)
unfolding set_url
set_url-Usable key value base u = elim (Parsed-cases (parse_websocket_url value)) [
  | inl (x, e) ↦ rw (e, set_url) tt
  | inr (parsed, e) ↦
      let p = parse_websocket_url-IsEndpoint value parsed e in
      rw (e, set_url)
        (record {
          host = p.host;
          port = p.port;
          path = p.path;
          token = u.token;
          client = u.client;
          simbrief = u.simbrief;
        })
]

set_token-Usable :
    (key value : Bytes) (base : WebSocketEndpoint)
    → IsUsable base
    → Usable (set_token key value base)
unfolding set_token
set_token-Usable key value base u = if_known Usable (token_is_safe value) safe (λ n. tt)
  where
    safe : token_is_safe value ≡ true → IsUsable (record base { auth_token = value })
    safe s = record {
      host = u.host;
      port = u.port;
      path = u.path;
      token = token_is_safe-All value s;
      client = u.client;
      simbrief = u.simbrief;
    }

set_id-Usable :
    (key value : Bytes) (set : WebSocketEndpoint)
    → (All IsJsonChar value → IsUsable set)
    → Usable (set_id key value set)
unfolding set_id
set_id-Usable key value set u =
    if_known Usable (not (token_is_safe value) || has_quoting value) (λ n. tt)
      (λ s. u (quoted-All value s))

apply_setting-Usable :
    (key value : Bytes) (base : WebSocketEndpoint)
    → IsUsable base
    → Usable (apply_setting key value base)
unfolding apply_setting
apply_setting-Usable key value base u =
    if_both Usable (text_eq key (codes "url") || text_eq key (codes "console_url"))
      (set_url-Usable key value base u)
      (if_both Usable (text_eq key (codes "token") || text_eq key (codes "auth_token"))
        (set_token-Usable key value base u)
        (if_both Usable (text_eq key (codes "client_id"))
          (set_id-Usable key value (record base { client_id = value }) client)
          (if_both Usable
            (text_eq key (codes "simbrief_id") || text_eq key (codes "simbrief_pilot_id"))
            (set_id-Usable key value (record base { simbrief_id = value }) simbrief) u)))
  where
    client : All IsJsonChar value → IsUsable (record base { client_id = value })
    client s = record {
      host = u.host;
      port = u.port;
      path = u.path;
      token = u.token;
      client = s;
      simbrief = u.simbrief;
    }

    simbrief : All IsJsonChar value → IsUsable (record base { simbrief_id = value })
    simbrief s = record {
      host = u.host;
      port = u.port;
      path = u.path;
      token = u.token;
      client = u.client;
      simbrief = s;
    }

apply_line-Usable :
    (line : Bytes) (base : WebSocketEndpoint) → IsUsable base → Usable (apply_line line base)
unfolding apply_line
apply_line-Usable [] base u = u
apply_line-Usable (c ∷ line) base u = if_both Usable (is_comment c) u setting
  where
    setting : Usable (elim (split_first is_separator (c ∷ line)) [
      | none ↦ success base
      | some (before, after) ↦ apply_setting (to_lower (trim before)) (trim after) base
    ])
    setting = elim (Option-cases (split_first is_separator (c ∷ line))) [
      | inl e ↦ rw e u
      | inr ((before, after), e) ↦
          rw e (apply_setting-Usable (to_lower (trim before)) (trim after) base u)
    ]

apply_lines-Usable :
    (lines : List Bytes) (base : WebSocketEndpoint)
    → IsUsable base
    → Usable (apply_lines lines base)
unfolding apply_lines
apply_lines-Usable [] base u = u
apply_lines-Usable (line ∷ lines) base u = elim (Parsed-cases (apply_line (trim line) base)) [
  | inl (x, e) ↦ rw (e, apply_lines) tt
  | inr (next, e) ↦
      rw (e, apply_lines)
        (apply_lines-Usable lines next (rw e at (apply_line-Usable (trim line) base u)))
]

-- Whatever the pilot's file holds, an endpoint that it makes of a usable one is usable: its host is
-- not empty, its port is from 1 to 65535, its path begins with a slash, its token has no control
-- character that could forge a header, and its ids have no character that could forge a field of a
-- JSON frame.
pub apply_config_text-IsUsable :
    (text : Bytes) (base e : WebSocketEndpoint)
    → IsUsable base
    → apply_config_text text base ≡ success e
    → IsUsable e
unfolding apply_config_text
apply_config_text-IsUsable text base e u h = rw h at (apply_lines-Usable (text_lines text) base u)

joined-lengthened : (c : ℕ) (lines : List Line) → joined (lengthened c lines) ≡ c ∷ joined lines
unfolding joined
joined-lengthened c [] = refl
joined-lengthened c ((content, ending) ∷ lines) = refl

joined-cr_ended :
    (text : Bytes)
    → at_newline text ≡ true
    → joined (cr_ended (file_lines text)) ≡ 13 ∷ joined (file_lines text)
unfolding joined file_lines
joined-cr_ended [] e = absurd cc
joined-cr_ended (d ∷ text) e = rw e refl

-- The lines and endings that the file is split into, before one setting is written, give the file
-- back byte for byte.
pub joined-file_lines : (text : Bytes) → joined (file_lines text) ≡ text
unfolding joined file_lines
joined-file_lines [] = refl
joined-file_lines (c ∷ text) =
    ground
      (arith, joined-file_lines text, joined-cr_ended text, joined-lengthened c (file_lines text))
