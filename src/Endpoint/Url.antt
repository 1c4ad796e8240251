-- ===== src/Endpoint/Url.antt =====
-- What an accepted URL says (parse_websocket_url of src/transport/endpoint_config.cpp).
use zoal_atc.Common.{
  ℕ, ◌≤◌, ◌<◌, ◌≡◌, ◌≢◌, refl, ◌⊎◌, inl, inr, true, false, [], ◌∷◌, ◌++◌, Option, none, some, arith,
  Option-cases, ◌==◌, if_known, if_both, Bytes, codes, text_eq, text_eq_iff,
}
use zoal_atc.Endpoint.{
  WebSocketEndpoint, Parsed, failure, success, is_nil, trim, to_lower, split_first, split_scheme,
  split_path, split_authority, after_scheme, port_of, endpoint_at, parse_websocket_url,
  default_path, ticked, no_host,
}
use zoal_atc.Endpoint.Port.{parse_port_iff}

pub Parsed-cases {ℓ} :
    {A : Type ℓ} (r : Parsed A) → ((x : Bytes) × r ≡ failure x) ⊎ ((a : A) × r ≡ success a)
Parsed-cases (failure x) = inl (x, refl)
Parsed-cases (success a) = inr (a, refl)

-- A `/` in front.
abbrev pub IsPath : Bytes → Type 0
IsPath path = (rest : Bytes) × path ≡ b'/' ∷ rest

-- The scheme, if there is one, is `ws` in any case.
abbrev pub IsPlain : Bytes → Type 0
IsPlain url =
    (split_scheme url ≡ none)
    ⊎ ((scheme : Bytes) × (rest : Bytes) × (split_scheme url ≡ some (scheme, rest))
        × (to_lower scheme ≡ codes "ws"))

pub record IsEndpoint (url : Bytes) (e : WebSocketEndpoint) : Type 0 where
  pub plain : IsPlain (trim url)
  pub host : e.host ≢ []
  pub port : (0 < e.port) × (e.port ≤ 65535)
  pub path : IsPath e.path
  pub nobody :
      (e.auth_token ≡ []) × (e.client_id ≡ []) × (e.simbrief_id ≡ []) × (e.capabilities ≡ [])

after_scheme-IsPlain : (url rest : Bytes) → after_scheme url ≡ success rest → IsPlain url
unfolding after_scheme
after_scheme-IsPlain url rest e = elim (Option-cases (split_scheme url)) [
  | inl n ↦ inl n
  | inr ((scheme, after), s) ↦
      let g = rw (s, after_scheme) at e in
      let t : text_eq (to_lower scheme) (codes "ws") ≡ true = ground arith in
      inr (scheme, after, s, (text_eq_iff (to_lower scheme) (codes "ws")).0 t)
]

abbrev HasPath : Option (Bytes × Bytes) → Type 0
HasPath none = Unit
HasPath (some (authority, path)) = IsPath path

split_path-HasPath : (rest : Bytes) → HasPath (split_path rest)
unfolding split_path
split_path-HasPath [] = (codes "plugin", refl)
split_path-HasPath (c ∷ text) = if_both HasPath (c == b'[') bracketed plain
  where
    bracketed : HasPath (elim (split_first (λ d. d == b']') text) [
      | none ↦ none
      | some (address, after) ↦ elim (split_first (λ d. d == b'/') after) [
        | none ↦ some (c ∷ text, default_path)
        | some (before, path) ↦ some (c ∷ (address ++ b']' ∷ before), b'/' ∷ path)
      ]
    ])
    bracketed = elim (Option-cases (split_first (λ d. d == b']') text)) [
      | inl e ↦ rw e tt
      | inr ((address, after), e) ↦ elim (Option-cases (split_first (λ d. d == b'/') after)) [
        | inl f ↦ rw (e, f) (codes "plugin", refl)
        | inr ((before, path), f) ↦ rw (e, f) (path, refl)
      ]
    ]

    plain : HasPath (elim (split_first (λ d. d == b'/') (c ∷ text)) [
      | none ↦ some (c ∷ text, default_path)
      | some (before, path) ↦ some (before, b'/' ∷ path)
    ])
    plain = elim (Option-cases (split_first (λ d. d == b'/') (c ∷ text))) [
      | inl f ↦ rw f (codes "plugin", refl)
      | inr ((before, path), f) ↦ rw f (path, refl)
    ]

port_of-bounds :
    (text : Bytes) (port : ℕ) → port_of text ≡ success port → (0 < port) × (port ≤ 65535)
unfolding port_of
port_of-bounds [] port e = ground arith
port_of-bounds (c ∷ text) port e =
    let (ne, ds, v, lo, hi) = (parse_port_iff (c ∷ text) port).0 e in (lo, hi)

-- What is shown of a result: nothing of a failure.
abbrev Accepted : Bytes → Parsed WebSocketEndpoint → Type 0
Accepted url (failure error) = Unit
Accepted url (success e) = IsEndpoint url e

not_nil : (text : Bytes) → is_nil text ≡ false → text ≢ []
not_nil [] e = absurd cc
not_nil (c ∷ text) e = λ n. cc

endpoint_at-Accepted :
    (url authority path : Bytes)
    → IsPlain (trim url)
    → IsPath path
    → Accepted url (endpoint_at (trim url) authority path)
unfolding endpoint_at no_host
endpoint_at-Accepted url authority path plain p = elim (Parsed-cases (split_authority authority)) [
  | inl (x, f) ↦ rw (f, endpoint_at) tt
  | inr ((host, port_text), f) ↦ elim (Parsed-cases (port_of port_text)) [
    | inl (x, g) ↦ rw (f, endpoint_at, g) (if_both (Accepted url) (is_nil host) tt tt)
    | inr (port, g) ↦
        rw (f, endpoint_at, g)
          (if_known (Accepted url) (is_nil host) (λ n. tt)
            (λ n. record {
              plain = plain;
              host = not_nil host n;
              port = port_of-bounds port_text port g;
              path = p;
              nobody = (refl, refl, refl, refl);
            }))
  ]
]

parse_websocket_url-Accepted : (url : Bytes) → Accepted url (parse_websocket_url url)
unfolding parse_websocket_url no_host
parse_websocket_url-Accepted url = elim (Parsed-cases (after_scheme (trim url))) [
  | inl (x, e) ↦ rw (e, parse_websocket_url) (if_both (Accepted url) (is_nil (trim url)) tt tt)
  | inr (rest, e) ↦
      let plain = after_scheme-IsPlain (trim url) rest e in
      rw (e, parse_websocket_url)
        (if_both (Accepted url) (is_nil (trim url)) tt
          (if_both (Accepted url) (is_nil rest) tt (at_path rest plain)))
]
  where
    at_path :
        (rest : Bytes)
        → IsPlain (trim url)
        → Accepted url (elim (split_path rest) [
          | none ↦ failure (codes "unterminated IPv6 literal in " ++ ticked (trim url))
          | some (authority, path) ↦ endpoint_at (trim url) authority path
        ])
    at_path rest plain = elim (Option-cases (split_path rest)) [
      | inl n ↦ rw n tt
      | inr ((authority, path), s) ↦
          rw s (endpoint_at-Accepted url authority path plain (rw s at (split_path-HasPath rest)))
    ]

-- An accepted URL names no other scheme than `ws`, and gives a host that is not empty, a port from
-- 1 to 65535, a path that begins with a slash, no token, no id and no capability.
pub parse_websocket_url-IsEndpoint :
    (url : Bytes) (e : WebSocketEndpoint) → parse_websocket_url url ≡ success e → IsEndpoint url e
parse_websocket_url-IsEndpoint url e h = rw h at (parse_websocket_url-Accepted url)
