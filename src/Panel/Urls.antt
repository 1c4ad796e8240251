-- ===== src/Panel/Urls.antt =====
-- The URLs of src/gui/panel_paths.cpp, as a reader of percent escapes reads them.
use zoal_atc.Common.{
  ℕ, ◌<◌, ◌≡◌, refl, inl, inr, Bool-cases, Bool, true, false, ◌&&◌, [], ◌∷◌, ◌++◌, some, map, arith,
  ltb, if◌then◌else◌, if_both, not, Bytes, IsByte, All, All-append, codes,
}
use zoal_atc.Endpoint.{is_nil}
use zoal_atc.Panel.{
  has, is_separator, without_last_separators, without_first_separators, join_path, apps_dir,
  preferred_separator, is_kept, percent_escape, begins_with_slash, shell_index_path, file_url,
  query_escape, shell_home_url,
}
use zoal_atc.Panel.Escapes.{
  unescape, shown, before, before-before, unescape-percent_escape, unescape-append, Unreserved,
  percent_escape-Unreserved,
}

-- The slash in front of an escaped path is that of the path.
begins_with_slash-percent_escape :
    (path : Bytes)
    → begins_with_slash (percent_escape path true) ≡ begins_with_slash (map (shown true) path)
unfolding percent_escape shown
begins_with_slash-percent_escape [] = refl
begins_with_slash-percent_escape (c ∷ path) = elim (Bool-cases (is_kept true c)) [
  | inl kept ↦ rw kept refl
  | inr escaped ↦ rw escaped (ground arith)
]

-- What the URL of a path stands for.
unfoldable pub file_shown : Bytes → Bytes
file_shown path =
    let text = map (shown true) path in
    if begins_with_slash text then codes "file://" ++ text else codes "file:///" ++ text

unescape-file_url :
    (path text : Bytes)
    → All IsByte path
    → unescape (file_url path ++ text) ≡ before (file_shown path) (unescape text)
unfolding file_url file_shown
unescape-file_url path text h =
    let shown_path = map (shown true) path in
    let escaped = percent_escape path true ++ text in
    rw (begins_with_slash-percent_escape path) (elim (Bool-cases (begins_with_slash shown_path)) [
      | inl rooted ↦ rw rooted (
          rw
            (
              unescape-append (codes "file://") escaped refl,
              unescape-percent_escape true path text h,
            )
            (before-before (codes "file://") shown_path (unescape text)))
      | inr free ↦ rw free (
          rw
            (
              unescape-append (codes "file:///") escaped refl,
              unescape-percent_escape true path text h,
            )
            (before-before (codes "file:///") shown_path (unescape text)))
    ])

without_last_separators-IsByte :
    (path : Bytes) → All IsByte path → All IsByte (without_last_separators path)
without_last_separators-IsByte [] h = h
without_last_separators-IsByte (c ∷ path) (h, hs) =
    if_both (All IsByte) (is_separator c && is_nil (without_last_separators path)) tt
      (h, without_last_separators-IsByte path hs)

without_first_separators-IsByte :
    (path : Bytes) → All IsByte path → All IsByte (without_first_separators path)
without_first_separators-IsByte [] h = h
without_first_separators-IsByte (c ∷ path) (h, hs) =
    if_both (All IsByte) (is_separator c) (without_first_separators-IsByte path hs) (h, hs)

join_path-IsByte :
    (base child : Bytes) → All IsByte base → All IsByte child → All IsByte (join_path base child)
unfolding join_path preferred_separator
join_path-IsByte base child h k =
    let separator : preferred_separator base < 256 =
      if_both (λ (c : ℕ). c < 256) (has b'\\' base && not (has b'/' base)) (omega arith)
        (omega arith) in
    if_both (All IsByte) (is_nil base) k (
      if_both (All IsByte) (is_nil child) h (
        All-append IsByte (without_last_separators base) _ (without_last_separators-IsByte base h)
          (separator, without_first_separators-IsByte child k)))

-- A literal of ASCII.
is_bytes : Bytes → Bool
is_bytes [] = true
is_bytes (c ∷ text) = ltb c 256 && is_bytes text

is_bytes-IsByte : (text : Bytes) → is_bytes text ≡ true → All IsByte text
unfolding is_bytes
is_bytes-IsByte [] h = tt
is_bytes-IsByte (c ∷ text) h =
    let behind : is_bytes text ≡ true = ground arith in (ground arith, is_bytes-IsByte text behind)

shell_index_path-IsByte : (root : Bytes) → All IsByte root → All IsByte (shell_index_path root)
unfolding shell_index_path apps_dir is_bytes
shell_index_path-IsByte root h =
    join_path-IsByte _ (codes "index.html")
      (join_path-IsByte _ (codes "zoal-atc")
        (join_path-IsByte root (codes "apps") h (is_bytes-IsByte (codes "apps") refl))
        (is_bytes-IsByte (codes "zoal-atc") refl))
      (is_bytes-IsByte (codes "index.html") refl)

map-id : (keep : Bool) (text : Bytes) → keep ≡ false → map (shown keep) text ≡ text
unfolding shown
map-id keep [] h = refl
map-id keep (c ∷ text) h = rw (map-id keep text h, h) refl

-- Read by a reader of percent escapes, the URL of the panel's home is that of its index file, with
-- a slash for each backslash of the path, followed by `?plugin_version=`, the version and
-- `&skyscript=ready`, whatever the root and the version hold; and the version is written in
-- letters, digits, `-`, `_`, `.` and `%` alone, so that it cannot end its field.
pub shell_home_url-unescape :
    (root version : Bytes)
    → All IsByte root
    → All IsByte version
    → (unescape (shell_home_url root version)
        ≡ some (
            file_shown (shell_index_path root)
            ++ (codes "?plugin_version=" ++ (version ++ codes "&skyscript=ready"))))
      × All Unreserved (query_escape version)
unfolding shell_home_url query_escape unescape
shell_home_url-unescape root version h k =
    let ready = codes "&skyscript=ready" in
    let escaped = percent_escape version false ++ ready in
    let read : unescape (shell_home_url root version)
        ≡ some (
            file_shown (shell_index_path root)
            ++ (codes "?plugin_version=" ++ (version ++ ready))) =
      rw
        (
          unescape-file_url (shell_index_path root) (codes "?plugin_version=" ++ escaped)
              (shell_index_path-IsByte root h),
          unescape-append (codes "?plugin_version=") escaped refl,
          unescape-percent_escape false version ready k,
          map-id false version refl,
        )
        refl in
    (read, percent_escape-Unreserved version k)
