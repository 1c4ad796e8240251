-- ===== src/Panel.antt =====
-- src/gui/panel_paths.cpp: the paths of the plugin's directories and the URL of the panel's first page.
pub mod Escapes
pub mod Urls
mod Tests
use zoal_atc.Common.{
  ℕ, ◌+◌, ◌/◌, ◌%◌, Bool, true, false, not, ◌&&◌, ◌||◌, [], ◌∷◌, ◌++◌, none, some, take, ◌==◌, ltb,
  leb, if◌then◌else◌, Bytes, codes, text_eq,
}
use zoal_atc.Endpoint.{is_nil, split_last}

abbrev pub is_separator : ℕ → Bool
is_separator c = c == b'/' || c == b'\\'

abbrev pub has : ℕ → Bytes → Bool
has c [] = false
has c (d ∷ text) = c == d || has c text

unfoldable pub preferred_separator : Bytes → ℕ
preferred_separator path = if has b'\\' path && not (has b'/' path) then b'\\' else b'/'

unfoldable pub is_platform_directory : Bytes → Bool
is_platform_directory name =
    text_eq name (codes "mac_x64")
    || text_eq name (codes "win_x64")
    || text_eq name (codes "lin_x64")

abbrev pub is_alpha_num : ℕ → Bool
is_alpha_num ch =
    (leb b'0' ch && leb ch b'9') || (leb b'A' ch && leb ch b'Z') || (leb b'a' ch && leb ch b'z')

-- Whether a character stands for itself.
abbrev pub is_kept : Bool → ℕ → Bool
is_kept keep_path_separators ch =
    is_alpha_num ch
    || ch == b'-'
    || ch == b'_'
    || ch == b'.'
    || (keep_path_separators && (ch == b'/' || ch == b':' || ch == b'\\'))

abbrev pub as_slash : ℕ → ℕ
as_slash ch = if ch == b'\\' then b'/' else ch

-- A digit of `std::hex` with `std::uppercase`.
abbrev pub hex_digit : ℕ → ℕ
hex_digit n = if ltb n 10 then b'0' + n else 55 + n

unfoldable pub percent_escape : Bytes → Bool → Bytes
percent_escape [] keep = []
percent_escape (ch ∷ value) keep =
    let rest = percent_escape value keep in
    if is_kept keep ch
    then as_slash ch ∷ rest
    else b'%' ∷ hex_digit (ch / 16) ∷ hex_digit (ch % 16) ∷ rest

abbrev pub without_last_separators : Bytes → Bytes
without_last_separators [] = []
without_last_separators (c ∷ path) =
    let rest = without_last_separators path in
    if is_separator c && is_nil rest then [] else c ∷ rest

abbrev pub without_first_separators : Bytes → Bytes
without_first_separators [] = []
without_first_separators (c ∷ path) =
    let rest = without_first_separators path in if is_separator c then rest else c ∷ path

unfoldable pub directory_name : Bytes → Bytes
unfolding split_last
directory_name path =
    let trimmed = without_last_separators path in
    elim (split_last is_separator trimmed) [
      | none ↦ []
      | some (before, after) ↦ if is_nil before then take 1 trimmed else before
    ]

unfoldable pub base_name : Bytes → Bytes
unfolding split_last
base_name path =
    let trimmed = without_last_separators path in
    elim (split_last is_separator trimmed) [ none ↦ trimmed | some (before, after) ↦ after ]

unfoldable pub join_path : Bytes → Bytes → Bytes
unfolding preferred_separator
join_path base child =
    if is_nil base
    then child
    else if is_nil child
    then base
    else without_last_separators base ++ preferred_separator base ∷ without_first_separators child

unfoldable pub plugin_root_from_binary_path : Bytes → Bytes
unfolding directory_name base_name is_platform_directory
plugin_root_from_binary_path plugin_binary_path =
    let binary_dir = directory_name plugin_binary_path in
    if is_platform_directory (base_name binary_dir) then directory_name binary_dir else binary_dir

unfoldable pub apps_dir : Bytes → Bytes
apps_dir plugin_root = join_path plugin_root (codes "apps")

unfoldable pub assets_dir : Bytes → Bytes
assets_dir plugin_root = join_path plugin_root (codes "assets")

unfoldable pub shell_index_path : Bytes → Bytes
shell_index_path plugin_root =
    join_path (join_path (apps_dir plugin_root) (codes "zoal-atc")) (codes "index.html")

abbrev pub begins_with_slash : Bytes → Bool
begins_with_slash [] = false
begins_with_slash (c ∷ text) = c == b'/'

unfoldable pub file_url : Bytes → Bytes
file_url path =
    let escaped = percent_escape path true in
    if begins_with_slash escaped then codes "file://" ++ escaped else codes "file:///" ++ escaped

unfoldable pub query_escape : Bytes → Bytes
query_escape value = percent_escape value false

unfoldable pub shell_home_url : Bytes → Bytes → Bytes
shell_home_url plugin_root plugin_version =
    file_url (shell_index_path plugin_root)
    ++ (codes "?plugin_version=" ++ (query_escape plugin_version ++ codes "&skyscript=ready"))
