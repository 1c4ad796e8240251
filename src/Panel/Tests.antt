-- ===== src/Panel/Tests.antt =====
-- The paths of src/gui/panel_paths.cpp at concrete places.
use zoal_atc.Common.{◌≡◌, refl, some, ◌++◌, All, arith, codes}
use zoal_atc.Panel.{
  preferred_separator, is_platform_directory, percent_escape, directory_name, base_name, join_path,
  plugin_root_from_binary_path, apps_dir, shell_index_path, file_url, query_escape, shell_home_url,
}
use zoal_atc.Panel.Escapes.{unescape, Unreserved}
use zoal_atc.Panel.Urls.{file_shown, shell_home_url-unescape}
use zoal_atc.Endpoint.{split_last}
use zoal_atc.Common.{text_eq}

root_of_binary :
    plugin_root_from_binary_path (codes "/X-Plane/plugins/zoal/lin_x64/zoal.xpl")
    ≡ codes "/X-Plane/plugins/zoal"
unfolding plugin_root_from_binary_path directory_name base_name is_platform_directory split_last
    text_eq
root_of_binary = refl

home_of_windows :
    shell_home_url (codes "C:\\X Plane\\zoal\\") (codes "1.0+b")
    ≡ codes
        "file:///C:/X%20Plane/zoal/apps/zoal-atc/index.html?plugin_version=1.0%2Bb&skyscript=ready"
unfolding shell_home_url file_url query_escape percent_escape shell_index_path apps_dir join_path
    preferred_separator
home_of_windows = refl

shell_home_url-unescape_example :
    (unescape (shell_home_url (codes "/z") (codes "1+"))
      ≡ some (
          file_shown (shell_index_path (codes "/z"))
          ++ (codes "?plugin_version=" ++ (codes "1+" ++ codes "&skyscript=ready"))))
    × All Unreserved (query_escape (codes "1+"))
shell_home_url-unescape_example =
    shell_home_url-unescape (codes "/z") (codes "1+") (omega arith, (omega arith, tt))
      (omega arith, (omega arith, tt))
