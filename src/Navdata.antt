-- ===== src/Navdata.antt =====
-- src/navdata/navdata_service.cpp: the texts of the simulator's navigation files for the console. The
-- frames and the console's requests.
pub mod Lines
pub mod Blocks
pub mod Publisher
pub mod Ends
pub mod Fields
pub mod Scan
pub mod File
pub mod Store
mod Tests
use zoal_atc.Common.{
  ℕ, Bool, true, false, not, ◌&&◌, ◌||◌, List, [], ◌∷◌, ◌++◌, Option, none, some, if◌then◌else◌,
  ◌>>=◌, Bytes, codes, text_eq,
}
use zoal_atc.Endpoint.{is_nil}
use zoal_atc.Json.{json_escape}
use zoal_atc.Json.Search.{json_string_field}

pub data NavdataKind : Type 0 where
  apt cifp airspace vrp fixes atc : NavdataKind

abbrev pub kind_name : NavdataKind → Bytes
kind_name apt = codes "apt"
kind_name cifp = codes "cifp"
kind_name airspace = codes "airspace"
kind_name vrp = codes "vrp"
kind_name fixes = codes "fixes"
kind_name atc = codes "atc"

-- A comma, and a field whose value is a string.
abbrev pub text_field : Bytes → Bytes → Bytes
text_field key value = codes ",\"" ++ (key ++ (codes "\":\"" ++ (json_escape value ++ codes "\"")))

abbrev pub optional_field : Bytes → Bytes → Bytes
optional_field key value = if is_nil value then [] else text_field key value

unfoldable pub build_navdata_hash_frame : NavdataKind → Bytes → Bytes → Bytes → Bytes
build_navdata_hash_frame kind icao md5 source =
    codes "{\"type\":\"navdata_"
    ++ (kind_name kind
        ++ (codes "_hash\""
            ++ (optional_field (codes "icao") icao
                ++ (text_field (codes "md5") md5
                    ++ (optional_field (codes "source") source ++ codes "}")))))

unfoldable pub build_navdata_frame : NavdataKind → Bytes → Bytes → Bytes → Bytes → Bytes
build_navdata_frame kind icao md5 source text =
    codes "{\"type\":\"navdata_"
    ++ (kind_name kind
        ++ (codes "\""
            ++ (optional_field (codes "icao") icao
                ++ (text_field (codes "md5") md5
                    ++ (optional_field (codes "source") source
                        ++ (text_field (codes "text") text ++ codes "}"))))))

unfoldable pub build_fixes_hash_frame : Bytes → Bytes → Bytes → Bytes
build_fixes_hash_frame file md5 source =
    codes "{\"type\":\"navdata_fixes_hash\""
    ++ (text_field (codes "file") file
        ++ (text_field (codes "md5") md5 ++ (optional_field (codes "source") source ++ codes "}")))

unfoldable pub build_fixes_frame : Bytes → Bytes → Bytes → Bytes → Bytes
build_fixes_frame file md5 source text =
    codes "{\"type\":\"navdata_fixes\""
    ++ (text_field (codes "file") file
        ++ (text_field (codes "md5") md5
            ++ (optional_field (codes "source") source
                ++ (text_field (codes "text") text ++ codes "}"))))

unfoldable pub build_metar_frame : Bytes → Bytes
build_metar_frame text =
    codes "{\"type\":\"weather_metar\"" ++ (text_field (codes "text") text ++ codes "}")

pub record NavdataRequest : Type 0 where
  pub kind : NavdataKind
  pub scan : Bool
  pub icao : Bytes
  pub md5 : Bytes
  pub file : Bytes

-- The kind that a type asks for, and whether it asks for a scan.
abbrev pub request_type : Bytes → Option (NavdataKind × Bool)
request_type type =
    if text_eq type (codes "navdata_scan_request")
    then some (apt, true)
    else if text_eq type (codes "navdata_apt_request")
    then some (apt, false)
    else if text_eq type (codes "navdata_cifp_request")
    then some (cifp, false)
    else if text_eq type (codes "navdata_airspace_request")
    then some (airspace, false)
    else if text_eq type (codes "navdata_vrp_request")
    then some (vrp, false)
    else if text_eq type (codes "navdata_fixes_request")
    then some (fixes, false)
    else if text_eq type (codes "navdata_atc_request")
    then some (atc, false)
    else none

-- `value_or("")`.
abbrev pub or_empty : Option Bytes → Bytes
or_empty none = []
or_empty (some value) = value

unfoldable pub parse_navdata_request : Bytes → Option NavdataRequest
unfolding json_string_field
parse_navdata_request payload = json_string_field payload (codes "type") >>= λ type.
    request_type type >>= λ k.
    (let icao = or_empty (json_string_field payload (codes "icao")) in
      if k.1 && is_nil icao
      then none
      else some (record {
        kind = k.0;
        scan = k.1;
        icao = icao;
        md5 = or_empty (json_string_field payload (codes "md5"));
        file = or_empty (json_string_field payload (codes "file"));
      }))
