-- ===== src/Notification.antt =====
-- src/gui/notification.cpp: when the pilot is told that the controller spoke. A `double` and what the
-- source does with it are arguments.
pub mod Policy
mod Tests
use zoal_atc.Common.{
  ℕ, ◌+◌, ◌-◌, Bool, true, false, not, ◌&&◌, ◌||◌, List, [], ◌∷◌, ◌++◌, Option, none, some, leb,
  if◌then◌else◌, Bytes, codes, text_eq, length, take,
}
use zoal_atc.Endpoint.{is_nil}
use zoal_atc.Frames.{GuiEvent}
use zoal_atc.Json.Search.{json_string_field, json_bool_field, json_number_field}

pub record NotificationPreferences (Double : Type 0) : Type 0 where
  pub enabled : Bool
  pub corner : Bytes
  pub timeout_secs : Double
  pub sound : Bool

pub record NotificationControl (Double : Type 0) : Type 0 where
  pub prefs : NotificationPreferences Double
  pub valid : Bool

pub record NotificationController (Double : Type 0) : Type 0 where
  pub local : NotificationPreferences Double
  pub commanded : Bool
  pub commanded_prefs : NotificationPreferences Double

pub record NotificationRequest : Type 0 where
  pub raise : Bool
  pub title : Bytes
  pub body : Bytes

-- The text of a number, eight seconds, and `std::clamp` between two and thirty.
pub record Seconds (Double : Type 0) : Type 0 where
  pub stod : Bytes → Option Double
  pub eight : Double
  pub clamp : Double → Double

abbrev pub is_known_corner : Bytes → Bool
is_known_corner corner =
    text_eq corner (codes "top_left")
    || text_eq corner (codes "top_right")
    || text_eq corner (codes "bottom_left")
    || text_eq corner (codes "bottom_right")

abbrev pub max_body_chars : ℕ
max_body_chars = 240

-- The three bytes of an ellipsis.
abbrev pub ellipsis : Bytes
ellipsis = 0xE2 ∷ 0x80 ∷ 0xA6 ∷ []

unfoldable pub truncate : Bytes → Bytes
truncate text =
    if leb (length text) max_body_chars then text else take (max_body_chars - 1) text ++ ellipsis

unfoldable pub title_for : Bytes → Bytes
title_for position =
    if text_eq position (codes "clearance_delivery")
    then codes "Clearance Delivery"
    else if text_eq position (codes "ground")
    then codes "Ground"
    else if text_eq position (codes "tower")
    then codes "Tower"
    else if text_eq position (codes "departure")
    then codes "Departure"
    else if text_eq position (codes "approach")
    then codes "Approach"
    else if text_eq position (codes "center")
    then codes "Center"
    else if text_eq position (codes "oceanic")
    then codes "Oceanic"
    else if text_eq position (codes "ramp") || text_eq position (codes "ramp_control")
    then codes "Ramp"
    else if text_eq position (codes "fbo_or_handler")
    then codes "FBO"
    else if text_eq position (codes "unicom_ctaf")
    then codes "UNICOM"
    else codes "ATC"

abbrev pub or_default {ℓ} : {A : Type ℓ} → Option A → A → A
or_default none d = d
or_default (some a) d = a

abbrev pub no_request : NotificationRequest
no_request = record { raise = false; title = []; body = [] }

-- Of what was said and by whom.
unfoldable pub request_for : Option Bytes → Option Bytes → NotificationRequest
unfolding truncate title_for
request_for none speaker = no_request
request_for (some text) speaker =
    if is_nil text
    then no_request
    else record { raise = true; title = title_for (or_default speaker []); body = truncate text }

abbrev pub corner_of : Bytes → Option Bytes → Bytes
corner_of before none = before
corner_of before (some corner) = if is_known_corner corner then corner else before

module _ {Double : Type 0} where
  abbrev pub default_preferences : Seconds Double → NotificationPreferences Double
  default_preferences t = record {
    enabled = true;
    corner = codes "top_right";
    timeout_secs = t.eight;
    sound = true;
  }

  abbrev pub timeout_of : Seconds Double → Option Double → Double
  timeout_of t none = t.eight
  timeout_of t (some timeout) = t.clamp timeout

  -- The type of the frame, if it has one.
  unfoldable pub control_of : Seconds Double → Bytes → Option Bytes → NotificationControl Double
  control_of t json none = record { prefs = default_preferences t; valid = false }
  control_of t json (some type) =
      if text_eq type (codes "notification_control")
      then record {
        prefs = record {
          enabled = or_default (json_bool_field json (codes "enabled")) true;
          corner = corner_of (codes "top_right") (json_string_field json (codes "corner"));
          timeout_secs = timeout_of t (json_number_field t.stod json (codes "timeout_secs"));
          sound = or_default (json_bool_field json (codes "sound")) true;
        };
        valid = true;
      }
      else record { prefs = default_preferences t; valid = false }

  unfoldable pub parse_notification_control : Seconds Double → Bytes → NotificationControl Double
  unfolding control_of
  parse_notification_control t json = control_of t json (json_string_field json (codes "type"))

  abbrev pub new_controller : Seconds Double → NotificationController Double
  new_controller t = record {
    local = default_preferences t;
    commanded = false;
    commanded_prefs = default_preferences t;
  }

  unfoldable pub apply :
      NotificationController Double → NotificationControl Double → NotificationController Double
  apply controller control =
      if not control.valid
      then controller
      else record controller { commanded = true; commanded_prefs = control.prefs }

  unfoldable pub reset_commanded :
      Seconds Double → NotificationController Double → NotificationController Double
  reset_commanded t controller = record controller {
    commanded = false;
    commanded_prefs = default_preferences t;
  }

  unfoldable pub preferences : NotificationController Double → NotificationPreferences Double
  preferences controller =
      if controller.commanded then controller.commanded_prefs else controller.local

  unfoldable pub notification_for :
      GuiEvent → NotificationPreferences Double → Bool → NotificationRequest
  unfolding request_for
  notification_for event prefs panel_visible =
      if not prefs.enabled
      then no_request
      else if panel_visible
      then no_request
      else if not (text_eq event.event (codes "atc_reply"))
      then no_request
      else request_for (json_string_field event.payload_json (codes "text"))
          (json_string_field event.payload_json (codes "spokenBy"))
