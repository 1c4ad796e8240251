-- ===== src/Notification/Tests.antt =====
-- Notifications (src/gui/notification.cpp) at concrete inputs, with whole seconds.
use zoal_atc.Common.{ℕ, ◌≡◌, ◌↔◌, true, false, some, codes, length, ltb, if◌then◌else◌}
use zoal_atc.Frames.{GuiEvent}
use zoal_atc.Json.Search.{json_string_field}
use zoal_atc.Notification.{Seconds, default_preferences, notification_for}
use zoal_atc.Notification.Policy.{Says, notification_for_raises}

abbrev whole : Seconds ℕ
whole = record {
  stod = λ text. some (length text);
  eight = 8;
  clamp = λ n. if ltb n 2 then 2 else if ltb 30 n then 30 else n;
}

abbrev reply : GuiEvent
reply = record {
  event = codes "atc_reply";
  payload_json = codes "{\"text\":\"cleared to land\",\"spokenBy\":\"tower\"}";
}

notification_for_raises_example :
    ((notification_for reply (default_preferences whole) false).raise ≡ true) ↔ (
      ((default_preferences whole).enabled ≡ true)
      × (false ≡ false)
      × (reply.event ≡ codes "atc_reply")
      × Says (json_string_field reply.payload_json (codes "text")))
notification_for_raises_example = notification_for_raises reply (default_preferences whole) false
