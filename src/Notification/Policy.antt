-- ===== src/Notification/Policy.antt =====
-- When a notification is raised and where (src/gui/notification.cpp).
use zoal_atc.Common.{
  ◌≡◌, ◌≢◌, refl, ◌↔◌, Bool, true, false, not, List, [], ◌∷◌, Option, none, some, if◌then◌else◌,
  if_both, if_known, Bytes, codes, text_eq, text_eq_iff,
}
use zoal_atc.Frames.{GuiEvent}
use zoal_atc.Json.Search.{json_string_field}
use zoal_atc.Notification.{
  NotificationPreferences, NotificationControl, NotificationController, NotificationRequest,
  Seconds, is_known_corner, corner_of, request_for, no_request, control_of,
  parse_notification_control, new_controller, apply, reset_commanded, preferences, notification_for,
}

-- Something was said.
abbrev pub Says : Option Bytes → Type 0
Says text = (said : Bytes) × (text ≡ some said) × (said ≢ [])

request_for-raise :
    (text speaker : Option Bytes) → ((request_for text speaker).raise ≡ true) ↔ Says text
unfolding request_for
request_for-raise none speaker = (λ e. absurd cc, λ h. let (said, e, n) = h in absurd cc)
request_for-raise (some []) speaker = (λ e. absurd cc, λ h. let (said, e, n) = h in absurd (n cc))
request_for-raise (some (c ∷ text)) speaker = (λ e. (c ∷ text, refl, λ n. cc), λ h. refl)

gate_raise :
    (enabled visible reply : Bool) (r : NotificationRequest)
    → ((if not enabled
          then no_request
          else if visible
          then no_request
          else if not reply
          then no_request
          else r).raise
        ≡ true)
      ↔ ((enabled ≡ true) × (visible ≡ false) × (reply ≡ true) × (r.raise ≡ true))
gate_raise false visible reply r = (λ e. absurd cc, λ h. absurd (let (a, b, c, d) = h in cc))
gate_raise true true reply r = (λ e. absurd cc, λ h. absurd (let (a, b, c, d) = h in cc))
gate_raise true false false r = (λ e. absurd cc, λ h. absurd (let (a, b, c, d) = h in cc))
gate_raise true false true r = (λ e. (refl, refl, refl, e), λ h. h.3)

abbrev Known : Bytes → Type 0
Known corner = is_known_corner corner ≡ true

top_right-Known : Known (codes "top_right")
unfolding text_eq
top_right-Known = refl

corner_of-Known : (found : Option Bytes) → Known (corner_of (codes "top_right") found)
corner_of-Known none = top_right-Known
corner_of-Known (some corner) =
    if_known Known (is_known_corner corner) (λ e. e) (λ e. top_right-Known)

-- The frames and the losses of the console, in their order.
pub data Call : Type 0 where
  receives : Bytes → Call
  loses : Call

module _ {Double : Type 0} where
  -- A notification is raised exactly if they are enabled, the panel is hidden, the event is a
  -- reply of the controller and its payload has a text that is not empty.
  pub notification_for_raises :
      (event : GuiEvent) (prefs : NotificationPreferences Double) (panel_visible : Bool)
      → ((notification_for event prefs panel_visible).raise ≡ true) ↔ (
          (prefs.enabled ≡ true)
          × (panel_visible ≡ false)
          × (event.event ≡ codes "atc_reply")
          × Says (json_string_field event.payload_json (codes "text")))
  unfolding notification_for
  notification_for_raises event prefs panel_visible =
      let text = json_string_field event.payload_json (codes "text") in
      let speaker = json_string_field event.payload_json (codes "spokenBy") in
      let gate =
        gate_raise prefs.enabled panel_visible (text_eq event.event (codes "atc_reply"))
          (request_for text speaker) in
      let reply = text_eq_iff event.event (codes "atc_reply") in
      let said = request_for-raise text speaker in
      (
        λ e. let (a, b, c, d) = gate.0 e in (a, b, reply.0 c, said.0 d),
        λ h. let (a, b, c, d) = h in gate.1 (a, b, reply.1 c, said.1 d),
      )

  unfoldable pub step :
      Seconds Double → NotificationController Double → Call → NotificationController Double
  unfolding parse_notification_control apply reset_commanded
  step t controller (receives json) = apply controller (parse_notification_control t json)
  step t controller loses = reset_commanded t controller

  unfoldable pub run :
      Seconds Double → NotificationController Double → List Call → NotificationController Double
  unfolding step
  run t controller [] = controller
  run t controller (call ∷ calls) = run t (step t controller call) calls

  abbrev Placed : NotificationController Double → Type 0
  Placed controller = Known controller.local.corner × Known controller.commanded_prefs.corner

  control_of-Known :
      (t : Seconds Double) (json : Bytes) (type : Option Bytes)
      → Known (control_of t json type).prefs.corner
  unfolding control_of
  control_of-Known t json none = top_right-Known
  control_of-Known t json (some type) =
      if_both (λ (c : NotificationControl Double). Known c.prefs.corner)
        (text_eq type (codes "notification_control"))
        (corner_of-Known (json_string_field json (codes "corner"))) top_right-Known

  step-Placed :
      (t : Seconds Double) (controller : NotificationController Double) (call : Call)
      → Placed controller
      → Placed (step t controller call)
  unfolding step apply parse_notification_control reset_commanded
  step-Placed t controller (receives json) (h, k) =
      let control = control_of t json (json_string_field json (codes "type")) in
      if_both Placed (not control.valid) (h, k)
        (h, control_of-Known t json (json_string_field json (codes "type")))
  step-Placed t controller loses (h, k) = (h, top_right-Known)

  run-Placed :
      (t : Seconds Double) (controller : NotificationController Double) (calls : List Call)
      → Placed controller
      → Placed (run t controller calls)
  unfolding run
  run-Placed t controller [] h = h
  run-Placed t controller (call ∷ calls) h =
      run-Placed t (step t controller call) calls (step-Placed t controller call h)

  -- Whatever frames arrive and however often the console is lost, the corner in force is one of
  -- the four that there are.
  pub run-preferences :
      (t : Seconds Double) (calls : List Call)
      → is_known_corner (preferences (run t (new_controller t) calls)).corner ≡ true
  unfolding preferences
  run-preferences t calls =
      let (h, k) = run-Placed t (new_controller t) calls (top_right-Known, top_right-Known) in
      if_both (λ (p : NotificationPreferences Double). Known p.corner)
        (run t (new_controller t) calls).commanded k h
