-- ===== src/Schemas/Settings.antt =====
-- `UpdateSettingsRequest`: the body of a settings PATCH and what its validators refuse.
use table_queue.Common.{
  two_digits, ℕ, Bool, true, false, not, ◌&&◌, Option, none, some, List, [], ◌∷◌, Text, codes, ltb,
  leb, ◌==◌, length, all_of, if◌then◌else◌,
}
use table_queue.Errors.{Result, ok, err, app_error, validation_error, rejected}
use table_queue.Schemas.Refusals.{joined}

-- A value of a template object: a string, or any other JSON value, by its text.
pub data TemplateValue : Type 0 where
  string other : Text → TemplateValue

-- A JSON object, as its items with distinct keys.
abbrev pub Templates : Type 0
Templates = List (Text × TemplateValue)

-- As in the table requests, a field that the body leaves out is `none` and an explicit null is
-- `some none`. A body with any other key is refused before (`extra="forbid"`), and the types are
-- bound: an integer below zero is below every bound, as 0 is.
pub record UpdateSettingsRequest : Type 0 where
  pub address : Option (Option Text)
  pub avg_seat_minutes : Option (Option ℕ)
  pub branch_name : Option (Option Text)
  pub close_time : Option (Option Text)
  pub hold_minutes : Option (Option ℕ)
  pub is_waitlist_open : Option (Option Bool)
  pub notification_templates : Option (Option Templates)
  pub open_time : Option (Option Text)
  pub phone : Option (Option Text)
  pub queue_prefix : Option (Option Text)
  pub restaurant_name : Option (Option Text)
  pub sound_enabled_default : Option (Option Bool)

abbrev pub within : ℕ → ℕ → ℕ → Bool
within low high n = leb low n && leb n high

abbrev pub is_hold_minutes : ℕ → Bool
is_hold_minutes = within 5 15

abbrev pub is_avg_seat_minutes : ℕ → Bool
is_avg_seat_minutes = within 5 60

-- `^[A-Z]{1,3}$`
unfoldable pub is_queue_prefix : Text → Bool
is_queue_prefix prefix = within 1 3 (length prefix) && all_of (within b'A' b'Z') prefix

-- `^\d{2}:\d{2}$` with an hour up to 24 and a minute up to 59
unfoldable pub is_clock_time : Text → Bool
is_clock_time (a ∷ b ∷ colon ∷ c ∷ d ∷ []) = elim (two_digits a b) [
  | none ↦ false
  | some hours ↦ elim (two_digits c d) [
    | none ↦ false
    | some minutes ↦ colon == b':' && not (ltb 24 hours) && not (ltb 59 minutes)
  ]
]
is_clock_time _ = false

abbrev any_value : {A : Type 0} → A → Bool
any_value _ = true

-- The name of a field that is null, or whose value the test refuses.
abbrev pub refused : {A : Type 0} → Text → (A → Bool) → Option (Option A) → List Text
refused name test none = []
refused name test (some none) = name ∷ []
refused name test (some (some value)) = if test value then [] else name ∷ []

-- The validators, field by field.
abbrev pub refusals : UpdateSettingsRequest → List (List Text)
refusals body =
    refused (codes "address") any_value body.address
    ∷ refused (codes "avg_seat_minutes") is_avg_seat_minutes body.avg_seat_minutes
    ∷ refused (codes "branch_name") any_value body.branch_name
    ∷ refused (codes "close_time") is_clock_time body.close_time
    ∷ refused (codes "hold_minutes") is_hold_minutes body.hold_minutes
    ∷ refused (codes "is_waitlist_open") any_value body.is_waitlist_open
    ∷ refused (codes "open_time") is_clock_time body.open_time
    ∷ refused (codes "phone") any_value body.phone
    ∷ refused (codes "queue_prefix") is_queue_prefix body.queue_prefix
    ∷ refused (codes "restaurant_name") any_value body.restaurant_name
    ∷ refused (codes "sound_enabled_default") any_value body.sound_enabled_default
    ∷ []

unfoldable pub refused_fields : UpdateSettingsRequest → List Text
unfolding is_queue_prefix is_clock_time
refused_fields body = joined (refusals body)

-- The body that reaches the handler.
unfoldable pub bound_settings : UpdateSettingsRequest → Result UpdateSettingsRequest
unfolding refused_fields
bound_settings body = elim (refused_fields body) [
  | [] ↦ ok body
  | name ∷ names ↦ err (app_error validation_error (some 422) (rejected (name ∷ names)))
]
