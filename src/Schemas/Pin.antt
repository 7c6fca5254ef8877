-- ===== src/Schemas/Pin.antt =====
-- `StaffLoginRequest` and `ChangePinRequest` of backend/app/schemas.py.
use table_queue.Common.{
  is_decimal, ◌≡◌, Bool, true, ◌&&◌, some, List, [], ◌∷◌, Text, codes, length, all_of, inl, inr,
  arith,
}
use table_queue.Errors.{AppError, Result, ok, err, ensure, app_error, validation_error, rejected}
use table_queue.Schemas.Settings.{within}
use table_queue.Schemas.Refusals.{joined, joined-nil, first-name}
use table_queue.Schemas.Guest.{refused_if_not}

-- `^\d{4,6}$` as pydantic matches it: its `$` is the end of the text.
unfoldable pub is_pin : Text → Bool
is_pin pin = within 4 6 (length pin) && all_of is_decimal pin

abbrev pub pin_refused : AppError
pin_refused = app_error validation_error (some 422) (rejected (codes "pin" ∷ []))

-- What a login's body is checked for.
unfoldable pub bound_login : Text → Result (Unit {0})
bound_login pin = ensure (is_pin pin) pin_refused

pub record ChangePinRequest : Type 0 where
  pub current_pin : Text
  pub new_pin : Text
  pub confirm_new_pin : Text

abbrev pin_refusals : ChangePinRequest → List (List Text)
pin_refusals body =
    refused_if_not (codes "current_pin") (is_pin body.current_pin)
    ∷ refused_if_not (codes "new_pin") (is_pin body.new_pin)
    ∷ refused_if_not (codes "confirm_new_pin") (is_pin body.confirm_new_pin)
    ∷ []

unfoldable pub bound_change_pin : ChangePinRequest → Result ChangePinRequest
bound_change_pin body = elim (joined (pin_refusals body)) [
  | [] ↦ ok body
  | field ∷ fields ↦ err (app_error validation_error (some 422) (rejected (field ∷ fields)))
]

accepted : (field : Text) (passes : Bool) → refused_if_not field passes ≡ [] → passes ≡ true
accepted field passes h = ground arith

-- A body that passes is handed on as it is, with a new PIN that a login takes.
pub bound_change_pin-ok :
    (body bound : ChangePinRequest)
    → bound_change_pin body ≡ ok bound
    → (bound ≡ body) × (is_pin body.new_pin ≡ true)
unfolding bound_change_pin
bound_change_pin-ok body bound h = elim (first-name (joined (pin_refusals body))) [
  | inl none_refused ↦
      let (_, (fresh, _)) = joined-nil (pin_refusals body) none_refused in
      (same none_refused, accepted (codes "new_pin") (is_pin body.new_pin) fresh)
  | inr (field, fields, some_refused) ↦ absurd (refuses field fields some_refused)
]
  where
    refuses : (field : Text) (fields : List Text) → joined (pin_refusals body) ≡ field ∷ fields → ⊥
    refuses field fields e = ground arith

    same : joined (pin_refusals body) ≡ [] → bound ≡ body
    same e = ground arith
