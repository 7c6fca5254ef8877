-- ===== src/App/Start.antt =====
-- What the start of the process leaves.
use table_queue.Common.{
  ℕ, ◌+◌, ◌*◌, ◌≤◌, ◌≡◌, refl, none, some, List, [], ◌∷◌, Text, strip, arith, inl, inr,
  Option-cases, if◌then◌else◌,
}
use table_queue.Models.{Settings}
use table_queue.Errors.{ok, err}
use table_queue.Store.{Db}
use table_queue.Config.{AppSettings, reject_weak_jwt_secret}
use table_queue.Schemas.Pin.{is_pin, pin_refused}
use table_queue.Auth.Crypto.{Bcrypt, Jwt}
use table_queue.Auth.Routes.{login, get_current_staff, staff_claims, StaffLoginResponse}
use table_queue.App.Bootstrap.{
  bootstrap_defaults, bootstrap_staff_pin_hash, default_settings_rows, insert_if_empty,
  default_settings, default_restaurant, default_branch,
}
use table_queue.Auth.Tokens.{HasRow, hashed-login}

insert_if_empty-again :
    {A : Type 0} (row : A) (rows : List A)
    → insert_if_empty row (insert_if_empty row rows) ≡ insert_if_empty row rows
insert_if_empty-again row [] = refl
insert_if_empty-again row (x ∷ xs) = refl

default_settings_rows-again :
    (bcrypt : Bcrypt) (settings later : AppSettings) (salt salt' : ℕ) (before after : List Settings)
    → default_settings_rows bcrypt settings salt before ≡ some after
    → default_settings_rows bcrypt later salt' after ≡ some after
unfolding default_settings_rows
default_settings_rows-again bcrypt settings later salt salt' (row ∷ rows) after h = ground arith
default_settings_rows-again bcrypt settings later salt salt' [] after h = ground arith

pub bootstrap_defaults-again :
    (bcrypt : Bcrypt) (settings later : AppSettings) (salt salt' : ℕ) (db db' : Db)
    → bootstrap_defaults bcrypt settings salt db ≡ some db'
    → bootstrap_defaults bcrypt later salt' db' ≡ some db'
unfolding bootstrap_defaults
bootstrap_defaults-again bcrypt settings later salt salt' db db' h =
    elim (Option-cases (default_settings_rows bcrypt settings salt db.settings)) [
      | inl fails ↦ absurd (raises fails)
      | inr (rows, e) ↦ ground (
        arith,
        default_settings_rows-again bcrypt settings later salt salt' db.settings rows e,
        insert_if_empty-again default_restaurant db.restaurants,
        insert_if_empty-again default_branch db.branches,
      )
    ]
  where
    raises : default_settings_rows bcrypt settings salt db.settings ≡ none → ⊥
    raises fails = ground arith

-- A start with a strong secret over a store without settings that does not raise leaves a store
-- where a login with the trimmed seed PIN succeeds when that is four to six digits, with a token
-- that opens the staff surface until its lifetime ends; any other seed, which the start takes too,
-- is refused at the login as a validation error.
pub bootstrap_defaults-login :
    (bcrypt : Bcrypt) (jwt : Jwt) (settings : AppSettings) (given : Text) (salt now later : ℕ)
    (db db' : Db)
    → reject_weak_jwt_secret given ≡ some settings.jwt_secret
    → db.settings ≡ []
    → bootstrap_defaults bcrypt settings salt db ≡ some db'
    → later ≤ now + settings.jwt_expire_hours * 3600
    → (r : StaffLoginResponse) × (login bcrypt jwt settings db' (strip settings.staff_pin) now
        ≡ (if is_pin (strip settings.staff_pin) then ok r else err pin_refused))
      × (get_current_staff jwt (some r.access_token) settings db' later
          ≡ ok (staff_claims now r.expires_in))
unfolding bootstrap_defaults default_settings_rows bootstrap_staff_pin_hash
bootstrap_defaults-login bcrypt jwt settings given salt now later db db' accepted fresh h within =
    let pin = strip settings.staff_pin in
    let row = default_settings (bcrypt.hashpw pin salt) in
    hashed-login bcrypt jwt settings given accepted db' row pin salt now later one_row refl within
  where
    one_row : HasRow db' (default_settings (bcrypt.hashpw (strip settings.staff_pin) salt))
    one_row = ground arith
