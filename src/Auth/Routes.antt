-- ===== src/Auth/Routes.antt =====
-- Login, the check of a bearer and the change of the PIN: the routes of backend/app/routers/auth.py,
-- each after the checks of its request model, and `get_current_staff` of backend/app/dependencies.py. A salt and a token generation are draws
-- of the request.
use table_queue.Common.{
  ℕ, ◌+◌, ◌*◌, Bool, true, false, not, ◌||◌, Option, none, some, Text, codes, ltb, text_eq, strip,
  ◌++◌, is_some,
}
use table_queue.Models.{Settings}
use table_queue.Errors.{
  Result, ok, err, ◌>>=◌, ◌>>◌, ensure, or_raise, AppError, app_error, auth_invalid_pin,
  auth_token_expired, validation_error, nothing,
}
use table_queue.Store.{Db, save_settings}
use table_queue.Config.{AppSettings}
use table_queue.Schemas.Pin.{ChangePinRequest, bound_login, bound_change_pin}
use table_queue.Auth.Crypto.{Bcrypt, Jwt, Claims}
use table_queue.Auth.Credentials.{
  settings_row, pin_matches, token_signing_key, token_generation_value, credential_is_configured,
}

abbrev pub token_expired : AppError
token_expired = app_error auth_token_expired none nothing

abbrev pub staff_subject : Text
staff_subject = codes "staff"

abbrev pub staff_claims : ℕ → ℕ → Claims
staff_claims now lifetime_seconds = record {
  sub = some staff_subject;
  role = some staff_subject;
  iat = some now;
  exp = some (now + lifetime_seconds);
}

pub record StaffLoginResponse : Type 0 where
  pub access_token : Text
  pub expires_in : ℕ

-- `now` is `int(time.time())`.
unfoldable pub login : Bcrypt → Jwt → AppSettings → Db → Text → ℕ → Result StaffLoginResponse
login bcrypt jwt settings db pin now = do
  bound_login pin
  row ← settings_row db
  ensure (pin_matches bcrypt pin row) (app_error auth_invalid_pin none nothing)
  let expires_in = settings.jwt_expire_hours * 3600
  let token = jwt.encode (staff_claims now expires_in) (token_signing_key settings.jwt_secret db)
  ok (record { access_token = token; expires_in = expires_in })

-- `exp is None or now > int(exp)`
abbrev pub is_past : ℕ → Option ℕ → Bool
is_past now none = true
is_past now (some exp) = ltb exp now

unfoldable pub verify : Jwt → Text → AppSettings → Db → ℕ → Result Claims
verify jwt token settings db now = do
  ensure (credential_is_configured db) token_expired
  payload ←
      or_raise (jwt.decode now token (strip settings.jwt_secret ++ token_generation_value db))
        token_expired
  ensure (not (is_past now payload.exp)) token_expired
  ensure (is_some payload.sub) token_expired
  ok payload

-- `none` is a request with no bearer.
unfoldable pub get_current_staff : Jwt → Option Text → AppSettings → Db → ℕ → Result Claims
get_current_staff jwt none settings db now = err token_expired
get_current_staff jwt (some token) settings db now = verify jwt token settings db now

abbrev is_staff : Claims → Bool
is_staff staff = elim staff.sub [ none ↦ false | some sub ↦ text_eq sub staff_subject ]

abbrev pub rotated : Bcrypt → Settings → Text → ℕ → Text → Settings
rotated bcrypt row new_pin salt generation = record row {
  staff_pin_hash = some (bcrypt.hashpw new_pin salt);
  token_generation = some generation;
}

unfoldable pub change_pin : Bcrypt → Db → Claims → ChangePinRequest → ℕ → Text → Result Db
change_pin bcrypt db staff body salt generation = do
  payload ← bound_change_pin body
  ensure (is_staff staff) token_expired
  row ← settings_row db
  ensure (pin_matches bcrypt payload.current_pin row) (app_error auth_invalid_pin none nothing)
  ensure
      (not (
        text_eq payload.new_pin payload.current_pin
        || not (text_eq payload.new_pin payload.confirm_new_pin)))
      (app_error validation_error (some 422) nothing)
  ok (save_settings (rotated bcrypt row payload.new_pin salt generation) db)
