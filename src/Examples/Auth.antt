-- ===== src/Examples/Auth.antt =====
-- The theorems of the credential, of the start and of the fixture, with the small packages.
use table_queue.Common.{
  is_decimal, digit_value, ◌≡◌, ◌≢◌, refl, true, some, [], ◌∷◌, ◌++◌, Text, codes, arith, strip,
  lstrip, is_space,
}
use table_queue.Models.{Settings}
use table_queue.Errors.{ok, err}
use table_queue.Store.{Db, put_row}
use table_queue.Config.{AppSettings, development, reject_weak_jwt_secret}
use table_queue.Auth.Credentials.{
  settings_row, lowest_row, pin_matches, token_generation_value, token_signing_key,
}
use table_queue.Schemas.Pin.{ChangePinRequest, is_pin, bound_login, bound_change_pin}
use table_queue.Auth.Routes.{
  StaffLoginResponse, login, get_current_staff, change_pin, staff_claims, token_expired, rotated,
}
use table_queue.Auth.Tokens.{login-get_current_staff, change_pin-revokes, change_pin-login}
use table_queue.Examples.Fixture.{store_with, table_one, settings_one}
use table_queue.Examples.Packages.{dollars, readable}

abbrev pub secret : Text
secret = codes "0123456789abcdef0123456789abcdef"

abbrev pub process : AppSettings
process = record {
  jwt_secret = secret;
  jwt_expire_hours = 12;
  staff_pin = codes " 0042 ";
  default_branch_id = 1;
  trusted_proxies = codes "10.0.0.1,10.0.0.2";
  env = development;
  hsts_enabled = true;
}

pub secret-accepted : reject_weak_jwt_secret secret ≡ some process.jwt_secret
unfolding reject_weak_jwt_secret strip lstrip is_space
secret-accepted = refl

abbrev with_pin : Settings
with_pin = record settings_one { staff_pin_hash = some (dollars.hashpw (codes "1234") 5) }

abbrev open_db : Db
open_db = record (store_with [] table_one) { settings = with_pin ∷ [] }

abbrev answer : StaffLoginResponse
answer = record {
  access_token = readable.encode (staff_claims 1000 43200) (secret ++ codes "initial");
  expires_in = 43200;
}

login_answers : login dollars readable process open_db (codes "1234") 1000 ≡ ok answer
unfolding login bound_login is_pin is_decimal digit_value settings_row pin_matches strip lstrip
    is_space token_signing_key token_generation_value lowest_row
login_answers = refl

login-get_current_staff_example :
    get_current_staff readable (some answer.access_token) process open_db 2000
    ≡ ok (staff_claims 1000 answer.expires_in)
login-get_current_staff_example =
    login-get_current_staff dollars readable process secret secret-accepted open_db with_pin
      (codes "1234") 1000 2000 answer refl login_answers (omega arith)

abbrev rotation : ChangePinRequest
rotation = record {
  current_pin = codes "1234";
  new_pin = codes "5678";
  confirm_new_pin = codes "5678";
}

abbrev rotated_db : Db
rotated_db = record open_db {
  settings = rotated dollars with_pin (codes "5678") 6 (codes "f00d") ∷ [];
}

change_pin_answers :
    change_pin dollars open_db (staff_claims 1000 43200) rotation 6 (codes "f00d") ≡ ok rotated_db
unfolding change_pin bound_change_pin is_pin is_decimal digit_value settings_row pin_matches strip
    lstrip is_space put_row
change_pin_answers = refl

generations_differ : strip (codes "f00d") ≢ token_generation_value open_db
unfolding token_generation_value lowest_row strip lstrip is_space
generations_differ h = cc

change_pin-revokes_example :
    get_current_staff readable
      (some (readable.encode (staff_claims 1000 43200) (token_signing_key secret open_db)))
      process
      rotated_db
      2000
    ≡ err token_expired
unfolding strip lstrip is_space
change_pin-revokes_example =
    change_pin-revokes dollars readable process secret secret-accepted open_db with_pin refl
      (staff_claims 1000 43200) (staff_claims 1000 43200) rotation 6 2000 (codes "f00d") rotated_db
      change_pin_answers refl generations_differ

change_pin-login_example :
    (r : StaffLoginResponse) × (login dollars readable process rotated_db (codes "5678") 3000
      ≡ ok r)
    × (get_current_staff readable (some r.access_token) process rotated_db 4000
        ≡ ok (staff_claims 3000 r.expires_in))
change_pin-login_example =
    change_pin-login dollars readable process secret secret-accepted open_db with_pin refl
      (staff_claims 1000 43200) rotation 6 3000 4000 (codes "f00d") rotated_db change_pin_answers
      (omega arith)
