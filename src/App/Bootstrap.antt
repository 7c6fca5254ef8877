-- ===== src/App/Bootstrap.antt =====
-- `bootstrap_defaults` of backend/app/main.py, at a start that has created the schema: every table
-- is there. `none` is a start that raises.
use table_queue.Common.{
  ℕ, true, Option, none, some, List, [], ◌∷◌, Text, codes, strip, if◌then◌else◌,
}
use table_queue.Models.{Restaurant, Branch, Settings}
use table_queue.Store.{Db}
use table_queue.Config.{AppSettings}
use table_queue.Auth.Crypto.{Bcrypt}
use table_queue.Auth.Credentials.{is_empty, initial_token_generation}

-- `none` is the RuntimeError of a blank seed; `salt` is the draw of the hash.
unfoldable pub bootstrap_staff_pin_hash : Bcrypt → AppSettings → ℕ → Option Text
bootstrap_staff_pin_hash bcrypt settings salt =
    let seed = strip settings.staff_pin in
    if is_empty seed then none else some (bcrypt.hashpw seed salt)

abbrev pub default_restaurant : Restaurant
default_restaurant = record { id = 1; name = codes "Sunny Bistro" }

abbrev pub default_branch : Branch
default_branch = record {
  id = 1;
  restaurant_id = 1;
  name = codes "Taipei Xinyi";
  address = codes "No. 123, Example Rd., Xinyi Dist., Taipei City 110, Taiwan";
  phone = codes "02-1234-5678";
  timezone = codes "Asia/Taipei";
  business_day_cutoff_hour = 4;
  open_time = codes "11:00";
  close_time = codes "21:00";
}

abbrev pub default_settings : Text → Settings
default_settings pin_hash = record {
  id = 1;
  branch_id = 1;
  hold_minutes = 10;
  avg_seat_minutes = 15;
  queue_prefix = codes "A";
  is_waitlist_open = true;
  sound_enabled_default = true;
  notification_templates = codes "{}";
  staff_pin_hash = some pin_hash;
  token_generation = some initial_token_generation;
}

-- `if result.scalar() == 0: INSERT`
abbrev pub insert_if_empty : {A : Type 0} → A → List A → List A
insert_if_empty row [] = row ∷ []
insert_if_empty row (x ∷ xs) = x ∷ xs

unfoldable pub default_settings_rows :
    Bcrypt → AppSettings → ℕ → List Settings → Option (List Settings)
default_settings_rows bcrypt settings salt (row ∷ rows) = some (row ∷ rows)
default_settings_rows bcrypt settings salt [] =
    elim (bootstrap_staff_pin_hash bcrypt settings salt) [
      | none ↦ none
      | some pin_hash ↦ some (default_settings pin_hash ∷ [])
    ]

unfoldable pub bootstrap_defaults : Bcrypt → AppSettings → ℕ → Db → Option Db
bootstrap_defaults bcrypt settings salt db =
    elim (default_settings_rows bcrypt settings salt db.settings) [
      | none ↦ none
      | some rows ↦ some (record db {
        restaurants = insert_if_empty default_restaurant db.restaurants;
        branches = insert_if_empty default_branch db.branches;
        settings = rows;
      })
    ]
