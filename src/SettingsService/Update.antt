-- ===== src/SettingsService/Update.antt =====
-- The read and the partial write of the configured branch's settings. `loads` is the parser of
-- Python's json, which reads the text of the templates' column.
use table_queue.Common.{
  ℕ, Bool, false, not, ◌||◌, Option, none, some, [], ◌∷◌, Text, codes, first, keep, ◌==◌, is_some,
}
use table_queue.Models.{Settings, Branch, Restaurant}
use table_queue.Errors.{
  Result, ok, ◌>>=◌, ◌>>◌, ensure, or_raise, AppError, app_error, validation_error, internal_error,
  nothing, rejected,
}
use table_queue.Store.{
  Db, find_branch, get_row, restaurant_key, save_settings, save_branch, save_restaurant,
}
use table_queue.Waitlist.Dates.{Env}
use table_queue.Schemas.Settings.{UpdateSettingsRequest, Templates, bound_settings}
use table_queue.SettingsService.Templates.{Loaded, dumps, parse_templates, templates_are_valid}
use table_queue.Auth.Credentials.{is_empty}

pub record SettingsResponse : Type 0 where
  pub address : Option Text
  pub avg_seat_minutes : ℕ
  pub branch_name : Text
  pub close_time : Option Text
  pub has_pin : Bool
  pub hold_minutes : ℕ
  pub is_waitlist_open : Bool
  pub notification_templates : Templates
  pub open_time : Option Text
  pub phone : Option Text
  pub queue_prefix : Text
  pub restaurant_name : Text
  pub sound_enabled_default : Bool

abbrev pub is_of_branch : Env → Settings → Bool
is_of_branch env row = row.branch_id == env.default_branch_id

unfoldable pub settings_row : Env → Db → Result Settings
settings_row env db =
    or_raise (first (keep (is_of_branch env) db.settings)) (app_error internal_error none nothing)

-- `branch.restaurant`
abbrev pub find_restaurant : ℕ → Db → Option Restaurant
find_restaurant k db = get_row restaurant_key k db.restaurants

-- `bool(row.staff_pin_hash)`
abbrev pub has_hash : Option Text → Bool
has_hash none = false
has_hash (some hash) = not (is_empty hash)

abbrev of_branch : {A : Type 0} → (Branch → A) → Option Branch → Option A
of_branch column none = none
of_branch column (some branch) = some (column branch)

abbrev text_or_empty : Option Text → Text
text_or_empty none = []
text_or_empty (some t) = t

abbrev name_of : Option Restaurant → Text
name_of none = []
name_of (some restaurant) = restaurant.name

abbrev pub restaurant_of : Db → Option Branch → Option Restaurant
restaurant_of db none = none
restaurant_of db (some branch) = find_restaurant branch.restaurant_id db

abbrev pub response_of : Settings → Option Branch → Option Restaurant → Templates → SettingsResponse
response_of row branch restaurant templates = record {
  address = of_branch (λ b. b.address) branch;
  avg_seat_minutes = row.avg_seat_minutes;
  branch_name = text_or_empty (of_branch (λ b. b.name) branch);
  close_time = of_branch (λ b. b.close_time) branch;
  has_pin = has_hash row.staff_pin_hash;
  hold_minutes = row.hold_minutes;
  is_waitlist_open = row.is_waitlist_open;
  notification_templates = templates;
  open_time = of_branch (λ b. b.open_time) branch;
  phone = of_branch (λ b. b.phone) branch;
  queue_prefix = row.queue_prefix;
  restaurant_name = name_of restaurant;
  sound_enabled_default = row.sound_enabled_default;
}

-- `if field in body: setattr(row, column, body[field])`; no null of these fields passes the schema.
abbrev pub written : {A : Type 0} → Option (Option A) → A → A
written (some (some value)) stored = value
written (some none) stored = stored
written none stored = stored

abbrev pub written_templates : Option (Option Templates) → Text → Text
written_templates (some (some templates)) stored = dumps templates
written_templates (some none) stored = stored
written_templates none stored = stored

abbrev pub written_row : UpdateSettingsRequest → Settings → Settings
written_row body row = record row {
  hold_minutes = written body.hold_minutes row.hold_minutes;
  avg_seat_minutes = written body.avg_seat_minutes row.avg_seat_minutes;
  queue_prefix = written body.queue_prefix row.queue_prefix;
  is_waitlist_open = written body.is_waitlist_open row.is_waitlist_open;
  sound_enabled_default = written body.sound_enabled_default row.sound_enabled_default;
  notification_templates = written_templates body.notification_templates row.notification_templates;
}

abbrev pub written_branch : UpdateSettingsRequest → Branch → Branch
written_branch body branch = record branch {
  name = written body.branch_name branch.name;
  address = written body.address branch.address;
  phone = written body.phone branch.phone;
  open_time = written body.open_time branch.open_time;
  close_time = written body.close_time branch.close_time;
}

-- A field of the branch or of the restaurant.
abbrev names_branch : UpdateSettingsRequest → Bool
names_branch body =
    is_some body.branch_name
    || is_some body.address
    || is_some body.phone
    || is_some body.open_time
    || is_some body.close_time

abbrev template_error : AppError
template_error = app_error validation_error none (rejected (codes "notification_templates" ∷ []))

unfoldable pub check_templates : Option (Option Templates) → Result (Unit {0})
check_templates none = ok tt
check_templates (some templates) = ensure (templates_are_valid templates) template_error

-- An assignment to a row that is not there raises, which the generic handler answers.
abbrev no_row : AppError
no_row = app_error internal_error none nothing

unfoldable pub write_restaurant : UpdateSettingsRequest → Option Branch → Db → Result Db
write_restaurant body none db = ensure (not (is_some body.restaurant_name)) no_row >> ok db
write_restaurant body (some branch) db = elim body.restaurant_name [
  | none ↦ ok db
  | some name ↦ do
    restaurant ← or_raise (find_restaurant branch.restaurant_id db) no_row
    ok (save_restaurant (record restaurant { name = written (some name) restaurant.name }) db)
]

unfoldable pub write_branch : UpdateSettingsRequest → Option Branch → Db → Result Db
write_branch body none db = ensure (not (names_branch body)) no_row >> ok db
write_branch body (some branch) db = ok (save_branch (written_branch body branch) db)

module _ (env : Env) (loads : Text → Loaded) where
  unfoldable pub read_settings : Db → Result SettingsResponse
  read_settings db = do
    row ← settings_row env db
    templates ← parse_templates loads row.notification_templates
    let branch = find_branch row.branch_id db
    ok (response_of row branch (restaurant_of db branch) templates)

  unfoldable pub apply_update : Db → UpdateSettingsRequest → Result (Db × SettingsResponse)
  apply_update db body = do
    check_templates body.notification_templates
    row ← settings_row env db
    let branch = find_branch row.branch_id db
    let saved = save_settings (written_row body row) db
    branched ← write_branch body branch saved
    named ← write_restaurant body branch branched
    response ← read_settings named
    ok (named, response)

  -- The PATCH: the schema binds the body, then the service runs.
  unfoldable pub update_admin_settings : Db → UpdateSettingsRequest → Result (Db × SettingsResponse)
  update_admin_settings db body = do bound ← bound_settings body; apply_update db bound
