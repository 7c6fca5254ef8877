-- ===== src/Api/Calls.antt =====
-- The calls of the API and the dependency `Staff` in front of them (backend/app/dependencies.py,
-- and the routes of backend/app/routers that declare it). A request runs alone, one after another.
use table_queue.Common.{ℕ, ◌/◌, ◌-◌, Bool, true, false, Option, none, Text, if◌then◌else◌}
use table_queue.Models.{Instant}
use table_queue.Errors.{ok, err}
use table_queue.Store.{Db}
use table_queue.Waitlist.Dates.{Env}
use table_queue.Config.{AppSettings}
use table_queue.Auth.Crypto.{Bcrypt, Jwt, Claims}
use table_queue.Schemas.Pin.{ChangePinRequest}
use table_queue.Auth.Routes.{get_current_staff, change_pin}
use table_queue.Schemas.Settings.{UpdateSettingsRequest}
use table_queue.SettingsService.Templates.{Loaded}
use table_queue.SettingsService.Update.{update_admin_settings}
use table_queue.App.Seed.{Draws, reset_data}
use table_queue.Requests.After.{store_after, store_deleted}
use table_queue.Requests.Steps.{
  Request, handle, IsFresh, join, read_status, guest_cancel, list, dashboard, call, no_show,
  restore, revert, cancel, seat, edit, reorder_queue, close, create, update, delete, set_status,
  release,
}

-- A call with what the process draws for it.
pub data Call : Type 0 where
  queue : Request → Call
  log_in : Text → Call
  rotate_pin : ChangePinRequest → ℕ → Text → Call
  show_settings : Call
  patch_settings : UpdateSettingsRequest → Call
  reset : Draws → Call

abbrev pub is_guests : Request → Bool
is_guests (join branch_id request) = true
is_guests (read_status number token tail) = true
is_guests (guest_cancel number token tail) = true
is_guests (list query) = false
is_guests dashboard = false
is_guests (call e) = false
is_guests (no_show e) = false
is_guests (restore e) = false
is_guests (revert e) = false
is_guests (cancel e) = false
is_guests (seat e t) = false
is_guests (edit e fields) = false
is_guests (reorder_queue ids wall) = false
is_guests (close wall) = false
is_guests (create payload new_id) = false
is_guests (update t payload) = false
is_guests (delete t) = false
is_guests (set_status t status) = false
is_guests (release t) = false

-- The route declares no `Staff`.
abbrev pub is_open : Call → Bool
is_open (queue request) = is_guests request
is_open (log_in pin) = true
is_open (rotate_pin payload salt generation) = false
is_open show_settings = false
is_open (patch_settings body) = false
is_open (reset draws) = false

-- `int(time.time())`, the seconds since 1970.
abbrev pub unix_seconds : Instant → ℕ
unix_seconds now = now / 1000000 - 62135596800

abbrev pub no_claims : Claims
no_claims = record { sub = none; role = none; iat = none; exp = none }

module _ (env : Env) (bcrypt : Bcrypt) (jwt : Jwt) (settings : AppSettings)
    (loads : Text → Loaded) where
  -- The store after the handler; a login writes nothing.
  unfoldable pub perform : Claims → Db → Call → Instant → Db
  perform staff db (queue request) now = handle env db request now
  perform staff db (log_in pin) now = db
  perform staff db (rotate_pin payload salt generation) now =
      store_deleted db (change_pin bcrypt db staff payload salt generation)
  perform staff db show_settings now = db
  perform staff db (patch_settings body) now =
      store_after db (update_admin_settings env loads db body)
  perform staff db (reset draws) now = store_deleted db (reset_data env bcrypt settings draws db)

  unfoldable pub serve_call : Db → Option Text → Call → Instant → Db
  serve_call db bearer sent now =
      if is_open sent
      then perform no_claims db sent now
      else (elim (get_current_staff jwt bearer settings db (unix_seconds now)) [
        | err e ↦ db
        | ok staff ↦ perform staff db sent now
      ])

  -- `uuid4` draws an id that no row has.
  abbrev pub IsFreshCall : Db → Call → Type 0
  IsFreshCall db (queue request) = IsFresh db request
  IsFreshCall db (log_in pin) = Unit
  IsFreshCall db (rotate_pin payload salt generation) = Unit
  IsFreshCall db show_settings = Unit
  IsFreshCall db (patch_settings body) = Unit
  IsFreshCall db (reset draws) = Unit

  -- The stores that calls lead to, from whomever, one after another.
  pub data Serves : Db → Db → Type 0 where
    served : (db : Db) → Serves db db
    then_call :
        (db db' : Db) (bearer : Option Text) (sent : Call) (now : Instant)
        → IsFreshCall db sent
        → Serves (serve_call db bearer sent now) db'
        → Serves db db'
