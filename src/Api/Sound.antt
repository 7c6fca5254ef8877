-- ===== src/Api/Sound.antt =====
-- What every call keeps, whoever sends it, in a process that is not one of development.
use table_queue.Common.{◌≡◌, refl, sym, subst, Bool-cases, inl, inr, Option, Text, arith, ℕ}
use table_queue.Models.{Settings, Instant}
use table_queue.Errors.{Result-cases}
use table_queue.Store.{Db, save_settings, Distinct, Single, Every, entry_key, table_key}
use table_queue.Waitlist.Dates.{Env}
use table_queue.Config.{AppSettings, production}
use table_queue.Auth.Crypto.{Bcrypt, Jwt, Claims}
use table_queue.Auth.Credentials.{settings_row}
use table_queue.Schemas.Pin.{ChangePinRequest, bound_change_pin}
use table_queue.Auth.Routes.{get_current_staff, change_pin, rotated}
use table_queue.Schemas.Settings.{UpdateSettingsRequest}
use table_queue.SettingsService.Templates.{Loaded}
use table_queue.SettingsService.Update.{update_admin_settings}
use table_queue.SettingsService.Bounds.{update-writes}
use table_queue.App.Seed.{reset_data}
use table_queue.Requests.After.{store_after, store_deleted}
use table_queue.Invariant.Defs.{IsSound, SameNumber, IsConsistent}
use table_queue.Invariant.Steps.{handle-IsSound}
use table_queue.Api.Calls.{
  Call, queue, log_in, rotate_pin, show_settings, patch_settings, reset, is_open, unix_seconds,
  no_claims, perform, serve_call, IsFreshCall, Serves, served, then_call,
}

-- Soundness is of entries and tables.
same_rows-IsSound :
    (db db' : Db) → db'.entries ≡ db.entries → db'.tables ≡ db.tables → IsSound db → IsSound db'
same_rows-IsSound db db' e t s = record {
  entry_ids = subst (Distinct entry_key) (sym e) s.entry_ids;
  table_ids = subst (Distinct table_key) (sym t) s.table_ids;
  numbers = subst (Single entry_key SameNumber) (sym e) s.numbers;
  rows = subst (Every IsConsistent) (sym e) s.rows;
}

pub change_pin_cases :
    (P : Db → Type 0) (bcrypt : Bcrypt) (db : Db) (staff : Claims) (payload : ChangePinRequest)
    (salt : ℕ) (generation : Text)
    → P db
    → ((row : Settings) → P (save_settings row db))
    → P (store_deleted db (change_pin bcrypt db staff payload salt generation))
unfolding change_pin
change_pin_cases P bcrypt db staff payload salt generation kept saved =
    elim (Result-cases (bound_change_pin payload)) [
      | inl (e, bad) ↦ ground arith
      | inr (bound, binds) ↦ elim (Result-cases (settings_row db)) [
        | inl (e, bad) ↦ ground arith
        | inr (row, good) ↦ ground (arith, saved (rotated bcrypt row bound.new_pin salt generation))
      ]
    ]

module _ (env : Env) (bcrypt : Bcrypt) (jwt : Jwt) (settings : AppSettings)
    (loads : Text → Loaded) where
  pub patch_settings-rows :
      (db : Db) (body : UpdateSettingsRequest)
      → let db' = store_after db (update_admin_settings env loads db body) in
        (db'.entries ≡ db.entries) × (db'.tables ≡ db.tables)
  patch_settings-rows db body = elim (Result-cases (update_admin_settings env loads db body)) [
    | inl (e, bad) ↦ rw bad (refl, refl)
    | inr ((db', response), good) ↦
        let parts = update-writes env loads db db' body response good in rw good (parts.4, parts.5)
  ]

  perform-IsSound :
      (staff : Claims) (db : Db) (sent : Call) (now : Instant)
      → settings.env ≡ production
      → IsFreshCall env bcrypt jwt settings loads db sent
      → IsSound db
      → IsSound (perform env bcrypt jwt settings loads staff db sent now)
  unfolding perform reset_data
  perform-IsSound staff db (queue request) now live fresh s =
      handle-IsSound env db request now fresh s
  perform-IsSound staff db (log_in pin) now live fresh s = s
  perform-IsSound staff db (rotate_pin payload salt generation) now live fresh s =
      change_pin_cases IsSound bcrypt db staff payload salt generation s
        (λ row. same_rows-IsSound db (save_settings row db) refl refl s)
  perform-IsSound staff db show_settings now live fresh s = s
  perform-IsSound staff db (patch_settings body) now live fresh s =
      let rows = patch_settings-rows db body in
      same_rows-IsSound db (store_after db (update_admin_settings env loads db body)) rows.0 rows.1
        s
  perform-IsSound staff db (reset draws) now live fresh s = rw live s

  serve_call-IsSound :
      (db : Db) (bearer : Option Text) (sent : Call) (now : Instant)
      → settings.env ≡ production
      → IsFreshCall env bcrypt jwt settings loads db sent
      → IsSound db
      → IsSound (serve_call env bcrypt jwt settings loads db bearer sent now)
  unfolding serve_call
  serve_call-IsSound db bearer sent now live fresh s = elim (Bool-cases (is_open sent)) [
    | inl open_ ↦ rw open_ (perform-IsSound no_claims db sent now live fresh s)
    | inr guarded ↦
        elim (Result-cases (get_current_staff jwt bearer settings db (unix_seconds now))) [
          | inl (e, refused) ↦ rw (guarded, refused) s
          | inr (staff, admitted) ↦
              rw (guarded, admitted) (perform-IsSound staff db sent now live fresh s)
        ]
  ]

  -- Along any run of calls from whomever, with or without a bearer that verifies and with ids
  -- drawn fresh, in a process whose environment is production, sound rows stay sound; the calls
  -- are the queue's requests, logins, changes of the PIN, reads and updates of the settings, and
  -- resets.
  pub Serves-IsSound :
      (db db' : Db)
      → settings.env ≡ production
      → Serves env bcrypt jwt settings loads db db'
      → IsSound db
      → IsSound db'
  Serves-IsSound db db' live (served _) s = s
  Serves-IsSound db db' live (then_call _ _ bearer sent now fresh rest) s =
      Serves-IsSound (serve_call env bcrypt jwt settings loads db bearer sent now) db' live rest
        (serve_call-IsSound db bearer sent now live fresh s)
