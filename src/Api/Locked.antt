-- ===== src/Api/Locked.antt =====
-- What no caller can do while no credential is configured.
use table_queue.Common.{◌≡◌, refl, ◌∙◌, Bool-cases, inl, inr, Option, List, [], Text, true, ℕ}
use table_queue.Models.{WaitlistEntry, Settings, Instant}
use table_queue.Errors.{err}
use table_queue.Store.{Db}
use table_queue.Waitlist.Dates.{Env}
use table_queue.Config.{AppSettings}
use table_queue.Auth.Crypto.{Bcrypt, Jwt}
use table_queue.Auth.Credentials.{stripped_or_empty}
use table_queue.Auth.Routes.{get_current_staff, token_expired}
use table_queue.Auth.Tokens.{HasRow, no_credential-expired}
use table_queue.SettingsService.Templates.{Loaded}
use table_queue.Invariant.Routes.{public_join-keeps, read_status-keeps, public_cancel-keeps}
use table_queue.Requests.Guest.{join_cases, lazy_no_show_cases, guest_cancel_cases}
use table_queue.Requests.Steps.{
  Request, handle, join, read_status, guest_cancel, list, dashboard, call, no_show, restore, revert,
  cancel, seat, edit, reorder_queue, close, create, update, delete, set_status, release,
}
use table_queue.Api.Calls.{
  Call, queue, log_in, rotate_pin, show_settings, patch_settings, reset, is_open, is_guests,
  unix_seconds, no_claims, perform, serve_call, Serves, served, then_call,
}

-- What the staff alone may change.
pub record IsKept (before db : Db) : Type 0 where
  pub settings : db.settings ≡ before.settings
  pub tables : db.tables ≡ before.tables
  pub branches : db.branches ≡ before.branches
  pub restaurants : db.restaurants ≡ before.restaurants

entries_only :
    {before db : Db} (entries : List WaitlistEntry)
    → IsKept before db
    → IsKept before (record db { entries = entries })
entries_only entries k = record {
  settings = k.settings;
  tables = k.tables;
  branches = k.branches;
  restaurants = k.restaurants;
}

module _ (env : Env) (before db : Db) (now : Instant) (k : IsKept before db) where
  guest-IsKept :
      (request : Request) → is_guests request ≡ true → IsKept before (handle env db request now)
  unfolding handle
  guest-IsKept (join branch_id request) g =
      public_join-keeps (IsKept before) env db now k branch_id request (
        join_cases (IsKept before) env db now branch_id request k
          (λ branch settings found free. entries_only _ k))
  guest-IsKept (read_status number token tail) g =
      read_status-keeps (IsKept before) env db now k number token tail
        (λ e m. lazy_no_show_cases (IsKept before) env db now e k (λ lapsed. entries_only _ k))
  guest-IsKept (guest_cancel number token tail) g =
      public_cancel-keeps (IsKept before) env db now k number token tail
        (λ e m. guest_cancel_cases (IsKept before) env db now e k (λ was. entries_only _ k))
  guest-IsKept (list query) g = cc
  guest-IsKept dashboard g = cc
  guest-IsKept (call e) g = cc
  guest-IsKept (no_show e) g = cc
  guest-IsKept (restore e) g = cc
  guest-IsKept (revert e) g = cc
  guest-IsKept (cancel e) g = cc
  guest-IsKept (seat e t) g = cc
  guest-IsKept (edit e fields) g = cc
  guest-IsKept (reorder_queue ids wall) g = cc
  guest-IsKept (close wall) g = cc
  guest-IsKept (create payload new_id) g = cc
  guest-IsKept (update t payload) g = cc
  guest-IsKept (delete t) g = cc
  guest-IsKept (set_status t status) g = cc
  guest-IsKept (release t) g = cc

module _ (env : Env) (bcrypt : Bcrypt) (jwt : Jwt) (settings : AppSettings) (loads : Text → Loaded)
    (before : Db) (row : Settings) (one : HasRow before row)
    (bare : stripped_or_empty row.staff_pin_hash ≡ []) where
  open-IsKept :
      (db : Db) (sent : Call) (now : Instant)
      → is_open sent ≡ true
      → IsKept before db
      → IsKept before (perform env bcrypt jwt settings loads no_claims db sent now)
  unfolding perform
  open-IsKept db (queue request) now o k = guest-IsKept env before db now k request o
  open-IsKept db (log_in pin) now o k = k
  open-IsKept db (rotate_pin payload salt generation) now o k = cc
  open-IsKept db show_settings now o k = cc
  open-IsKept db (patch_settings body) now o k = cc
  open-IsKept db (reset draws) now o k = cc

  -- A refusal at the door.
  refused :
      (db : Db) (bearer : Option Text) (now : ℕ)
      → IsKept before db
      → get_current_staff jwt bearer settings db now ≡ err token_expired
  refused db bearer now k =
      no_credential-expired jwt settings db row now bearer (k.settings ∙ one) bare

  serve_call-IsKept :
      (db : Db) (bearer : Option Text) (sent : Call) (now : Instant)
      → IsKept before db
      → IsKept before (serve_call env bcrypt jwt settings loads db bearer sent now)
  unfolding serve_call
  serve_call-IsKept db bearer sent now k = elim (Bool-cases (is_open sent)) [
    | inl open_ ↦ rw open_ (open-IsKept db sent now open_ k)
    | inr guarded ↦ rw (guarded, refused db bearer (unix_seconds now) k) k
  ]

  Serves-from_IsKept :
      (db db' : Db)
      → Serves env bcrypt jwt settings loads db db'
      → IsKept before db
      → IsKept before db'
  Serves-from_IsKept db db' (served _) k = k
  Serves-from_IsKept db db' (then_call _ _ bearer sent now fresh rest) k =
      Serves-from_IsKept (serve_call env bcrypt jwt settings loads db bearer sent now) db' rest
        (serve_call-IsKept db bearer sent now k)

  -- While the one settings row has no hash or a blank one, no run of calls, whatever their bearers
  -- and PINs, changes the settings, a table, a branch or the restaurant.
  pub Serves-IsKept :
      (db' : Db) → Serves env bcrypt jwt settings loads before db' → IsKept before db'
  Serves-IsKept db' run =
      Serves-from_IsKept before db' run
        (record { settings = refl; tables = refl; branches = refl; restaurants = refl })
