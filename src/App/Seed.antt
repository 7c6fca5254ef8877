-- ===== src/App/Seed.antt =====
-- The seeder of backend/app/seed.py and the reset route of backend/app/routers/admin.py. The ids of
-- the demonstration's rows are draws, and one reading of the clock stands for those of a run.
use table_queue.Common.{
  ℕ, ◌+◌, ◌-◌, ◌*◌, ◌/◌, Bool, true, false, not, ◌&&◌, ◌||◌, Option, none, some, List, [], ◌∷◌,
  ◌++◌, map, Text, codes, keep, first, text_eq, zero_padded, if◌then◌else◌,
}
use table_queue.Models.{
  Table, WaitlistEntry, WaitlistStatus, WaitlistSource, CancelledReason, Settings, Instant, waiting,
  called, seated, no_show, cancelled, available, occupied, status_is,
}
use table_queue.Errors.{Result, ok, ◌>>◌, ensure, app_error, internal_error, nothing}
use table_queue.Store.{Db}
use table_queue.Waitlist.Dates.{Env, minute, hour, day, isoformat}
use table_queue.Waitlist.Numbers.{undashed}
use table_queue.Config.{AppSettings, Environment, development, test, production}
use table_queue.Auth.Crypto.{Bcrypt}
use table_queue.App.Bootstrap.{default_restaurant, default_branch}

-- What a run of the seeder draws: the salt of the hash, the ids of tables and entries, the clock.
pub record Draws : Type 0 where
  pub salt : ℕ
  pub table_id : ℕ → ℕ
  pub entry_id : ℕ → ℕ
  pub now : Instant

abbrev pub seeded_settings : Text → Settings
seeded_settings pin_hash = record {
  id = 1;
  branch_id = default_branch.id;
  hold_minutes = 10;
  avg_seat_minutes = 15;
  queue_prefix = codes "A";
  is_waitlist_open = true;
  sound_enabled_default = true;
  notification_templates = codes "{}";
  staff_pin_hash = some pin_hash;
  token_generation = none;
}

-- The letter, the number and the capacity of each table.
abbrev table_defs : List (ℕ × ℕ × ℕ)
table_defs =
    (b'A', 1, 2)
    ∷ (b'A', 2, 2)
    ∷ (b'A', 3, 2)
    ∷ (b'A', 4, 2)
    ∷ (b'B', 1, 4)
    ∷ (b'B', 2, 4)
    ∷ (b'B', 3, 4)
    ∷ (b'B', 4, 4)
    ∷ (b'C', 1, 6)
    ∷ (b'C', 2, 6)
    ∷ []

abbrev tables_from : Draws → ℕ → List (ℕ × ℕ × ℕ) → List Table
tables_from draws idx [] = []
tables_from draws idx ((letter, number, capacity) ∷ defs) =
    record {
      id = draws.table_id idx;
      branch_id = default_branch.id;
      label = letter ∷ (b'0' + number) ∷ [];
      capacity = capacity;
      section = some (letter ∷ []);
      sort_order = idx;
      status = available;
      is_active = true;
    }
    ∷ tables_from draws (idx + 1) defs

abbrev is_b1 : Table → Bool
is_b1 t = text_eq t.label (codes "B1")

-- The ten tables, B1 taken.
abbrev pub seeded_tables : Draws → List Table
seeded_tables draws =
    map (λ t. if is_b1 t then record t { status = occupied } else t)
      (tables_from draws 1 table_defs)

abbrev id_of : Option Table → Option ℕ
id_of none = none
id_of (some t) = some t.id

abbrev b1_id : Draws → Option ℕ
b1_id draws = id_of (first (keep is_b1 (tables_from draws 1 table_defs)))

unfoldable pub seeded_date : Env → Instant → Text
seeded_date env now = isoformat ((env.taipei now - 4 * hour) / day)

-- Name, party size, note and status of each entry.
abbrev entry_defs : List (Text × ℕ × Option Text × WaitlistStatus)
entry_defs =
    (codes "Alice", 2, some (codes "window seat"), waiting)
    ∷ (codes "Bob", 4, some (codes "high chair needed"), waiting)
    ∷ (codes "Carol", 6, some (codes "birthday dinner"), waiting)
    ∷ (codes "David", 2, some (codes "quiet area"), waiting)
    ∷ (codes "Erin", 4, some (codes "near exit"), waiting)
    ∷ (codes "Frank", 6, none, called)
    ∷ (codes "Grace", 2, none, seated)
    ∷ (codes "Henry", 4, none, no_show)
    ∷ (codes "Iris", 6, none, cancelled)
    ∷ []

-- A value that only rows of the status have.
abbrev when : {A : Type 0} → Bool → A → Option A
when applies value = if applies then some value else none

abbrev entries_from :
    Env → Draws → ℕ → List (Text × ℕ × Option Text × WaitlistStatus) → List WaitlistEntry
entries_from env draws seq [] = []
entries_from env draws seq ((name, party_size, note, status) ∷ defs) =
    record {
      id = draws.entry_id seq;
      branch_id = default_branch.id;
      queue_number = b'A' ∷ zero_padded 3 seq;
      full_queue_number =
          codes "A-" ++ undashed (seeded_date env draws.now) ++ codes "-" ++ zero_padded 3 seq;
      queue_prefix = codes "A";
      seq = seq;
      business_date = seeded_date env draws.now;
      name = name;
      phone = codes "0900-000-00" ++ (b'0' + seq) ∷ [];
      party_size = party_size;
      note = note;
      status = status;
      sort_order = seq;
      source = WaitlistSource.customer;
      hold_minutes_snapshot = some 10;
      cancelled_reason = when (status_is status cancelled) CancelledReason.customer;
      table_id = if status_is status seated then b1_id draws else none;
      status_token = none;
      created_at = draws.now;
      updated_at = draws.now;
      called_at = when (status_is status called) (draws.now - 3 * minute);
      seated_at = when (status_is status seated) (draws.now - 10 * minute);
      closed_at =
          when (status_is status no_show || status_is status cancelled) (draws.now - 5 * minute);
    }
    ∷ entries_from env draws (seq + 1) defs

abbrev pub seeded_entries : Env → Draws → List WaitlistEntry
seeded_entries env draws = entries_from env draws 1 entry_defs

abbrev pub no_rows : Db
no_rows = record { restaurants = []; branches = []; tables = []; entries = []; settings = [] }

abbrev is_nil : {A : Type 0} → List A → Bool
is_nil [] = true
is_nil (x ∷ xs) = false

abbrev pub has_data : Db → Bool
has_data db = not (is_nil db.restaurants && is_nil db.branches && is_nil db.settings)

abbrev is_development : Environment → Bool
is_development development = true
is_development test = false
is_development production = false

module _ (env : Env) (bcrypt : Bcrypt) (settings : AppSettings) (draws : Draws) where
  -- The fixture, added to what the tables hold.
  unfoldable pub with_fixture : Db → Db
  with_fixture db = record {
    restaurants = db.restaurants ++ default_restaurant ∷ [];
    branches = db.branches ++ default_branch ∷ [];
    tables = db.tables ++ seeded_tables draws;
    entries = db.entries ++ seeded_entries env draws;
    settings = db.settings ++ seeded_settings (bcrypt.hashpw settings.staff_pin draws.salt) ∷ [];
  }

  unfoldable pub seed_data : Bool → Db → Db
  seed_data reset db =
      if has_data db && not reset then db else with_fixture (if reset then no_rows else db)

  -- The body of the request has passed its check, `confirm` is "RESET".
  unfoldable pub reset_data : Db → Result Db
  unfolding seed_data
  reset_data db =
      ensure (is_development settings.env) (app_error internal_error (some 403) nothing)
      >> ok (seed_data true db)
