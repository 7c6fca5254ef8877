-- ===== src/Examples/Fixture.antt =====
-- A branch with one table and one guest.
use table_queue.Common.{◌+◌, ◌*◌, ◌≡◌, refl, true, none, some, List, [], ◌∷◌, codes, inl, inr}
use table_queue.Models.{
  Branch, Table, WaitlistEntry, Settings, WaitlistSource, Instant, waiting, called, seated, done,
  available, occupied,
}
use table_queue.Store.{Db, In, get_row}
use table_queue.Waitlist.Dates.{Env, hour, day}
use table_queue.Waitlist.Join.{JoinRequest}
use table_queue.Errors.{Result, ok, err}
use table_queue.Invariant.Defs.{IsConsistent, IsSound, IsSeated, SeatHeld}

abbrev pub here_env : Env
here_env = record { default_branch_id = 1; zone_info = λ name. none; taipei = λ t. t + 8 * hour }

-- Noon of 2026-03-01 in Taipei.
abbrev pub noon : Instant
noon = 739675 * day + 4 * hour

abbrev pub later : Instant
later = noon + 2 * hour

abbrev pub table_one : Table
table_one = record {
  id = 100;
  branch_id = 1;
  label = codes "T1";
  capacity = 4;
  section = none;
  sort_order = 1;
  status = available;
  is_active = true;
}

abbrev pub full_table : Table
full_table = record table_one { status = occupied }

abbrev pub settings_one : Settings
settings_one = record {
  id = 1;
  branch_id = 1;
  hold_minutes = 10;
  avg_seat_minutes = 5;
  queue_prefix = codes "A";
  is_waitlist_open = true;
  sound_enabled_default = true;
  notification_templates = codes "{}";
  staff_pin_hash = none;
  token_generation = none;
}

abbrev pub branch_one : Branch
branch_one = record {
  id = 1;
  restaurant_id = 1;
  name = codes "Main";
  address = codes "1 Road";
  phone = codes "02-1234-5678";
  timezone = codes "Asia/Taipei";
  business_day_cutoff_hour = 4;
  open_time = codes "11:00";
  close_time = codes "21:00";
}

abbrev pub ann : WaitlistEntry
ann = record {
  id = 7;
  branch_id = 1;
  queue_number = codes "A001";
  full_queue_number = codes "A-20260301-001";
  queue_prefix = codes "A";
  seq = 1;
  business_date = codes "2026-03-01";
  name = codes "Ann";
  phone = codes "0912-345-678";
  party_size = 2;
  note = none;
  status = waiting;
  sort_order = 3;
  source = WaitlistSource.customer;
  hold_minutes_snapshot = none;
  cancelled_reason = none;
  table_id = none;
  status_token = some (codes "abcd");
  created_at = noon;
  updated_at = noon;
  called_at = none;
  seated_at = none;
  closed_at = none;
}

abbrev pub called_ann : WaitlistEntry
called_ann = record ann { status = called; called_at = some noon; hold_minutes_snapshot = some 10 }

abbrev pub seated_ann : WaitlistEntry
seated_ann = record ann { status = seated; table_id = some 100; seated_at = some noon }

abbrev pub done_ann : WaitlistEntry
done_ann = record seated_ann { status = done; closed_at = some later }

abbrev pub store_with : List WaitlistEntry → Table → Db
store_with entries t = record {
  restaurants = record { id = 1; name = codes "Bistro" } ∷ [];
  branches = branch_one ∷ [];
  tables = t ∷ [];
  entries = entries;
  settings = settings_one ∷ [];
}

abbrev pub bob : JoinRequest
bob = record {
  name = codes "Bob";
  phone = codes " 0922-000-111 ";
  party_size = 3;
  note = none;
  new_id = 8;
  new_token = codes "beef";
}

pub no_entry-IsSound : (t : Table) → IsSound (store_with [] t)
unfolding get_row
no_entry-IsSound t = record {
  entry_ids = tt;
  table_ids = (refl, tt);
  numbers = λ e f m. absurd m;
  rows = λ e m. absurd m;
}

pub no_entry-IsSeated : (t : Table) → IsSeated (store_with [] t)
no_entry-IsSeated t = record { seats = λ e m. absurd m; alone = λ e f m. absurd m }

pub only : (e a : WaitlistEntry) → In a (e ∷ []) → a ≡ e
only e a (inl p) = p
only e a (inr m) = absurd m

pub one_entry-IsSound :
    (e : WaitlistEntry) (t : Table) → IsConsistent e → IsSound (store_with (e ∷ []) t)
unfolding get_row
one_entry-IsSound e t fits = record {
  entry_ids = (refl, tt);
  table_ids = (refl, tt);
  numbers = λ a b m n r. rw (only e a m, only e b n) refl;
  rows = λ a m. rw (only e a m) fits;
}

pub one_entry-IsSeated :
    (e : WaitlistEntry) (t : Table) → SeatHeld (t ∷ []) e → IsSeated (store_with (e ∷ []) t)
one_entry-IsSeated e t held = record {
  seats = λ a m. rw (only e a m) held;
  alone = λ a b m n r. rw (only e a m, only e b n) refl;
}

-- The answer of a result, for a result that is known to be one.
abbrev pub answer_of : {A : Type 0} → A → Result (Db × A) → A
answer_of default (ok (db, a)) = a
answer_of default (err e) = default
