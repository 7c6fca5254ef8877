-- ===== src/Tables/Staff.antt =====
-- The staff half of backend/app/services/tables.py: a table's party, its status and its release.
-- A status in a request is `none` when it names no table status.
use table_queue.Common.{
  ℕ, ◌+◌, ◌-◌, ◌/◌, Bool, false, ◌&&◌, ◌||◌, Option, none, some, Text, leb, ◌==◌, if◌then◌else◌,
  keep, first,
}
use table_queue.Common.Int.{ℤ, pos, neg_ℕ}
use table_queue.Models.{
  Table, TableStatus, WaitlistEntry, Instant, available, occupied, cleaning, seated, done,
  status_is, table_status_is,
}
use table_queue.Errors.{
  Result, ok, ◌>>=◌, ◌>>◌, ensure, or_raise, app_error, table_not_found, table_not_available,
  validation_error, nothing, no_such_table, table_not_active,
}
use table_queue.Store.{Db, find_table, save_table, save_entry}
use table_queue.Waitlist.Dates.{minute}
use table_queue.StaffWaitlist.Payload.{RawId, lookup_by}

unfoldable pub get_active_table : Db → RawId → Result Table
get_active_table db table_id = do
  row ←
      or_raise (lookup_by (λ k. find_table k db) table_id)
        (app_error table_not_found none no_such_table)
  ensure row.is_active (app_error table_not_found none table_not_active)
  ok row

abbrev holds_table : ℕ → Option ℕ → Bool
holds_table k none = false
holds_table k (some j) = j == k

-- A SEATED row on the table.
abbrev pub is_party_of : ℕ → WaitlistEntry → Bool
is_party_of k e = holds_table k e.table_id && status_is e.status seated

unfoldable pub party_at : Db → ℕ → Option WaitlistEntry
party_at db k = first (keep (is_party_of k) db.entries)

-- Whole minutes, rounded down.
unfoldable pub elapsed_minutes : Option Instant → Instant → ℤ
elapsed_minutes none now = pos 0
elapsed_minutes (some seated_at) now =
    if leb seated_at now
    then pos ((now - seated_at) / minute)
    else neg_ℕ ((seated_at - now + (minute - 1)) / minute)

pub record Party : Type 0 where
  pub queue_number : Text
  pub party_size : ℕ
  pub seated_at : Option Instant
  pub elapsed_minutes : ℤ

unfoldable pub current_waitlist_for : Db → Table → Instant → Option Party
unfolding party_at
current_waitlist_for db table now =
    if table_status_is table.status occupied
    then elim (party_at db table.id) [
      | none ↦ none
      | some entry ↦ some (record {
        queue_number = entry.queue_number;
        party_size = entry.party_size;
        seated_at = entry.seated_at;
        elapsed_minutes = elapsed_minutes entry.seated_at now;
      })
    ]
    else none

pub record TablePayload : Type 0 where
  pub table : Table
  pub current_waitlist : Option Party

unfoldable pub to_response : Db → Table → Instant → TablePayload
to_response db table now = record {
  table = table;
  current_waitlist = current_waitlist_for db table now;
}

-- AVAILABLE and CLEANING are the statuses that a request may set.
abbrev pub is_settable : Option TableStatus → Bool
is_settable none = false
is_settable (some status) = table_status_is status available || table_status_is status cleaning

abbrev set_status : Table → Option TableStatus → Table
set_status table none = table
set_status table (some status) = record table { status = status }

unfoldable pub update_table_status :
    Db → RawId → Option TableStatus → Instant → Result (Db × TablePayload)
update_table_status db table_id status now = do
  table ← get_active_table db table_id
  ensure (is_settable status) (app_error validation_error (some 422) nothing)
  let table' = set_status table status
  let db' = save_table table' db
  ok (db', to_response db' table' now)

abbrev pub done_entry : WaitlistEntry → Instant → WaitlistEntry
done_entry entry now = record entry { status = done; closed_at = some now; updated_at = now }

-- The party of a released table is DONE.
unfoldable pub finish_party : Option WaitlistEntry → Instant → Db → Db
finish_party none now db = db
finish_party (some entry) now db = save_entry (done_entry entry now) db

unfoldable pub release_table : Db → RawId → Instant → Result (Db × TablePayload)
unfolding party_at finish_party
release_table db table_id now = do
  table ← get_active_table db table_id
  ensure (table_status_is table.status occupied) (app_error table_not_available none nothing)
  let table' = record table { status = available }
  let db' = finish_party (party_at db table.id) now (save_table table' db)
  ok (db', to_response db' table' now)
