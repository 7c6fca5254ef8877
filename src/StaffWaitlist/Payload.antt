-- ===== src/StaffWaitlist/Payload.antt =====
-- Row lookups, the response mapping and the table release of
-- backend/app/services/staff_waitlist.py. An id in a request is `none` when it is no UUID.
use table_queue.Common.{
  ℕ, ◌&&◌, Option, none, some, [], ◌∷◌, Text, if◌then◌else◌, any_of, is_decimal, strip, first, keep,
  ◌==◌,
}
use table_queue.Common.Int.{ℤ}
use table_queue.Models.{
  WaitlistEntry, WaitlistStatus, WaitlistSource, CancelledReason, Table, Instant, available,
  table_status_is,
}
use table_queue.Errors.{
  Result, ok, ◌>>=◌, ◌>>◌, ensure, or_raise, AppError, Action, app_error, waitlist_not_found,
  waitlist_invalid_status, table_not_found, table_not_available, nothing, forbidden, taken_table,
}
use table_queue.Store.{Db, find_entry, find_table}
use table_queue.Waitlist.Phone.{mask_phone}
use table_queue.Waitlist.Status.{remaining_seconds}

abbrev pub RawId : Type 0
RawId = Option ℕ

-- `_lookup`
abbrev pub lookup_by : {A : Type 0} → (ℕ → Option A) → RawId → Option A
lookup_by get none = none
lookup_by get (some k) = get k

unfoldable pub get_entry : Db → RawId → Result WaitlistEntry
get_entry db entry_id =
    or_raise (lookup_by (λ k. find_entry k db) entry_id) (app_error waitlist_not_found none nothing)

unfoldable pub get_table_for_seat : Db → RawId → Result Table
get_table_for_seat db table_id = do
  table ←
      or_raise (lookup_by (λ k. find_table k db) table_id) (app_error table_not_found none nothing)
  ensure (table_status_is table.status available && table.is_active)
      (app_error table_not_available none (taken_table table.label table.status))
  ok table

unfoldable pub invalid_status : Action → WaitlistStatus → AppError
invalid_status action status = app_error waitlist_invalid_status none (forbidden action status)

-- The setting that a call snapshots.
unfoldable pub hold_minutes_for : Db → WaitlistEntry → Result ℕ
hold_minutes_for db entry = do
  row ←
      or_raise (first (keep (λ s. s.branch_id == entry.branch_id) db.settings))
        (app_error waitlist_not_found none nothing)
  ok row.hold_minutes

unfoldable pub display_phone : Text → Option Text
display_phone phone =
    let raw = strip phone in
    let masked = mask_phone raw in
    elim raw [ [] ↦ none | c ∷ s ↦ if any_of is_decimal masked then some masked else none ]

pub record EntryPayload : Type 0 where
  pub id : ℕ
  pub queue_number : Text
  pub full_queue_number : Text
  pub status : WaitlistStatus
  pub party_size : ℕ
  pub created_at : Instant
  pub updated_at : Instant
  pub name : Text
  pub phone_masked : Option Text
  pub note : Option Text
  pub source : WaitlistSource
  pub cancelled_reason : Option CancelledReason
  pub called_at : Option Instant
  pub seated_at : Option Instant
  pub remaining_seconds : Option ℤ
  pub hold_minutes_snapshot : Option ℕ
  pub table_id : Option ℕ
  pub table_label : Option Text

-- `entry.table.label`, through the foreign key.
unfoldable pub table_label : Db → WaitlistEntry → Option Text
table_label db entry = elim (lookup_by (λ k. find_table k db) entry.table_id) [
  | none ↦ none
  | some table ↦ some table.label
]

unfoldable pub entry_payload : Db → WaitlistEntry → Instant → EntryPayload
entry_payload db entry now = record {
  id = entry.id;
  queue_number = entry.queue_number;
  full_queue_number = entry.full_queue_number;
  status = entry.status;
  party_size = entry.party_size;
  created_at = entry.created_at;
  updated_at = entry.updated_at;
  name = entry.name;
  phone_masked = display_phone entry.phone;
  note = entry.note;
  source = entry.source;
  cancelled_reason = entry.cancelled_reason;
  called_at = entry.called_at;
  seated_at = entry.seated_at;
  remaining_seconds = remaining_seconds entry now;
  hold_minutes_snapshot = entry.hold_minutes_snapshot;
  table_id = entry.table_id;
  table_label = table_label db entry;
}

-- `commit`, and the persisted row as the answer.
abbrev pub answered : Db → WaitlistEntry → Instant → Db × EntryPayload
answered db entry now = (db, entry_payload db entry now)
