-- ===== src/StaffWaitlist/Actions.antt =====
-- Call, seat, no-show, restore, revert, cancel and edit of backend/app/services/staff_waitlist.py.
-- A rule that raises returns no store, since nothing of it is committed.
use table_queue.Common.{ℕ, Option, none, some, Text}
use table_queue.Models.{
  WaitlistEntry, WaitlistStatus, CancelledReason, Table, Instant, waiting, called, seated, no_show,
  cancelled, available, occupied, status_is, status_in,
}
use table_queue.Errors.{Result, ok, ◌>>=◌, ◌>>◌, ensure, Action}
use table_queue.Store.{Db, find_table, save_table, save_entry}
use table_queue.StaffWaitlist.Filter.{
  callable_statuses, seatable_statuses, no_show_statuses, cancellable_by_staff_statuses,
  editable_statuses,
}
use table_queue.StaffWaitlist.Payload.{
  RawId, EntryPayload, get_entry, get_table_for_seat, invalid_status, hold_minutes_for, answered,
}

abbrev pub called_entry : WaitlistEntry → ℕ → Instant → WaitlistEntry
called_entry entry minutes now = record entry {
  status = called;
  called_at = some now;
  hold_minutes_snapshot = some minutes;
  updated_at = now;
}

unfoldable pub call_entry : Db → RawId → Instant → Result (Db × EntryPayload)
call_entry db entry_id now = do
  entry ← get_entry db entry_id
  ensure (status_in entry.status callable_statuses) (invalid_status Action.call entry.status)
  minutes ← hold_minutes_for db entry
  let entry' = called_entry entry minutes now
  ok (answered (save_entry entry' db) entry' now)

abbrev pub seated_entry : WaitlistEntry → Table → Instant → WaitlistEntry
seated_entry entry table now = record entry {
  status = seated;
  seated_at = some now;
  table_id = some table.id;
  updated_at = now;
}

unfoldable pub seat_entry : Db → RawId → RawId → Instant → Result (Db × EntryPayload)
seat_entry db entry_id table_id now = do
  entry ← get_entry db entry_id
  table ← get_table_for_seat db table_id
  ensure (status_in entry.status seatable_statuses) (invalid_status Action.seat entry.status)
  let entry' = seated_entry entry table now
  let db' = save_table (record table { status = occupied }) (save_entry entry' db)
  ok (answered db' entry' now)

-- The table half of a release: the held table is AVAILABLE again.
unfoldable pub release_held_table : Db → Option ℕ → Db
release_held_table db none = db
release_held_table db (some k) = elim (find_table k db) [
  | none ↦ db
  | some table ↦ save_table (record table { status = available }) db
]

-- The entry half of `_close_entry`: the closing status, its time, and no table.
abbrev pub closed_entry : WaitlistEntry → WaitlistStatus → Instant → WaitlistEntry
closed_entry entry status now = record entry {
  status = status;
  closed_at = some now;
  updated_at = now;
  table_id = none;
}

unfoldable pub close_entry : Db → WaitlistEntry → WaitlistStatus → Instant → Db
unfolding release_held_table
close_entry db entry status now =
    release_held_table (save_entry (closed_entry entry status now) db) entry.table_id

unfoldable pub no_show_entry : Db → RawId → Instant → Result (Db × EntryPayload)
no_show_entry db entry_id now = do
  entry ← get_entry db entry_id
  ensure (status_in entry.status no_show_statuses) (invalid_status Action.no_show entry.status)
  ok (answered (close_entry db entry no_show now) (closed_entry entry no_show now) now)

abbrev pub restored_entry : WaitlistEntry → Instant → WaitlistEntry
restored_entry entry now = record entry {
  status = waiting;
  called_at = none;
  closed_at = none;
  hold_minutes_snapshot = none;
  updated_at = now;
}

unfoldable pub restore_entry : Db → RawId → Instant → Result (Db × EntryPayload)
restore_entry db entry_id now = do
  entry ← get_entry db entry_id
  ensure (status_is entry.status no_show) (invalid_status Action.restore entry.status)
  let entry' = restored_entry entry now
  ok (answered (save_entry entry' db) entry' now)

abbrev pub reverted_entry : WaitlistEntry → Instant → WaitlistEntry
reverted_entry entry now = record entry {
  status = waiting;
  called_at = none;
  hold_minutes_snapshot = none;
  updated_at = now;
}

unfoldable pub revert_entry : Db → RawId → Instant → Result (Db × EntryPayload)
revert_entry db entry_id now = do
  entry ← get_entry db entry_id
  ensure (status_is entry.status called) (invalid_status Action.revert entry.status)
  let entry' = reverted_entry entry now
  ok (answered (save_entry entry' db) entry' now)

abbrev pub staff_cancelled : WaitlistEntry → WaitlistEntry
staff_cancelled entry = record entry { cancelled_reason = some CancelledReason.staff }

unfoldable pub cancel_entry : Db → RawId → Instant → Result (Db × EntryPayload)
cancel_entry db entry_id now = do
  entry ← get_entry db entry_id
  ensure (status_in entry.status cancellable_by_staff_statuses)
      (invalid_status Action.cancel entry.status)
  let entry' = staff_cancelled entry
  ok (answered (close_entry db entry' cancelled now) (closed_entry entry' cancelled now) now)

-- The fields that `parse_edit_body` hands over; a field the body leaves out is `none`.
pub record EditFields : Type 0 where
  pub party_size : Option ℕ
  pub note : Option Text

abbrev given_or : {A : Type 0} → Option A → A → A
given_or none stored = stored
given_or (some value) stored = value

abbrev given_or_stored : {A : Type 0} → Option A → Option A → Option A
given_or_stored none stored = stored
given_or_stored (some value) stored = some value

abbrev pub edited_entry : WaitlistEntry → EditFields → Instant → WaitlistEntry
edited_entry entry fields now = record entry {
  party_size = given_or fields.party_size entry.party_size;
  note = given_or_stored fields.note entry.note;
  updated_at = now;
}

unfoldable pub edit_entry : Db → RawId → EditFields → Instant → Result (Db × EntryPayload)
edit_entry db entry_id fields now = do
  entry ← get_entry db entry_id
  ensure (status_in entry.status editable_statuses) (invalid_status Action.edit entry.status)
  let entry' = edited_entry entry fields now
  ok (answered (save_entry entry' db) entry' now)
