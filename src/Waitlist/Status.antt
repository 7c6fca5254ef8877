-- ===== src/Waitlist/Status.antt =====
-- The status read and the lazy no-show of backend/app/services/waitlist.py.
use table_queue.Common.{
  ℕ, ◌+◌, ◌-◌, ◌*◌, ◌/◌, Bool, false, ◌&&◌, Option, none, some, Text, ltb, leb, ◌==◌, text_eq,
  if◌then◌else◌, keep, length,
}
use table_queue.Common.Int.{ℤ, pos, neg_ℕ}
use table_queue.Models.{WaitlistStatus, WaitlistEntry, Instant, waiting, called, no_show, status_is}
use table_queue.Errors.{Result, ok, ◌>>=◌}
use table_queue.Store.{Db, save_entry}
use table_queue.Waitlist.Dates.{second, minute}
use table_queue.Waitlist.Lookup.{get_settings_or_500}

-- A WAITING row of the same branch and day with a lower position.
abbrev pub is_ahead : WaitlistEntry → WaitlistEntry → Bool
is_ahead entry e =
    e.branch_id == entry.branch_id
    && text_eq e.business_date entry.business_date
    && status_is e.status waiting
    && ltb e.sort_order entry.sort_order

unfoldable pub waiting_ahead : Db → WaitlistEntry → ℕ
waiting_ahead db entry = length (keep (is_ahead entry) db.entries)

unfoldable pub estimated_wait_minutes : Db → WaitlistEntry → ℕ → Result ℕ
estimated_wait_minutes db entry count = do
  settings ← get_settings_or_500 db entry.branch_id
  ok (count * settings.avg_seat_minutes)

-- `int((deadline - now).total_seconds())`: whole seconds, cut towards zero.
unfoldable pub whole_seconds : Instant → Instant → ℤ
whole_seconds deadline now =
    if leb now deadline then pos ((deadline - now) / second) else neg_ℕ ((now - deadline) / second)

-- The end of a call's hold, when the row has both halves of the snapshot.
unfoldable pub hold_deadline : Option ℕ → Option Instant → Option Instant
hold_deadline none called_at = none
hold_deadline (some minutes) none = none
hold_deadline (some minutes) (some called_at) = some (called_at + minutes * minute)

unfoldable pub remaining_seconds : WaitlistEntry → Instant → Option ℤ
remaining_seconds entry now =
    if status_is entry.status called
    then elim (hold_deadline entry.hold_minutes_snapshot entry.called_at) [
      | none ↦ none
      | some deadline ↦ some (whole_seconds deadline now)
    ]
    else none

-- The test of `apply_lazy_no_show`: CALLED, with a hold, and its end not after `now`.
unfoldable pub is_lapsed : WaitlistEntry → Instant → Bool
is_lapsed entry now =
    status_is entry.status called
    && elim (hold_deadline entry.hold_minutes_snapshot entry.called_at) [
      | none ↦ false
      | some deadline ↦ leb deadline now
    ]

abbrev pub lapsed_entry : WaitlistEntry → Instant → WaitlistEntry
lapsed_entry entry now = record entry { status = no_show; closed_at = some now; updated_at = now }

unfoldable pub apply_lazy_no_show : Db → WaitlistEntry → Instant → Db × WaitlistEntry
apply_lazy_no_show db entry now =
    if is_lapsed entry now
    then (save_entry (lapsed_entry entry now) db, lapsed_entry entry now)
    else (db, entry)

pub record StatusPayload : Type 0 where
  pub queue_number : Text
  pub status : WaitlistStatus
  pub party_size : ℕ
  pub created_at : Instant
  pub waiting_ahead : ℕ
  pub estimated_wait_minutes : ℕ
  pub called_at : Option Instant
  pub remaining_seconds : Option ℤ
  pub hold_minutes : Option ℕ

-- The lazy no-show is committed before the estimate is read, so the store comes back on every path.
unfoldable pub build_status_payload : Db → WaitlistEntry → Instant → Db × Result StatusPayload
build_status_payload db entry now =
    let (db', row) = apply_lazy_no_show db entry now in
    let ahead = waiting_ahead db' row in
    (
      db',
      estimated_wait_minutes db' row ahead >>= λ estimate. ok (record {
        queue_number = row.queue_number;
        status = row.status;
        party_size = row.party_size;
        created_at = row.created_at;
        waiting_ahead = ahead;
        estimated_wait_minutes = estimate;
        called_at = row.called_at;
        remaining_seconds = remaining_seconds row now;
        hold_minutes = row.hold_minutes_snapshot;
      }),
    )
