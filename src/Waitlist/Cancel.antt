-- ===== src/Waitlist/Cancel.antt =====
-- The guest's `cancel_entry` of backend/app/services/waitlist.py.
use table_queue.Common.{none, some}
use table_queue.Models.{WaitlistEntry, Instant, CancelledReason, cancelled, status_in}
use table_queue.Errors.{Result, ok, ◌>>◌, ensure, app_error, waitlist_invalid_status, nothing}
use table_queue.Store.{Db, save_entry}
use table_queue.Waitlist.Statuses.{cancelable_statuses}

abbrev pub guest_cancelled_entry : WaitlistEntry → Instant → WaitlistEntry
guest_cancelled_entry entry now = record entry {
  status = cancelled;
  cancelled_reason = some CancelledReason.customer;
  closed_at = some now;
  updated_at = now;
}

unfoldable pub cancel_entry : Db → WaitlistEntry → Instant → Result (Db × WaitlistEntry)
cancel_entry db entry now = do
  ensure (status_in entry.status cancelable_statuses)
      (app_error waitlist_invalid_status none nothing)
  ok (save_entry (guest_cancelled_entry entry now) db, guest_cancelled_entry entry now)
