-- ===== src/StaffWaitlist/CloseDay.antt =====
-- `_close_day` of backend/app/routers/staff_waitlist.py. `wall` is the clock of `_queue_day`.
use table_queue.Common.{
  ℕ, Bool, true, false, ◌&&◌, some, map, Text, ◌==◌, text_eq, if◌then◌else◌, keep, length,
}
use table_queue.Models.{
  WaitlistEntry, CancelledReason, Table, Instant, seated, done, cancelled, occupied, cleaning,
  status_is, status_in, table_status_is,
}
use table_queue.Store.{Db}
use table_queue.Waitlist.Statuses.{active_statuses}
use table_queue.Waitlist.Dates.{Env}
use table_queue.StaffWaitlist.Listing.{queue_day}

abbrev pub is_closing : Env → Text → WaitlistEntry → Bool
is_closing env day e =
    e.branch_id == env.default_branch_id
    && text_eq e.business_date day
    && status_in e.status active_statuses

abbrev pub day_closed_entry : WaitlistEntry → Instant → WaitlistEntry
day_closed_entry e now =
    if status_is e.status seated
    then record e { status = done; closed_at = some now; updated_at = now }
    else record e {
      status = cancelled;
      cancelled_reason = some CancelledReason.closed_day;
      closed_at = some now;
      updated_at = now;
    }

abbrev pub is_clearing : Env → Table → Bool
is_clearing env t =
    t.branch_id == env.default_branch_id && t.is_active && table_status_is t.status occupied

pub record CloseCounts : Type 0 where
  pub cancelled : ℕ
  pub done : ℕ
  pub tables_cleaning : ℕ

unfoldable pub close_day : Env → Db → Instant → Instant → Db × CloseCounts
close_day env db wall now =
    let day = queue_day env db wall in
    let closing = keep (is_closing env day) db.entries in
    (
      record db {
        entries = map (λ e. if is_closing env day e then day_closed_entry e now else e) db.entries;
        tables =
            map (λ t. if is_clearing env t then record t { status = cleaning } else t) db.tables;
      },
      record {
        cancelled = length (keep (λ e. if status_is e.status seated then false else true) closing);
        done = length (keep (λ e. status_is e.status seated) closing);
        tables_cleaning = length (keep (is_clearing env) db.tables);
      },
    )
