-- ===== src/Dashboard.antt =====
-- The dashboard of backend/app/services/dashboard.py. `business_date` is text in every row, so its
-- normalisation is the text itself.
pub mod Counts
use table_queue.Common.{
  ℕ, zero, suc, ◌+◌, ◌-◌, ◌*◌, ◌/◌, Bool, true, false, ◌&&◌, Option, none, some, List, [], ◌∷◌, map,
  Text, ltb, leb, ◌==◌, text_eq, if◌then◌else◌, keep, first, length,
}
use table_queue.Common.Int.{ℤ, pos, neg_ℕ}
use table_queue.Models.{
  Branch, WaitlistEntry, WaitlistStatus, TableStatus, Table, Instant, waiting, called, seated, done,
  no_show, cancelled, available, occupied, cleaning, status_is, table_status_is,
}
use table_queue.Store.{Db, find_branch, order_by}
use table_queue.Waitlist.Dates.{Env, business_date_for, day, hour, minute}
use table_queue.Waitlist.Status.{hold_deadline, apply_lazy_no_show}
use table_queue.StaffWaitlist.Listing.{latest_day, newest_or}
use table_queue.Tables.Admin.{list_tables}

-- `FIXTURE_INSTANT`: 2026-09-10 13:00 UTC.
abbrev pub fixture_instant : Instant
fixture_instant = 739868 * day + 13 * hour

abbrev pub is_day_row : ℕ → Text → WaitlistEntry → Bool
is_day_row branch_id business_date e =
    e.branch_id == branch_id && text_eq e.business_date business_date

unfoldable pub day_rows : Db → ℕ → Text → List WaitlistEntry
day_rows db branch_id business_date = keep (is_day_row branch_id business_date) db.entries

unfoldable pub latest_queued_day : Db → ℕ → Option Text
latest_queued_day db branch_id =
    latest_day (map (λ e. e.business_date) (keep (λ e. e.branch_id == branch_id) db.entries))

-- `if rows:`
abbrev pub has_any : List WaitlistEntry → Bool
has_any [] = false
has_any (e ∷ es) = true

-- The clock's day where it has rows, else the fixture's where it has, else the newest with rows,
-- else the clock's.
unfoldable pub read_day : Env → Db → Branch → Instant → Text
read_day env db branch clock =
    let today = business_date_for env branch clock in
    let fixture = business_date_for env branch fixture_instant in
    if has_any (day_rows db branch.id today)
    then today
    else if has_any (day_rows db branch.id fixture)
    then fixture
    else newest_or (latest_queued_day db branch.id) today

abbrev by_id : Branch → Branch → Bool
by_id a b = leb a.id b.id

unfoldable pub branch_for_read : Env → Db → Option Branch
branch_for_read env db = elim (find_branch env.default_branch_id db) [
  | none ↦ first (order_by by_id db.branches)
  | some branch ↦ some branch
]

-- The end of the hold is not after `now`; a row without both halves of its call never expires.
unfoldable pub is_expired : Instant → WaitlistEntry → Bool
is_expired now e = elim (hold_deadline e.hold_minutes_snapshot e.called_at) [
  | none ↦ false
  | some deadline ↦ leb deadline now
]

abbrev pub is_called : WaitlistEntry → Bool
is_called e = status_is e.status called

unfoldable pub expired_called_rows : Db → ℕ → Text → Instant → List WaitlistEntry
expired_called_rows db branch_id business_date now =
    keep (is_expired now) (keep is_called (day_rows db branch_id business_date))

unfoldable pub flip_rows : Db → List WaitlistEntry → Instant → Db
flip_rows db [] now = db
flip_rows db (row ∷ rows) now = flip_rows (apply_lazy_no_show db row now).0 rows now

unfoldable pub apply_lazy_no_show_for_branch : Db → ℕ → Text → Instant → Db
apply_lazy_no_show_for_branch db branch_id business_date now =
    flip_rows db (expired_called_rows db branch_id business_date now) now

unfoldable pub tally : List WaitlistEntry → WaitlistStatus → ℕ
tally rows status = length (keep (λ e. status_is e.status status) rows)

unfoldable pub table_tally : List Table → TableStatus → ℕ
table_tally tables status = length (keep (λ t. table_status_is t.status status) tables)

-- Whole minutes from seating to closing, rounded down: those above zero, and those below.
unfoldable pub seat_to_close_minutes : Instant → Instant → ℕ × ℕ
seat_to_close_minutes seated_at closed_at =
    if leb seated_at closed_at
    then ((closed_at - seated_at) / minute, 0)
    else (0, (seated_at - closed_at + (minute - 1)) / minute)

-- The rows with both times, their number, and their minutes above and below zero.
unfoldable pub durations : List WaitlistEntry → ℕ × ℕ × ℕ
durations [] = (0, 0, 0)
durations (e ∷ es) =
    let rest = durations es in
    elim e.seated_at [
      | none ↦ rest
      | some seated_at ↦ elim e.closed_at [
        | none ↦ rest
        | some closed_at ↦
            let (above, below) = seat_to_close_minutes seated_at closed_at in
            (rest.0 + 1, rest.1 + above, rest.2 + below)
      ]
    ]

-- `int(sum / len)`, cut towards zero.
unfoldable pub mean : ℕ × ℕ × ℕ → Option ℤ
mean (count, above, below) =
    if count == 0
    then none
    else some
        (if leb below above then pos ((above - below) / count) else neg_ℕ ((below - above) / count))

unfoldable pub avg_wait_minutes_today : Db → ℕ → Text → Option ℤ
avg_wait_minutes_today db branch_id business_date =
    mean (durations (keep (λ e. status_is e.status done) (day_rows db branch_id business_date)))

pub record DashboardPayload : Type 0 where
  pub waiting_count : ℕ
  pub called_count : ℕ
  pub seated_count : ℕ
  pub no_show_today : ℕ
  pub cancelled_today : ℕ
  pub seated_today : ℕ
  pub available_table_count : ℕ
  pub occupied_table_count : ℕ
  pub cleaning_table_count : ℕ
  pub avg_wait_minutes_today : Option ℤ

-- `{**queue_counts(…), **table_counts(…), …}` for the rows of a day.
unfoldable pub payload_for : Env → Db → List WaitlistEntry → Option ℤ → DashboardPayload
payload_for env db rows average =
    let tables = list_tables env db false in
    record {
      waiting_count = tally rows waiting;
      called_count = tally rows called;
      seated_count = tally rows seated;
      no_show_today = tally rows no_show;
      cancelled_today = tally rows cancelled;
      seated_today = tally rows seated;
      available_table_count = table_tally tables available;
      occupied_table_count = table_tally tables occupied;
      cleaning_table_count = table_tally tables cleaning;
      avg_wait_minutes_today = average;
    }

-- `counters`, which `collect` hands on. With no branch there is no day, and every count of entries
-- is zero.
unfoldable pub collect : Env → Db → Instant → Db × DashboardPayload
collect env db now = elim (branch_for_read env db) [
  | none ↦ (db, payload_for env db [] none)
  | some branch ↦
      let today = read_day env db branch now in
      let db' = apply_lazy_no_show_for_branch db branch.id today now in
      (
        db',
        payload_for env db' (day_rows db' branch.id today)
            (avg_wait_minutes_today db' branch.id today),
      )
]
