-- ===== src/StaffWaitlist/Listing.antt =====
-- The queue's day, the no-show sweep and the list of backend/app/services/staff_waitlist.py. Lock
-- contention (the STORE_BUSY answer of the sweep) does not arise, as a request runs alone.
pub mod Sweep
use table_queue.Common.{
  ℕ, zero, suc, ◌+◌, ◌/◌, Bool, true, false, ◌&&◌, Option, none, some, List, [], ◌∷◌, map, Text,
  ltb, leb, ◌==◌, text_eq, text_leb, if◌then◌else◌, keep, take, drop, length, any_of,
}
use table_queue.Common.Int.{ℤ, is_nonpositive}
use table_queue.Models.{
  Branch, WaitlistEntry, WaitlistStatus, Instant, called, status_is, status_in,
}
use table_queue.Errors.{Result, ok, ◌>>=◌}
use table_queue.Store.{Db, find_branch, order_by}
use table_queue.Waitlist.Dates.{Env, business_date_for, isoformat, day}
use table_queue.Waitlist.Status.{remaining_seconds, apply_lazy_no_show}
use table_queue.StaffWaitlist.Filter.{status_filter, matches_search}
use table_queue.StaffWaitlist.Payload.{EntryPayload, entry_payload}

-- The newest business date of the branch's rows.
unfoldable pub latest_day : List Text → Option Text
latest_day [] = none
latest_day (d ∷ ds) = elim (latest_day ds) [
  | none ↦ some d
  | some latest ↦ some (if text_leb d latest then latest else d)
]

abbrev pub branch_days : Env → Db → List Text
branch_days env db =
    map (λ e. e.business_date) (keep (λ e. e.branch_id == env.default_branch_id) db.entries)

unfoldable pub has_rows_on : Env → Db → Text → Bool
has_rows_on env db d =
    any_of (λ e. e.branch_id == env.default_branch_id && text_eq e.business_date d) db.entries

-- `latest[0]`, or the day where the branch has no row.
unfoldable pub newest_or : Option Text → Text → Text
newest_or none d = d
newest_or (some latest) d = latest

-- The clock's day where it has rows; else the newest day with rows; else the clock's.
unfoldable pub day_for : Env → Option Branch → Option Text → (Text → Bool) → Instant → Text
unfolding newest_or
day_for env none latest has_rows now = newest_or latest (isoformat (now / day))
day_for env (some branch) latest has_rows now =
    let today = business_date_for env branch now in
    if has_rows today then today else newest_or latest today

unfoldable pub queue_day : Env → Db → Instant → Text
queue_day env db now =
    day_for env (find_branch env.default_branch_id db) (latest_day (branch_days env db))
      (has_rows_on env db) now

abbrev pub in_queue_order : WaitlistEntry → WaitlistEntry → Bool
in_queue_order a b =
    if a.sort_order == b.sort_order
    then leb a.created_at b.created_at
    else ltb a.sort_order b.sort_order

abbrev pub party_is : Option ℕ → WaitlistEntry → Bool
party_is none e = true
party_is (some n) e = e.party_size == n

unfoldable pub is_listed : Env → List WaitlistStatus → Text → Option ℕ → WaitlistEntry → Bool
is_listed env statuses d party_size e =
    e.branch_id == env.default_branch_id
    && status_in e.status statuses
    && text_eq e.business_date d
    && party_is party_size e

-- `_filtered_query(…).order_by(*_queue_order())`
unfoldable pub filtered_rows : Env → Db → List WaitlistStatus → Text → Option ℕ → List WaitlistEntry
filtered_rows env db statuses d party_size =
    order_by in_queue_order (keep (is_listed env statuses d party_size) db.entries)

abbrev pub search_in : Option Text → List WaitlistEntry → List WaitlistEntry
search_in none rows = rows
search_in (some []) rows = rows
search_in (some (c ∷ s)) rows = keep (λ e. matches_search e (c ∷ s)) rows

unfoldable pub queue_rows :
    Env → Db → List WaitlistStatus → Text → Option Text → Option ℕ → List WaitlistEntry
queue_rows env db statuses d search party_size =
    search_in search (filtered_rows env db statuses d party_size)

-- `remaining is not None and remaining <= 0`
abbrev is_out_of_time : Option ℤ → Bool
is_out_of_time none = false
is_out_of_time (some z) = is_nonpositive z

unfoldable pub sweep_rows : Db → List WaitlistEntry → Instant → Db
sweep_rows db [] now = db
sweep_rows db (row ∷ rows) now =
    sweep_rows
      (if is_out_of_time (remaining_seconds row now) then (apply_lazy_no_show db row now).0 else db)
      rows now

abbrev pub is_called_here : Env → WaitlistEntry → Bool
is_called_here env e = e.branch_id == env.default_branch_id && status_is e.status called

unfoldable pub sweep_expired : Env → Db → Instant → Db
unfolding sweep_rows
sweep_expired env db now = sweep_rows db (keep (is_called_here env) db.entries) now

pub record ListPayload : Type 0 where
  pub items : List EntryPayload
  pub total : ℕ

pub record ListQuery : Type 0 where
  pub status : Text
  pub search : Option Text
  pub party_size : Option ℕ
  pub limit : ℕ
  pub offset : ℕ

-- With no search the page is a LIMIT and OFFSET of the ordered rows and the total their count; a
-- search pages its matches: both are a slice of the rows in order.
unfoldable pub list_waitlist : Env → Db → ListQuery → Instant → Result (Db × ListPayload)
list_waitlist env db query now = do
  statuses ← status_filter query.status
  let db' = sweep_expired env db now
  let rows = queue_rows env db' statuses (queue_day env db' now) query.search query.party_size
  ok (
    db',
    record {
      items = map (λ e. entry_payload db' e now) (take query.limit (drop query.offset rows));
      total = length rows;
    },
  )
