-- ===== src/StaffWaitlist/Reorder.antt =====
-- The reorder of backend/app/services/staff_waitlist.py. An id is in its canonical spelling; any
-- other spelling is an id that no row has. `wall` is the clock that `active_rows` and the
-- `onupdate` of `updated_at` read.
use table_queue.Common.{
  ℕ, ◌+◌, Bool, none, some, List, [], ◌∷◌, map, leb, ◌==◌, if◌then◌else◌, length, text_eq,
}
use table_queue.Models.{WaitlistEntry, Instant}
use table_queue.Errors.{Result, ok, ◌>>◌, ensure, app_error, conflict, id_sets}
use table_queue.Store.{Db, find_entry, save_entry, order_by}
use table_queue.Waitlist.Statuses.{active_statuses}
use table_queue.Waitlist.Dates.{Env}
use table_queue.StaffWaitlist.Payload.{entry_payload}
use table_queue.StaffWaitlist.Listing.{queue_day, queue_rows, in_queue_order, ListPayload}

unfoldable pub active_rows : Env → Db → Instant → List WaitlistEntry
active_rows env db wall = queue_rows env db active_statuses (queue_day env db wall) none none

-- `sorted(xs) == sorted(ys)`
unfoldable pub same_ids : List ℕ → List ℕ → Bool
same_ids xs ys = text_eq (order_by leb xs) (order_by leb ys)

-- `row.sort_order = index`: a write that changes nothing leaves `updated_at` alone.
abbrev pub moved_entry : WaitlistEntry → ℕ → Instant → WaitlistEntry
moved_entry e index wall =
    if e.sort_order == index then e else record e { sort_order = index; updated_at = wall }

unfoldable pub move_to : Db → ℕ → ℕ → Instant → Db
move_to db k index wall = elim (find_entry k db) [
  | none ↦ db
  | some e ↦ save_entry (moved_entry e index wall) db
]

unfoldable pub assign_positions : Db → List ℕ → ℕ → Instant → Db
unfolding move_to
assign_positions db [] index wall = db
assign_positions db (k ∷ ks) index wall =
    assign_positions (move_to db k index wall) ks (index + 1) wall

-- The rows of the session after the writes.
unfoldable pub refreshed : Db → List WaitlistEntry → List WaitlistEntry
refreshed db [] = []
refreshed db (e ∷ es) = elim (find_entry e.id db) [
  | none ↦ refreshed db es
  | some e' ↦ e' ∷ refreshed db es
]

unfoldable pub reorder : Env → Db → List ℕ → Instant → Instant → Result (Db × ListPayload)
reorder env db ordered_ids wall now = do
  let rows = active_rows env db wall
  let ids = map (λ e. e.id) rows
  ensure (same_ids ordered_ids ids)
      (app_error conflict none (id_sets (order_by leb ids) (order_by leb ordered_ids)))
  let db' = assign_positions db ordered_ids 1 wall
  let ordered = order_by in_queue_order (refreshed db' rows)
  ok (db', record { items = map (λ e. entry_payload db' e now) ordered; total = length ordered })
