-- ===== src/Invariant/Steps.antt =====
-- The invariants over every request, and over runs of requests.
use table_queue.Models.{Instant}
use table_queue.Store.{Db}
use table_queue.Waitlist.Dates.{Env}
use table_queue.Requests.Steps.{
  Request, handle, IsFresh, IsSeating, Reaches, here, then, join, read_status, guest_cancel,
  dashboard, list, call, no_show, restore, revert, cancel, seat, edit, reorder_queue, close, create,
  update, delete, set_status, release,
}
use table_queue.Invariant.Defs.{IsSound, IsSeated}
use table_queue.Invariant.Guest.{
  join-IsSound, lazy_no_show-IsSound, guest_cancel-IsSound, join-IsSeated, lazy_no_show-IsSeated,
  guest_cancel-IsSeated,
}
use table_queue.Invariant.Staff.{
  call-IsSound, seat-IsSound, no_show-IsSound, cancel-IsSound, restore-IsSound, revert-IsSound,
  edit-IsSound, call-IsSeated, seat-keeps-IsSeated, no_show-IsSeated, cancel-IsSeated,
  restore-IsSeated, revert-IsSeated, edit-IsSeated,
}
use table_queue.Invariant.Tables.{
  create_table-IsSound, update_table-IsSound, soft_delete-IsSound, update_table_status-IsSound,
  release-IsSound, create_table-IsSeated, update_table-IsSeated, soft_delete-IsSeated,
  release-IsSeated,
}
use table_queue.Invariant.Day.{
  sweep_expired-IsSound, sweep_expired-IsSeated, collect-IsSound, collect-IsSeated,
  close_day-IsSound,
}
use table_queue.Invariant.Reorder.{reorder-IsSound, reorder-IsSeated}
use table_queue.Invariant.Routes.{
  public_join-keeps, read_status-keeps, public_cancel-keeps, list-keeps, update_admin-keeps,
  delete_admin-keeps,
}

-- Every request, on every branch of its rule, keeps the rows sound.
pub handle-IsSound :
    (env : Env) (db : Db) (request : Request) (now : Instant)
    → IsFresh db request
    → IsSound db
    → IsSound (handle env db request now)
unfolding handle
handle-IsSound env db (join branch_id request) now fresh s =
    public_join-keeps IsSound env db now s branch_id request
      (join-IsSound env db now s branch_id request fresh)
handle-IsSound env db (read_status number token tail) now fresh s =
    read_status-keeps IsSound env db now s number token tail (lazy_no_show-IsSound env db now s)
handle-IsSound env db (guest_cancel number token tail) now fresh s =
    public_cancel-keeps IsSound env db now s number token tail (guest_cancel-IsSound env db now s)
handle-IsSound env db (list query) now fresh s =
    list-keeps IsSound env db now s query (sweep_expired-IsSound env db now s)
handle-IsSound env db dashboard now fresh s = collect-IsSound env db now s
handle-IsSound env db (call e) now fresh s = call-IsSound db now s e
handle-IsSound env db (no_show e) now fresh s = no_show-IsSound db now s e
handle-IsSound env db (restore e) now fresh s = restore-IsSound db now s e
handle-IsSound env db (revert e) now fresh s = revert-IsSound db now s e
handle-IsSound env db (cancel e) now fresh s = cancel-IsSound db now s e
handle-IsSound env db (seat e t) now fresh s = seat-IsSound db now s e t
handle-IsSound env db (edit e fields) now fresh s = edit-IsSound db now s e fields
handle-IsSound env db (reorder_queue ids wall) now fresh s = reorder-IsSound env db ids wall now s
handle-IsSound env db (close wall) now fresh s = close_day-IsSound env db now s wall
handle-IsSound env db (create payload new_id) now fresh s =
    create_table-IsSound env db now s payload new_id fresh
handle-IsSound env db (update t payload) now fresh s =
    update_admin-keeps IsSound env db now s t payload
      (λ k row found. update_table-IsSound env db now s row payload)
handle-IsSound env db (delete t) now fresh s =
    delete_admin-keeps IsSound env db now s t (λ k row found. soft_delete-IsSound env db now s row)
handle-IsSound env db (set_status t status) now fresh s =
    update_table_status-IsSound env db now s t status
handle-IsSound env db (release t) now fresh s = release-IsSound env db now s t

-- Every request but a table status set by hand and a close of the day keeps the seating.
pub handle-IsSeated :
    (env : Env) (db : Db) (request : Request) (now : Instant)
    → IsFresh db request
    → IsSeating request
    → IsSound db
    → IsSeated db
    → IsSeated (handle env db request now)
unfolding handle
handle-IsSeated env db (join branch_id request) now fresh seating s p =
    public_join-keeps IsSeated env db now p branch_id request
      (join-IsSeated env db now p branch_id request)
handle-IsSeated env db (read_status number token tail) now fresh seating s p =
    read_status-keeps IsSeated env db now p number token tail
      (λ e m. lazy_no_show-IsSeated env db now p e)
handle-IsSeated env db (guest_cancel number token tail) now fresh seating s p =
    public_cancel-keeps IsSeated env db now p number token tail
      (λ e m. guest_cancel-IsSeated env db now p e)
handle-IsSeated env db (list query) now fresh seating s p =
    list-keeps IsSeated env db now p query (sweep_expired-IsSeated env db now s p)
handle-IsSeated env db dashboard now fresh seating s p = collect-IsSeated env db now s p
handle-IsSeated env db (call e) now fresh seating s p = call-IsSeated db now s p e
handle-IsSeated env db (no_show e) now fresh seating s p = no_show-IsSeated db now s p e
handle-IsSeated env db (restore e) now fresh seating s p = restore-IsSeated db now s p e
handle-IsSeated env db (revert e) now fresh seating s p = revert-IsSeated db now s p e
handle-IsSeated env db (cancel e) now fresh seating s p = cancel-IsSeated db now s p e
handle-IsSeated env db (seat e t) now fresh seating s p = seat-keeps-IsSeated db now s p e t
handle-IsSeated env db (edit e fields) now fresh seating s p = edit-IsSeated db now s p e fields
handle-IsSeated env db (reorder_queue ids wall) now fresh seating s p =
    reorder-IsSeated env db ids wall now p
handle-IsSeated env db (close wall) now fresh seating s p = absurd seating
handle-IsSeated env db (create payload new_id) now fresh seating s p =
    create_table-IsSeated env db now p payload new_id fresh
handle-IsSeated env db (update t payload) now fresh seating s p =
    update_admin-keeps IsSeated env db now p t payload
      (λ k row found. update_table-IsSeated env db now p k row payload found)
handle-IsSeated env db (delete t) now fresh seating s p =
    delete_admin-keeps IsSeated env db now p t
      (λ k row found. soft_delete-IsSeated env db now p k row found)
handle-IsSeated env db (set_status t status) now fresh seating s p = absurd seating
handle-IsSeated env db (release t) now fresh seating s p = release-IsSeated env db now p t

-- Along any run of the nineteen writing requests from sound rows and with ids drawn fresh: ids
-- stay distinct, no two entries share branch, business date, prefix and sequence number, and every
-- entry has the columns of its status.
pub run-IsSound :
    (env : Env) (Allowed : Request → Type 0) (db db' : Db)
    → Reaches env Allowed db db'
    → IsSound db
    → IsSound db'
run-IsSound env Allowed db db' (here _) s = s
run-IsSound env Allowed db db' (then _ _ request now fresh allowed rest) s =
    run-IsSound env Allowed (handle env db request now) db' rest
      (handle-IsSound env db request now fresh s)

-- Along any run of the nineteen writing requests that sets no table status by hand and closes no
-- day, with ids drawn fresh, from a store with sound rows, the seating is kept: every SEATED entry
-- sits at an OCCUPIED table, and no two entries are SEATED at one table.
pub run-IsSeated :
    (env : Env) (db db' : Db)
    → Reaches env IsSeating db db'
    → IsSound db
    → IsSeated db
    → IsSeated db'
run-IsSeated env db db' (here _) s p = p
run-IsSeated env db db' (then _ _ request now fresh seating rest) s p =
    run-IsSeated env (handle env db request now) db' rest
      (handle-IsSound env db request now fresh s)
      (handle-IsSeated env db request now fresh seating s p)
