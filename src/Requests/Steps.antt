-- ===== src/Requests/Steps.antt =====
-- A request to the waitlist and the tables as a step of the store, and runs of requests. The
-- routes are those of backend/app/routers/public.py, staff_waitlist.py, staff.py and admin.py that
-- write a queue entry or a table; a step reads its clock, and the draws of the process, from the
-- request.
use table_queue.Common.{ℕ, Option, List, Text, ◌≡◌, none}
use table_queue.Models.{Instant, TableStatus}
use table_queue.Store.{Db, find_entry, find_table}
use table_queue.Waitlist.Dates.{Env}
use table_queue.Waitlist.Join.{JoinRequest}
use table_queue.StaffWaitlist.Payload.{RawId}
use table_queue.StaffWaitlist.Actions.{
  EditFields, call_entry, seat_entry, no_show_entry, restore_entry, revert_entry, cancel_entry,
  edit_entry,
}
use table_queue.StaffWaitlist.Listing.{ListQuery, list_waitlist}
use table_queue.StaffWaitlist.Reorder.{reorder}
use table_queue.StaffWaitlist.CloseDay.{close_day}
use table_queue.Tables.Admin.{CreateTableRequest, UpdateTableRequest, create_table}
use table_queue.Tables.Routes.{update_admin_table, delete_admin_table}
use table_queue.Tables.Staff.{update_table_status, release_table}
use table_queue.Dashboard.{collect}
use table_queue.Public.{join_waitlist, get_waitlist_status, cancel_waitlist}
use table_queue.Requests.After.{store_after, store_deleted}

pub data Request : Type 0 where
  join : ℕ → JoinRequest → Request
  read_status : Text → Option Text → Option Text → Request
  guest_cancel : Text → Option Text → Option Text → Request
  list : ListQuery → Request
  dashboard : Request
  call no_show restore revert cancel : RawId → Request
  seat : RawId → RawId → Request
  edit : RawId → EditFields → Request
  reorder_queue : List ℕ → Instant → Request
  close : Instant → Request
  create : CreateTableRequest → ℕ → Request
  update : RawId → UpdateTableRequest → Request
  delete : RawId → Request
  set_status : RawId → Option TableStatus → Request
  release : RawId → Request

-- The store after a request at a time.
unfoldable pub handle : Env → Db → Request → Instant → Db
handle env db (join branch_id request) now =
    store_after db (join_waitlist env db branch_id request now)
handle env db (read_status number token tail) now =
    (get_waitlist_status env db number token tail now).0
handle env db (guest_cancel number token tail) now =
    store_after db (cancel_waitlist env db number token tail now)
handle env db (list query) now = store_after db (list_waitlist env db query now)
handle env db dashboard now = (collect env db now).0
handle env db (call e) now = store_after db (call_entry db e now)
handle env db (no_show e) now = store_after db (no_show_entry db e now)
handle env db (restore e) now = store_after db (restore_entry db e now)
handle env db (revert e) now = store_after db (revert_entry db e now)
handle env db (cancel e) now = store_after db (cancel_entry db e now)
handle env db (seat e t) now = store_after db (seat_entry db e t now)
handle env db (edit e fields) now = store_after db (edit_entry db e fields now)
handle env db (reorder_queue ids wall) now = store_after db (reorder env db ids wall now)
handle env db (close wall) now = (close_day env db wall now).0
handle env db (create payload new_id) now = store_after db (create_table env db payload new_id)
handle env db (update t payload) now = store_after db (update_admin_table db t payload)
handle env db (delete t) now = store_deleted db (delete_admin_table db t)
handle env db (set_status t status) now = store_after db (update_table_status db t status now)
handle env db (release t) now = store_after db (release_table db t now)

-- `uuid4` draws an id that no row has.
abbrev pub IsFresh : Db → Request → Type 0
IsFresh db (join branch_id request) = find_entry request.new_id db ≡ none
IsFresh db (create payload new_id) = find_table new_id db ≡ none
IsFresh db (read_status number token tail) = Unit
IsFresh db (guest_cancel number token tail) = Unit
IsFresh db (list query) = Unit
IsFresh db dashboard = Unit
IsFresh db (call e) = Unit
IsFresh db (no_show e) = Unit
IsFresh db (restore e) = Unit
IsFresh db (revert e) = Unit
IsFresh db (cancel e) = Unit
IsFresh db (seat e t) = Unit
IsFresh db (edit e fields) = Unit
IsFresh db (reorder_queue ids wall) = Unit
IsFresh db (close wall) = Unit
IsFresh db (update t payload) = Unit
IsFresh db (delete t) = Unit
IsFresh db (set_status t status) = Unit
IsFresh db (release t) = Unit

-- The request sets no table's status by hand, and is no close of a day.
abbrev pub IsSeating : Request → Type 0
IsSeating (set_status t status) = ⊥
IsSeating (close wall) = ⊥
IsSeating (join branch_id request) = Unit
IsSeating (create payload new_id) = Unit
IsSeating (read_status number token tail) = Unit
IsSeating (guest_cancel number token tail) = Unit
IsSeating (list query) = Unit
IsSeating dashboard = Unit
IsSeating (call e) = Unit
IsSeating (no_show e) = Unit
IsSeating (restore e) = Unit
IsSeating (revert e) = Unit
IsSeating (cancel e) = Unit
IsSeating (seat e t) = Unit
IsSeating (edit e fields) = Unit
IsSeating (reorder_queue ids wall) = Unit
IsSeating (update t payload) = Unit
IsSeating (delete t) = Unit
IsSeating (release t) = Unit

-- The stores that requests lead to, one after another; `Allowed` says which requests a run may
-- hold.
pub data Reaches (env : Env) (Allowed : Request → Type 0) : Db → Db → Type 0 where
  here : (db : Db) → Reaches env Allowed db db
  then :
      (db db' : Db) (request : Request) (now : Instant)
      → IsFresh db request
      → Allowed request
      → Reaches env Allowed (handle env db request now) db'
      → Reaches env Allowed db db'
