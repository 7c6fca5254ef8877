-- ===== src/Invariant/Routes.antt =====
-- What the service keeps, the route around it keeps.
use table_queue.Common.{
  ℕ, ◌≡◌, Bool, true, false, Option, none, some, Text, [], ◌∷◌, arith, inl, inr, Option-cases, keep,
  first, text_eq,
}
use table_queue.Models.{Instant, WaitlistEntry, Table}
use table_queue.Errors.{Result-cases, ok}
use table_queue.Store.{Db, In, find_table, first-keep, In-keep_of, In-order_by, order_by}
use table_queue.Waitlist.Dates.{Env}
use table_queue.Waitlist.Lookup.{find_entry_by_tail, answers_tail, newest_first}
use table_queue.Waitlist.Join
use table_queue.Waitlist.Join.{JoinRequest}
use table_queue.Waitlist.Cancel.{cancel_entry}
use table_queue.Waitlist.Status.{apply_lazy_no_show, build_status_payload}
use table_queue.StaffWaitlist.Payload.{RawId}
use table_queue.StaffWaitlist.Listing.{list_waitlist, sweep_expired, ListQuery}
use table_queue.StaffWaitlist.Filter.{status_filter}
use table_queue.Tables.Admin.{get_table, UpdateTableRequest, update_table, soft_delete_table}
use table_queue.Tables.Routes.{update_admin_table, delete_admin_table}
use table_queue.Public.{resolve_entry, by_tail, join_waitlist, get_waitlist_status, cancel_waitlist}
use table_queue.Requests.After.{store_after, store_deleted}
use table_queue.Requests.Guest.{find_entry_by_token-ok}

-- A row that a tail finds is a row of the store.
find_entry_by_tail-ok :
    (env : Env) (db : Db) (number last3 : Text) (now : Instant) (e : WaitlistEntry)
    → find_entry_by_tail env db number last3 now ≡ ok e
    → In e db.entries
unfolding find_entry_by_tail
find_entry_by_tail-ok env db number last3 now e h =
    let rows = keep (λ r. text_eq r.queue_number number) db.entries in
    elim (Option-cases
      (first (keep (answers_tail env db last3 now) (order_by newest_first rows)))) [
        | inl missing ↦ ground arith
        | inr (f, found) ↦
            let m =
              (first-keep (answers_tail env db last3 now) (order_by newest_first rows) f found).0 in
            let n =
              (In-keep_of (λ r. text_eq r.queue_number number) db.entries f
                (In-order_by newest_first f rows m)).0 in
            ground arith
      ]

by_tail-In :
    (env : Env) (db : Db) (number : Text) (tail : Option Text) (now : Instant) (e : WaitlistEntry)
    → by_tail env db number tail now ≡ ok e
    → In e db.entries
by_tail-In env db number none now e h = cc
by_tail-In env db number (some []) now e h = cc
by_tail-In env db number (some (c ∷ tail)) now e h =
    find_entry_by_tail-ok env db number (c ∷ tail) now e h

-- A resolved row is a row of the store.
pub resolve_entry-In :
    (env : Env) (db : Db) (number : Text) (token tail : Option Text) (for_cancel : Bool)
    (now : Instant) (e : WaitlistEntry)
    → resolve_entry env db number token tail for_cancel now ≡ ok e
    → In e db.entries
unfolding resolve_entry
resolve_entry-In env db number (some (c ∷ t)) tail for_cancel now e h =
    (find_entry_by_token-ok db number (c ∷ t) e h).0
resolve_entry-In env db number (some []) tail true now e h = cc
resolve_entry-In env db number (some []) tail false now e h = by_tail-In env db number tail now e h
resolve_entry-In env db number none tail true now e h = cc
resolve_entry-In env db number none tail false now e h = by_tail-In env db number tail now e h

-- A guest route changes the store the way its service does.
module _ (P : Db → Type 0) (env : Env) (db : Db) (now : Instant) (h : P db) where
  pub public_join-keeps :
      (branch_id : ℕ) (request : JoinRequest)
      → P (store_after db (Join.join_waitlist env db branch_id request now))
      → P (store_after db (join_waitlist env db branch_id request now))
  unfolding join_waitlist
  public_join-keeps branch_id request k =
      elim (Result-cases (Join.join_waitlist env db branch_id request now)) [
        | inl (e, bad) ↦ rw (bad, join_waitlist) h
        | inr (out, good) ↦ rw (good, join_waitlist) (rw good at k)
      ]

  pub read_status-keeps :
      (number : Text) (token tail : Option Text)
      → ((e : WaitlistEntry) → In e db.entries → P (apply_lazy_no_show db e now).0)
      → P (get_waitlist_status env db number token tail now).0
  unfolding get_waitlist_status build_status_payload
  read_status-keeps number token tail k =
      elim (Result-cases (resolve_entry env db number token tail false now)) [
        | inl (e, bad) ↦ rw (bad, get_waitlist_status) h
        | inr (e, good) ↦
            rw (good, get_waitlist_status)
              (k e (resolve_entry-In env db number token tail false now e good))
      ]

  pub public_cancel-keeps :
      (number : Text) (token tail : Option Text)
      → ((e : WaitlistEntry) → In e db.entries → P (store_after db (cancel_entry db e now)))
      → P (store_after db (cancel_waitlist env db number token tail now))
  unfolding cancel_waitlist
  public_cancel-keeps number token tail k =
      elim (Result-cases (resolve_entry env db number token tail true now)) [
        | inl (e, bad) ↦ rw (bad, cancel_waitlist) h
        | inr (e, good) ↦
            let k' = k e (resolve_entry-In env db number token tail true now e good) in
            elim (Result-cases (cancel_entry db e now)) [
              | inl (r, refused) ↦ rw (good, cancel_waitlist) (rw refused h)
              | inr (out, done_) ↦ rw (good, cancel_waitlist) (rw done_ (rw done_ at k'))
            ]
      ]

  pub list-keeps :
      (query : ListQuery)
      → P (sweep_expired env db now)
      → P (store_after db (list_waitlist env db query now))
  unfolding list_waitlist
  list-keeps query k = elim (Result-cases (status_filter query.status)) [
    | inl (e, bad) ↦ rw (bad, list_waitlist) h
    | inr (statuses, good) ↦ rw (good, list_waitlist) k
  ]

  pub update_admin-keeps :
      (table_id : RawId) (payload : UpdateTableRequest)
      → ((k : ℕ) (row : Table)
          → find_table k db ≡ some row
          → P (store_after db (update_table db row payload)))
      → P (store_after db (update_admin_table db table_id payload))
  unfolding update_admin_table get_table
  update_admin-keeps none payload k = h
  update_admin-keeps (some i) payload k = elim (Option-cases (find_table i db)) [
    | inl missing ↦ rw (missing, update_admin_table, get_table) h
    | inr (row, found) ↦ rw (found, update_admin_table, get_table) (k i row found)
  ]

  pub delete_admin-keeps :
      (table_id : RawId)
      → ((k : ℕ) (row : Table)
          → find_table k db ≡ some row
          → P (store_deleted db (soft_delete_table db row)))
      → P (store_deleted db (delete_admin_table db table_id))
  unfolding delete_admin_table get_table
  delete_admin-keeps none k = h
  delete_admin-keeps (some i) k = elim (Option-cases (find_table i db)) [
    | inl missing ↦ rw (missing, delete_admin_table, get_table) h
    | inr (row, found) ↦ rw (found, delete_admin_table, get_table) (k i row found)
  ]
