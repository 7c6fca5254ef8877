-- ===== src/Invariant/Lifecycle/Runs.antt =====
-- The life of an entry over every request and over runs of requests.
use table_queue.Common.{
  Bool, true, false, ℕ, ◌≡◌, ◌≢◌, ap, refl, sym, ◌∙◌, inl, inr, none, some, arith,
}
use table_queue.Models.{Instant, WaitlistEntry, WaitlistStatus}
use table_queue.Store.{Db, In, entry_key, find_entry, get_row_of_In}
use table_queue.Waitlist.Dates.{Env}
use table_queue.Tables.Admin.{create_table, update_table, soft_delete_table}
use table_queue.Requests.Tables.{
  store_after_cases, create_table-ok, update_table-ok, update_table_status_cases,
}
use table_queue.Requests.After.{store_deleted}
use table_queue.Requests.Steps.{
  Request, handle, IsFresh, Reaches, here, then, join, read_status, guest_cancel, dashboard, list,
  call, no_show, restore, revert, cancel, seat, edit, reorder_queue, close, create, update, delete,
  set_status, release,
}
use table_queue.Invariant.Defs.{IsSound}
use table_queue.Invariant.Steps.{handle-IsSound}
use table_queue.Invariant.Routes.{
  public_join-keeps, read_status-keeps, public_cancel-keeps, list-keeps, update_admin-keeps,
  delete_admin-keeps,
}
use table_queue.Invariant.Lifecycle.Moves.{
  Moves, Follows, IsFinal, stays, calls, seats_waiting, seats_called, finishes, loses_waiting,
  loses_called, loses_seated, drops_waiting, drops_called, drops_seated, restores, reverts,
}
use table_queue.Invariant.Lifecycle.Writes.{unchanged}
use table_queue.Invariant.Lifecycle.Requests.{
  call-Follows, seat-Follows, no_show-Follows, restore-Follows, revert-Follows, cancel-Follows,
  edit-Follows, release-Follows, join-Follows, lazy_no_show-Follows, guest_cancel-Follows,
  sweep_expired-Follows, close_day-Follows, reorder-Follows, collect-Follows,
}

-- The no-show of the staff.
abbrev pub is_no_show : Request → Bool
is_no_show (no_show e) = true
is_no_show other = false

soft_delete-Follows :
    (db : Db) (row : _) → Follows false db (store_deleted db (soft_delete_table db row))
unfolding soft_delete_table
soft_delete-Follows db row = ground (arith, unchanged {m = false} db)

-- From a sound store, every request leaves each entry in place, its status unchanged or moved
-- along one transition of section 5 of the specification, and adds at most entries that are
-- WAITING under a new id; only the staff's no-show moves an entry along another, from WAITING or
-- SEATED to NO_SHOW.
pub handle-Follows :
    (env : Env) (db : Db) (request : Request) (now : Instant)
    → IsFresh db request
    → IsSound db
    → Follows (is_no_show request) db (handle env db request now)
unfolding handle
handle-Follows env db (join branch_id request) now fresh s =
    public_join-keeps (Follows false db) env db now (unchanged db) branch_id request
      (join-Follows env db now branch_id request fresh)
handle-Follows env db (read_status number token tail) now fresh s =
    read_status-keeps (Follows false db) env db now (unchanged db) number token tail
      (lazy_no_show-Follows env db now)
handle-Follows env db (guest_cancel number token tail) now fresh s =
    public_cancel-keeps (Follows false db) env db now (unchanged db) number token tail
      (guest_cancel-Follows env db now)
handle-Follows env db (list query) now fresh s =
    list-keeps (Follows false db) env db now (unchanged db) query
      (sweep_expired-Follows env db now s.entry_ids)
handle-Follows env db dashboard now fresh s = collect-Follows env db now s.entry_ids
handle-Follows env db (call e) now fresh s = call-Follows db now e
handle-Follows env db (no_show e) now fresh s = no_show-Follows db now e
handle-Follows env db (restore e) now fresh s = restore-Follows db now e
handle-Follows env db (revert e) now fresh s = revert-Follows db now e
handle-Follows env db (cancel e) now fresh s = cancel-Follows db now e
handle-Follows env db (seat e t) now fresh s = seat-Follows db now e t
handle-Follows env db (edit e fields) now fresh s = edit-Follows db now e fields
handle-Follows env db (reorder_queue ids wall) now fresh s = reorder-Follows env db now ids wall
handle-Follows env db (close wall) now fresh s = close_day-Follows env db now wall
handle-Follows env db (create payload new_id) now fresh s =
    store_after_cases (Follows false db) db now (create_table env db payload new_id) (unchanged db)
      λ db' t h. rw ((create_table-ok env db db' payload new_id t h).1) (unchanged db)
handle-Follows env db (update t payload) now fresh s =
    update_admin-keeps (Follows false db) env db now (unchanged db) t payload λ k row found.
      store_after_cases (Follows false db) db now (update_table db row payload) (unchanged db)
        λ db' u h. rw ((update_table-ok db db' row u payload h).0) (unchanged db)
handle-Follows env db (delete t) now fresh s =
    delete_admin-keeps (Follows false db) env db now (unchanged db) t
      (λ k row found. soft_delete-Follows db row)
handle-Follows env db (set_status t status) now fresh s =
    update_table_status_cases (Follows false db) db now t status (unchanged db)
      (λ k u to named found active settable. unchanged db)
handle-Follows env db (release t) now fresh s = release-Follows db now t

final_stays : (m : Bool) (a b : WaitlistStatus) → IsFinal a → Moves m a b → b ≡ a
final_stays m a b f stays = refl
final_stays m a b f calls = ground arith
final_stays m a b f seats_waiting = ground arith
final_stays m a b f seats_called = ground arith
final_stays m a b f finishes = ground arith
final_stays m a b f loses_waiting = ground arith
final_stays m a b f loses_called = ground arith
final_stays m a b f loses_seated = ground arith
final_stays m a b f drops_waiting = ground arith
final_stays m a b f drops_called = ground arith
final_stays m a b f drops_seated = ground arith
final_stays m a b f restores = ground arith
final_stays m a b f reverts = ground arith

final_step : (m : Bool) (s a b : WaitlistStatus) → IsFinal s → a ≡ s → Moves m a b → b ≡ s
final_step m s a b final p move = final_stays m a b (rw p final) move ∙ p

one_row : (e f : WaitlistEntry) → some e ≡ some f → e ≡ f
one_row e f h = cc

some-none : {e : WaitlistEntry} → some e ≢ none
some-none h = cc

-- Two rows of one id are one row.
pub same_id :
    (db : Db) (e f : WaitlistEntry)
    → IsSound db
    → In e db.entries
    → In f db.entries
    → e.id ≡ f.id
    → e ≡ f
same_id db e f s m n same = one_row e f (
    sym (get_row_of_In entry_key e db.entries s.entry_ids m)
    ∙ ap (λ i. find_entry i db) same
    ∙ get_row_of_In entry_key f db.entries s.entry_ids n)

-- The row of an id, wherever it is, has this status.
abbrev HasStatus : ℕ → WaitlistStatus → Db → Type 0
HasStatus k status db =
    ((e : WaitlistEntry) × In e db.entries × (e.id ≡ k))
    × ((e : WaitlistEntry) → In e db.entries → e.id ≡ k → e.status ≡ status)

HasStatus-Follows :
    (m : Bool) (db db' : Db) (k : ℕ) (status : WaitlistStatus)
    → IsFinal status
    → IsSound db
    → Follows m db db'
    → HasStatus k status db
    → HasStatus k status db'
HasStatus-Follows flag db db' k status final s f ((e, m, p), h) =
    let (e1, m1, p1) = f.1 e m in
    (
      (e1, m1, p1 ∙ p),
      λ e' m' p'. elim (f.0 e' m') [
        | inl (e0, m0, p0, move) ↦
            final_step flag status e0.status e'.status final (h e0 m0 (p0 ∙ p')) move
        | inr (waits, absent) ↦ absurd (
            some-none (
              sym (get_row_of_In entry_key e db.entries s.entry_ids m)
              ∙ ap (λ i. find_entry i db) (p ∙ sym p')
              ∙ absent))
      ],
    )

run-HasStatus :
    (env : Env) (Allowed : Request → Type 0) (db db' : Db) (k : ℕ) (status : WaitlistStatus)
    → IsFinal status
    → Reaches env Allowed db db'
    → IsSound db
    → HasStatus k status db
    → HasStatus k status db'
run-HasStatus env Allowed db db' k status final (here _) s h = h
run-HasStatus env Allowed db db' k status final (then _ _ request now fresh allowed rest) s h =
    run-HasStatus env Allowed (handle env db request now) db' k status final rest
      (handle-IsSound env db request now fresh s)
      (HasStatus-Follows (is_no_show request) db (handle env db request now) k status final s
        (handle-Follows env db request now fresh s) h)

-- From a sound store, an entry that is DONE or CANCELLED has the same status after any run of
-- requests.
pub run-keeps_final :
    (env : Env) (Allowed : Request → Type 0) (db db' : Db) (e e' : WaitlistEntry)
    → Reaches env Allowed db db'
    → IsSound db
    → In e db.entries
    → IsFinal e.status
    → In e' db'.entries
    → e'.id ≡ e.id
    → e'.status ≡ e.status
run-keeps_final env Allowed db db' e e' run s m final m' same =
    (run-HasStatus env Allowed db db' e.id e.status final run s
        ((e, m, refl), λ f n p. ap (λ r. r.status) (same_id db f e s n m p))).1
      e' m' same
