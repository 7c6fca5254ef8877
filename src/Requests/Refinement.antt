-- ===== src/Requests/Refinement.antt =====
-- The requests as moves of an abstract queue, which is a list of ids and nothing else: a guest
-- joins at its end, a party that is called, seated, put back or edited keeps its place, and one
-- that leaves is taken out.
use table_queue.Common.{◌≡◌, refl, ap, ◌∙◌, inl, inr, none, some, arith, Text}
use table_queue.Models.{Instant, no_show, occupied}
use table_queue.Store.{Db, Distinct, entry_key, save_entry, save_table}
use table_queue.Waitlist.Dates.{Env, business_date_for}
use table_queue.Waitlist.Join.{joining_entry}
use table_queue.Waitlist.Cancel.{guest_cancelled_entry}
use table_queue.StaffWaitlist.Actions.{called_entry, seated_entry, reverted_entry, edited_entry}
use table_queue.Requests.Staff.{call_cases, seat_cases, revert_cases, edit_cases}
use table_queue.Requests.Guest.{join_cases, lazy_no_show_cases, guest_cancel_cases}
use table_queue.Models.{available}
use table_queue.Waitlist.Status.{lapsed_entry}
use table_queue.Tables.Admin.{create_table, update_table}
use table_queue.Tables.Staff.{party_at}
use table_queue.Requests.Tables.{
  store_after_cases, create_table-ok, update_table-ok, update_table_status_cases, release_cases,
}
use table_queue.Invariant.Routes.{
  read_status-keeps, update_admin-keeps, delete_admin-keeps, public_join-keeps, public_cancel-keeps,
}
use table_queue.Requests.Line.{line, line-save_gone, line-entries}
use table_queue.Requests.Steps.{
  Request, handle, join, read_status, guest_cancel, list, dashboard, call, no_show, restore, revert,
  cancel, seat, edit, reorder_queue, close, create, update, delete, set_status, release,
}
use table_queue.Requests.Moves.{LosesOne, Moves, IsMove}
use table_queue.Requests.Place.{
  keeps_place, off_queue, joined_line, no_show_at, cancel_at, refused_no_show, refused_cancel,
  on_queue, deleted, finished,
}

module _ (env : Env) (d : Text) (db : Db) (now : Instant)
    (distinct : Distinct entry_key db.entries) where
  -- With distinct ids, every request but a list, a dashboard read, a restore, a reorder and a
  -- close moves the line of a business date, the ids of the configured branch's active rows in
  -- queue order, as an abstract queue does: a join appends the new id or leaves the line; a call,
  -- a seat, a revert, an edit and the writes of tables leave it; a no-show and a staff cancel take
  -- out the id of the request or leave the line; a guest's cancel, a status read and a release
  -- take out at most one id.
  pub handle-Moves :
      (request : Request)
      → IsMove request
      → Moves request (line env db d) (line env (handle env db request now) d)
  unfolding handle joining_entry
  handle-Moves (join branch_id request) moves =
      let P : Db → Type 0 =
        λ after. Moves (join branch_id request) (line env db d) (line env after d) in
      public_join-keeps P env db now (inl refl) branch_id request (
        join_cases P env db now branch_id request (inl refl) (λ branch settings found free.
          joined_line env d db now distinct
            (joining_entry db branch_id (business_date_for env branch now) settings.queue_prefix
              request now)
            refl))
  handle-Moves (guest_cancel number token tail) moves =
      let P : Db → Type 0 = λ after. LosesOne (line env db d) (line env after d) in
      public_cancel-keeps P env db now (inl refl) number token tail (λ e m.
        guest_cancel_cases P env db now e (inl refl) (λ was. inr (
          e.id,
          line-save_gone env d db (guest_cancelled_entry e now)
              (off_queue env d db now distinct (guest_cancelled_entry e now) refl),
        )))
  handle-Moves (call e) moves =
      call_cases (λ after. line env after d ≡ line env db d) db now e refl
        (λ k minutes entry found was.
          keeps_place env d db now distinct k entry (called_entry entry minutes now) found
            (refl, refl, refl) (refl, refl) (rw was refl) refl)
  handle-Moves (seat e t) moves =
      seat_cases (λ after. line env after d ≡ line env db d) db now e t refl
        (λ j k entry table found held was free active.
          line-entries env d
            (save_table (record table { status = occupied })
              (save_entry (seated_entry entry table now) db))
            (save_entry (seated_entry entry table now) db) refl
          ∙ keeps_place env d db now distinct j entry (seated_entry entry table now) found
              (refl, refl, refl) (refl, refl) (on_queue env d db now distinct entry was) refl)
  handle-Moves (revert e) moves =
      revert_cases (λ after. line env after d ≡ line env db d) db now e refl
        (λ k entry found was.
          keeps_place env d db now distinct k entry (reverted_entry entry now) found
            (refl, refl, refl) (refl, refl) (rw was refl) refl)
  handle-Moves (edit e fields) moves =
      edit_cases (λ after. line env after d ≡ line env db d) db now e fields refl
        (λ k entry found was.
          keeps_place env d db now distinct k entry (edited_entry entry fields now) found
            (refl, refl, refl) (refl, refl) (ground arith) (ground arith))
  handle-Moves (no_show none) moves = refused_no_show env d db now distinct
  handle-Moves (no_show (some k)) moves = no_show_at env d db now distinct k
  handle-Moves (cancel none) moves = refused_cancel env d db now distinct
  handle-Moves (cancel (some k)) moves = cancel_at env d db now distinct k
  handle-Moves (read_status number token tail) moves =
      let P : Db → Type 0 = λ after. LosesOne (line env db d) (line env after d) in
      read_status-keeps P env db now (inl refl) number token tail (λ e m.
        lazy_no_show_cases P env db now e (inl refl) (λ lapsed. inr (
          e.id,
          line-save_gone env d db (lapsed_entry e now)
              (off_queue env d db now distinct (lapsed_entry e now) refl),
        )))
  handle-Moves (list query) moves = absurd moves
  handle-Moves dashboard moves = absurd moves
  handle-Moves (restore e) moves = absurd moves
  handle-Moves (reorder_queue ids wall) moves = absurd moves
  handle-Moves (close wall) moves = absurd moves
  handle-Moves (create payload new_id) moves =
      store_after_cases (λ after. line env after d ≡ line env db d) db now
        (create_table env db payload new_id) refl
        (λ db' t h.
          let (row, written, _, _) = create_table-ok env db db' payload new_id t h in
          line-entries env d db' db (ap (λ x. x.entries) written))
  handle-Moves (update t payload) moves =
      update_admin-keeps (λ after. line env after d ≡ line env db d) env db now refl t payload
        (λ k row found.
          store_after_cases (λ after. line env after d ≡ line env db d) db now
            (update_table db row payload) refl
            (λ db' new h.
              line-entries env d db' db
                (ap (λ x. x.entries) (update_table-ok db db' row new payload h).0)))
  handle-Moves (delete t) moves =
      delete_admin-keeps (λ after. line env after d ≡ line env db d) env db now refl t
        (λ k row found. deleted env d db now distinct row)
  handle-Moves (set_status t status) moves =
      update_table_status_cases (λ after. line env after d ≡ line env db d) db now t status refl
        (λ k row to named found active settable.
          line-entries env d (save_table (record row { status = to }) db) db refl)
  handle-Moves (release t) moves =
      release_cases (λ after. LosesOne (line env db d) (line env after d)) db now t (inl refl)
        (λ k row found active full.
          finished env d db now distinct (save_table (record row { status = available }) db) refl
            (party_at db row.id))
