-- ===== src/Invariant/Lifecycle/Requests.antt =====
-- Every request moves every entry along the relation.
use table_queue.Common.{
  Bool, ◌&&◌, Text, ℕ, ◌≡◌, refl, ap, inl, inr, true, false, none, some, List, arith, Option-cases,
  Bool-cases, if◌then◌else◌,
}
use table_queue.Models.{WaitlistEntry, Instant, seated, no_show, cancelled, status_is, status_in}
use table_queue.Store.{Db, In, Distinct, entry_key, find_entry, save_entry, get_row-In}
use table_queue.Waitlist.Dates.{Env, business_date_for}
use table_queue.Waitlist.Status.{is_lapsed, lapsed_entry, apply_lazy_no_show}
use table_queue.Waitlist.Cancel.{guest_cancelled_entry}
use table_queue.Waitlist.Cancel
use table_queue.Waitlist.Statuses.{active_statuses}
use table_queue.Waitlist.Join
use table_queue.Waitlist.Join.{JoinRequest, joining_entry}
use table_queue.StaffWaitlist.Payload.{RawId}
use table_queue.StaffWaitlist.Actions.{
  called_entry, seated_entry, closed_entry, close_entry, restored_entry, reverted_entry,
  staff_cancelled, EditFields, edited_entry, call_entry, seat_entry, no_show_entry, restore_entry,
  revert_entry, cancel_entry, edit_entry,
}
use table_queue.StaffWaitlist.Listing.{is_called_here, sweep_expired, queue_day}
use table_queue.Dashboard.{
  collect, branch_for_read, read_day, is_day_row, apply_lazy_no_show_for_branch,
}
use table_queue.Dashboard.Counts.{apply_lazy_no_show_for_branch-exact}
use table_queue.StaffWaitlist.Listing.Sweep.{sweep_expired-exact}
use table_queue.StaffWaitlist.Reorder.{move_to, moved_entry, reorder}
use table_queue.StaffWaitlist.CloseDay.{close_day, is_closing, day_closed_entry}
use table_queue.Tables.Staff.{party_at, finish_party, done_entry, release_table}
use table_queue.Requests.After.{store_after}
use table_queue.Requests.Staff.{
  call_cases, seat_cases, no_show_cases, restore_cases, revert_cases, cancel_cases, edit_cases,
}
use table_queue.Requests.Guest.{join_cases, lazy_no_show_cases, guest_cancel_cases}
use table_queue.Requests.Tables.{release_cases}
use table_queue.Invariant.Tables.{party_is_seated}
use table_queue.Invariant.Reorder.{reorder-keeps}
use table_queue.Invariant.Lifecycle.Moves.{Moves, Follows, stays}
use table_queue.Invariant.Lifecycle.Writes.{
  unchanged, append-Follows, save_entry-Follows, save_same-Follows, release_held_table-Follows,
  map-Follows, loses, lapses, drops_by_staff, drops_by_guest, drops_at_close, to_called, to_seated,
  to_done, back_from,
}

module _ (db : Db) (now : Instant) where
  -- A row that its id finds moves.
  found-Follows :
      {m : Bool} (k : ℕ) (old new : WaitlistEntry)
      → find_entry k db ≡ some old
      → new.id ≡ old.id
      → Moves m old.status new.status
      → Follows m db (save_entry new db)
  found-Follows k old new found =
      save_entry-Follows db old new (get_row-In entry_key k db.entries old found)

  pub call-Follows : (e : RawId) → Follows false db (store_after db (call_entry db e now))
  call-Follows entry_id =
      call_cases (Follows false db) db now entry_id (unchanged db) λ k minutes e found was.
        found-Follows k e (called_entry e minutes now) found refl (to_called e.status was)

  pub seat-Follows : (e t : RawId) → Follows false db (store_after db (seat_entry db e t now))
  seat-Follows entry_id table_id =
      seat_cases (Follows false db) db now entry_id table_id (unchanged db)
        λ j k e t found held was free active.
          found-Follows j e (seated_entry e t now) found refl (to_seated e.status was)

  pub no_show-Follows : (e : RawId) → Follows true db (store_after db (no_show_entry db e now))
  unfolding close_entry
  no_show-Follows entry_id =
      no_show_cases (Follows true db) db now entry_id (unchanged db) λ k e found was.
        release_held_table-Follows db (save_entry (closed_entry e no_show now) db) e.table_id
          (found-Follows k e (closed_entry e no_show now) found refl (loses e.status was))

  pub restore-Follows : (e : RawId) → Follows false db (store_after db (restore_entry db e now))
  restore-Follows entry_id =
      restore_cases (Follows false db) db now entry_id (unchanged db) λ k e found was.
        found-Follows k e (restored_entry e now) found refl (back_from e.status (inl was))

  pub revert-Follows : (e : RawId) → Follows false db (store_after db (revert_entry db e now))
  revert-Follows entry_id =
      revert_cases (Follows false db) db now entry_id (unchanged db) λ k e found was.
        found-Follows k e (reverted_entry e now) found refl (back_from e.status (inr was))

  pub cancel-Follows : (e : RawId) → Follows false db (store_after db (cancel_entry db e now))
  unfolding close_entry
  cancel-Follows entry_id =
      cancel_cases (Follows false db) db now entry_id (unchanged db) λ k e found was.
        release_held_table-Follows db
          (save_entry (closed_entry (staff_cancelled e) cancelled now) db) e.table_id
          (found-Follows k e (closed_entry (staff_cancelled e) cancelled now) found refl
            (drops_by_staff e.status was))

  pub edit-Follows :
      (e : RawId) (fields : EditFields)
      → Follows false db (store_after db (edit_entry db e fields now))
  edit-Follows entry_id fields =
      edit_cases (Follows false db) db now entry_id fields (unchanged db)
        λ k e found was. found-Follows k e (edited_entry e fields now) found refl stays

  pub release-Follows : (t : RawId) → Follows false db (store_after db (release_table db t now))
  unfolding finish_party
  release-Follows table_id =
      release_cases (Follows false db) db now table_id (unchanged db) λ k t found active full.
        elim (Option-cases (party_at db t.id)) [
          | inl empty ↦ rw (empty, finish_party) (unchanged db)
          | inr (e, seen) ↦
              let (m, sits) = party_is_seated db t.id e seen in
              rw (seen, finish_party)
                (save_entry-Follows db e (done_entry e now) m refl
                  (to_done e.status (ground arith)))
        ]

module _ (env : Env) (db : Db) (now : Instant) where
  pub join-Follows :
      (branch_id : ℕ) (request : JoinRequest)
      → find_entry request.new_id db ≡ none
      → Follows false db (store_after db (Join.join_waitlist env db branch_id request now))
  unfolding joining_entry
  join-Follows branch_id request fresh =
      join_cases (Follows false db) env db now branch_id request (unchanged db)
        λ branch settings found free.
          append-Follows db
            (joining_entry db branch_id (business_date_for env branch now) settings.queue_prefix
              request now)
            refl fresh

  pub lazy_no_show-Follows :
      (e : WaitlistEntry) → In e db.entries → Follows false db (apply_lazy_no_show db e now).0
  unfolding is_lapsed
  lazy_no_show-Follows e m =
      lazy_no_show_cases (Follows false db) env db now e (unchanged db) λ lapsed.
        save_entry-Follows db e (lapsed_entry e now) m refl (lapses e.status (ground arith))

  pub guest_cancel-Follows :
      (e : WaitlistEntry)
      → In e db.entries
      → Follows false db (store_after db (Cancel.cancel_entry db e now))
  guest_cancel-Follows e m =
      guest_cancel_cases (Follows false db) env db now e (unchanged db) λ was.
        save_entry-Follows db e (guest_cancelled_entry e now) m refl (drops_by_guest e.status was)

  swept-Moves :
      (here : WaitlistEntry → Bool) (e : WaitlistEntry)
      → Moves false e.status (if here e && is_lapsed e now then lapsed_entry e now else e).status
  unfolding is_lapsed
  swept-Moves here e = elim (Bool-cases (here e && is_lapsed e now)) [
    | inl hit ↦ rw hit (lapses e.status (ground arith))
    | inr miss ↦ rw miss stays
  ]

  pub sweep_expired-Follows :
      Distinct entry_key db.entries → Follows false db (sweep_expired env db now)
  sweep_expired-Follows d =
      map-Follows db (sweep_expired env db now) _
        (ap (λ s. s.entries) (sweep_expired-exact env db now d)) (λ e. ground arith)
        (swept-Moves (is_called_here env))

  pub collect-Follows : Distinct entry_key db.entries → Follows false db (collect env db now).0
  unfolding collect
  collect-Follows d = elim (Option-cases (branch_for_read env db)) [
    | inl missing ↦ rw (missing, collect) (unchanged db)
    | inr (branch, found) ↦
        let today = read_day env db branch now in
        let db' = apply_lazy_no_show_for_branch db branch.id today now in
        let written =
          ap (λ s. s.entries) (apply_lazy_no_show_for_branch-exact db branch.id today now d) in
        rw (found, collect)
          (map-Follows db db' _ written (λ e. ground arith)
            (swept-Moves (is_day_row branch.id today)))
  ]

  closes :
      (e : WaitlistEntry)
      → status_in e.status active_statuses ≡ true
      → Moves false e.status (day_closed_entry e now).status
  closes e live = elim (Bool-cases (status_is e.status seated)) [
    | inl sits ↦ rw sits (to_done e.status (ground arith))
    | inr up ↦ rw up (drops_at_close e.status live)
  ]

  closed-Moves :
      (d : Text) (e : WaitlistEntry)
      → Moves false e.status (if is_closing env d e then day_closed_entry e now else e).status
  closed-Moves d e = elim (Bool-cases (is_closing env d e)) [
    | inl hit ↦ rw hit (closes e (ground arith))
    | inr miss ↦ rw miss stays
  ]

  pub close_day-Follows : (wall : Instant) → Follows false db (close_day env db wall now).0
  unfolding close_day
  close_day-Follows wall =
      map-Follows db (close_day env db wall now).0 _ refl (λ e. ground arith)
        (closed-Moves (queue_day env db wall))

  move_to-Follows :
      (wall : Instant) (db' : Db) (k index : ℕ)
      → Follows false db db'
      → Follows false db (move_to db' k index wall)
  unfolding move_to
  move_to-Follows wall db' k index f = elim (Option-cases (find_entry k db')) [
    | inl missing ↦ rw (missing, move_to) f
    | inr (e, found) ↦
        rw (found, move_to)
          (save_same-Follows db db' e (moved_entry e index wall) f
            (get_row-In entry_key k db'.entries e found) (ground arith) (ground arith))
  ]

  pub reorder-Follows :
      (ids : List ℕ) (wall : Instant)
      → Follows false db (store_after db (reorder env db ids wall now))
  reorder-Follows ids wall =
      reorder-keeps (Follows false db) env db ids wall now (move_to-Follows wall) (unchanged db)
