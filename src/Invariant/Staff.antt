-- ===== src/Invariant/Staff.antt =====
-- The staff actions on one entry keep the invariants.
use table_queue.Common.{
  ℕ, ◌≡◌, ◌≢◌, refl, sym, true, Option, none, some, arith, inl, inr, Option-cases, is_some, ◌∙◌, ap,
}
use table_queue.Models.{
  WaitlistEntry, Instant, seated, no_show, cancelled, occupied, available, status_in,
}
use table_queue.Store.{
  Db, entry_key, table_key, find_entry, find_table, save_entry, get_row-In, key-get_row,
  get_row_key,
}
use table_queue.StaffWaitlist.Filter.{no_show_statuses}
use table_queue.StaffWaitlist.Payload.{RawId}
use table_queue.StaffWaitlist.Actions.{
  call_entry, called_entry, seat_entry, seated_entry, no_show_entry, close_entry, closed_entry,
  release_held_table, restore_entry, restored_entry, revert_entry, reverted_entry, cancel_entry,
  staff_cancelled, edit_entry, EditFields, edited_entry,
}
use table_queue.Requests.After.{store_after}
use table_queue.Requests.Staff.{
  call_cases, seat_cases, no_show_cases, restore_cases, revert_cases, cancel_cases, edit_cases,
}
use table_queue.Invariant.Defs.{IsConsistent, IsSound, IsSeated}
use table_queue.Invariant.Saves.{
  save_entry-IsSound, save_table-IsSound, save_entry-IsSeated, seat-IsSeated, unseat-IsSeated,
}

-- A row that its key finds keeps its key and number, and fits the columns of its new status.
rewrite-IsSound :
    (db : Db) (k : ℕ) (old new : WaitlistEntry)
    → IsSound db
    → find_entry k db ≡ some old
    → new.id ≡ old.id
    → (new.branch_id ≡ old.branch_id)
      × (new.business_date ≡ old.business_date)
      × (new.queue_prefix ≡ old.queue_prefix)
      × (new.seq ≡ old.seq)
    → (IsConsistent old → IsConsistent new)
    → IsSound (save_entry new db)
rewrite-IsSound db k old new s found same_id same fits =
    let m = get_row-In entry_key k db.entries old found in
    save_entry-IsSound db old new s m same_id same (fits (s.rows old m))

release_held_table-IsSound :
    (db : Db) (held : Option ℕ) → IsSound db → IsSound (release_held_table db held)
unfolding release_held_table
release_held_table-IsSound db none s = s
release_held_table-IsSound db (some k) s = elim (Option-cases (find_table k db)) [
  | inl gone ↦ rw (gone, release_held_table) s
  | inr (t, found) ↦
      rw (found, release_held_table) (save_table-IsSound db (record t { status = available }) s)
]

module _ (db : Db) (now : Instant) (s : IsSound db) where
  pub call-IsSound : (entry_id : RawId) → IsSound (store_after db (call_entry db entry_id now))
  call-IsSound entry_id = call_cases IsSound db now entry_id s λ k minutes e found was.
      rewrite-IsSound db k e (called_entry e minutes now) s found refl (refl, refl, refl, refl)
        (λ fits. ground arith)

  pub seat-IsSound :
      (entry_id table_id : RawId) → IsSound (store_after db (seat_entry db entry_id table_id now))
  seat-IsSound entry_id table_id =
      seat_cases IsSound db now entry_id table_id s λ j k e t found held was free active.
        save_table-IsSound (save_entry (seated_entry e t now) db) (record t { status = occupied })
          (rewrite-IsSound db j e (seated_entry e t now) s found refl (refl, refl, refl, refl)
            (λ fits. ground arith))

  pub no_show-IsSound :
      (entry_id : RawId) → IsSound (store_after db (no_show_entry db entry_id now))
  unfolding close_entry
  no_show-IsSound entry_id = no_show_cases IsSound db now entry_id s λ k e found was.
      release_held_table-IsSound (save_entry (closed_entry e no_show now) db) e.table_id (
        rewrite-IsSound db k e (closed_entry e no_show now) s found refl (refl, refl, refl, refl)
          (λ fits. ground arith))

  pub cancel-IsSound : (entry_id : RawId) → IsSound (store_after db (cancel_entry db entry_id now))
  unfolding close_entry
  cancel-IsSound entry_id = cancel_cases IsSound db now entry_id s λ k e found was.
      release_held_table-IsSound (save_entry (closed_entry (staff_cancelled e) cancelled now) db)
        e.table_id
        (rewrite-IsSound db k e (closed_entry (staff_cancelled e) cancelled now) s found refl
          (refl, refl, refl, refl) (λ fits. ground arith))

  pub restore-IsSound :
      (entry_id : RawId) → IsSound (store_after db (restore_entry db entry_id now))
  restore-IsSound entry_id = restore_cases IsSound db now entry_id s λ k e found was.
      rewrite-IsSound db k e (restored_entry e now) s found refl (refl, refl, refl, refl)
        (λ fits. ground arith)

  pub revert-IsSound : (entry_id : RawId) → IsSound (store_after db (revert_entry db entry_id now))
  revert-IsSound entry_id = revert_cases IsSound db now entry_id s λ k e found was.
      rewrite-IsSound db k e (reverted_entry e now) s found refl (refl, refl, refl, refl)
        (λ fits. ground arith)

  pub edit-IsSound :
      (entry_id : RawId) (fields : EditFields)
      → IsSound (store_after db (edit_entry db entry_id fields now))
  edit-IsSound entry_id fields = edit_cases IsSound db now entry_id fields s λ k e found was.
      rewrite-IsSound db k e (edited_entry e fields now) s found refl (refl, refl, refl, refl)
        (λ fits. ground arith)

-- Of the rows that can be closed, only a SEATED one holds a table.
held_is_seated :
    (e : WaitlistEntry)
    → status_in e.status no_show_statuses ≡ true
    → IsConsistent e
    → is_some e.table_id ≡ true
    → e.status ≡ seated
held_is_seated e was fits held = ground arith

-- A close frees the table of a SEATED row, and touches no table for another.
close-IsSeated :
    (db : Db) (k : ℕ) (e new : WaitlistEntry)
    → IsSound db
    → IsSeated db
    → find_entry k db ≡ some e
    → status_in e.status no_show_statuses ≡ true
    → new.id ≡ e.id
    → new.status ≢ seated
    → IsSeated (release_held_table (save_entry new db) e.table_id)
unfolding release_held_table
close-IsSeated db k e new s p found was same_id up =
    let m = get_row-In entry_key k db.entries e found in
    elim (Option-cases e.table_id) [
      | inl free ↦ rw (free, release_held_table) (save_entry-IsSeated db new p up)
      | inr (j, held) ↦ elim (Option-cases (find_table j db)) [
        | inl gone ↦
            rw (held, release_held_table)
              (rw (gone, release_held_table) (save_entry-IsSeated db new p up))
        | inr (t, there) ↦
            rw (held, release_held_table)
              (rw (there, release_held_table)
                (unseat-IsSeated db e new t p m (held_is_seated e was (s.rows e m) (rw held))
                  (held ∙ ap some (sym (key-get_row table_key j db.tables t there))) same_id up))
      ]
    ]

module _ (db : Db) (now : Instant) (s : IsSound db) (p : IsSeated db) where
  pub call-IsSeated : (entry_id : RawId) → IsSeated (store_after db (call_entry db entry_id now))
  call-IsSeated entry_id =
      call_cases IsSeated db now entry_id p
        λ k minutes e found was. save_entry-IsSeated db (called_entry e minutes now) p (λ h. cc)

  pub seat-keeps-IsSeated :
      (entry_id table_id : RawId) → IsSeated (store_after db (seat_entry db entry_id table_id now))
  seat-keeps-IsSeated entry_id table_id =
      seat_cases IsSeated db now entry_id table_id p λ j k e t found held was free active.
        seat-IsSeated db (seated_entry e t now) t p refl (get_row_key table_key k db.tables t held)
          free

  pub no_show-IsSeated :
      (entry_id : RawId) → IsSeated (store_after db (no_show_entry db entry_id now))
  unfolding close_entry
  no_show-IsSeated entry_id = no_show_cases IsSeated db now entry_id p λ k e found was.
      close-IsSeated db k e (closed_entry e no_show now) s p found was refl (λ h. cc)

  pub cancel-IsSeated :
      (entry_id : RawId) → IsSeated (store_after db (cancel_entry db entry_id now))
  unfolding close_entry
  cancel-IsSeated entry_id = cancel_cases IsSeated db now entry_id p λ k e found was.
      close-IsSeated db k e (closed_entry (staff_cancelled e) cancelled now) s p found was refl
        (λ h. cc)

  pub restore-IsSeated :
      (entry_id : RawId) → IsSeated (store_after db (restore_entry db entry_id now))
  restore-IsSeated entry_id =
      restore_cases IsSeated db now entry_id p
        λ k e found was. save_entry-IsSeated db (restored_entry e now) p (λ h. cc)

  pub revert-IsSeated :
      (entry_id : RawId) → IsSeated (store_after db (revert_entry db entry_id now))
  revert-IsSeated entry_id =
      revert_cases IsSeated db now entry_id p
        λ k e found was. save_entry-IsSeated db (reverted_entry e now) p (λ h. cc)

  pub edit-IsSeated :
      (entry_id : RawId) (fields : EditFields)
      → IsSeated (store_after db (edit_entry db entry_id fields now))
  edit-IsSeated entry_id fields =
      edit_cases IsSeated db now entry_id fields p
        λ k e found was. save_entry-IsSeated db (edited_entry e fields now) p (ground arith)
