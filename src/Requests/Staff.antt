-- ===== src/Requests/Staff.antt =====
-- What each staff action on an entry does to the store, by the ways it can end.
use table_queue.Common.{
  ℕ, ◌≡◌, ◌⊎◌, inl, inr, true, none, some, arith, Option-cases, first, keep, ◌==◌,
}
use table_queue.Models.{
  WaitlistEntry, Table, Instant, waiting, called, no_show, cancelled, occupied, available,
  status_in,
}
use table_queue.Store.{Db, find_entry, find_table, save_entry, save_table}
use table_queue.Requests.After.{store_after}
use table_queue.StaffWaitlist.Filter.{
  no_show_statuses, cancellable_by_staff_statuses, editable_statuses,
}
use table_queue.StaffWaitlist.Payload.{RawId, get_entry, hold_minutes_for, get_table_for_seat}
use table_queue.StaffWaitlist.Actions.{
  call_entry, called_entry, seat_entry, seated_entry, no_show_entry, close_entry, restore_entry,
  restored_entry, revert_entry, reverted_entry, cancel_entry, staff_cancelled, edit_entry,
  EditFields, edited_entry,
}

module _ {ℓ} (P : Db → Type ℓ) (db : Db) (now : Instant) where
  pub call_cases :
      (entry_id : RawId)
      → P db
      → ((k minutes : ℕ) (e : WaitlistEntry)
          → find_entry k db ≡ some e
          → e.status ≡ waiting
          → P (save_entry (called_entry e minutes now) db))
      → P (store_after db (call_entry db entry_id now))
  unfolding call_entry get_entry hold_minutes_for
  call_cases none kept changed = kept
  call_cases (some k) kept changed = elim (Option-cases (find_entry k db)) [
    | inl missing ↦ ground arith
    | inr (e, found) ↦
        elim (Option-cases (first (keep (λ s. s.branch_id == e.branch_id) db.settings))) [
          | inl unset ↦ ground arith
          | inr (row, set) ↦ ground (arith, changed k row.hold_minutes e)
        ]
  ]

  pub seat_cases :
      (entry_id table_id : RawId)
      → P db
      → ((j k : ℕ) (e : WaitlistEntry) (t : Table)
          → find_entry j db ≡ some e
          → find_table k db ≡ some t
          → (e.status ≡ waiting) ⊎ (e.status ≡ called)
          → t.status ≡ available
          → t.is_active ≡ true
          → P (save_table (record t { status = occupied }) (save_entry (seated_entry e t now) db)))
      → P (store_after db (seat_entry db entry_id table_id now))
  unfolding seat_entry get_entry get_table_for_seat
  seat_cases none table_id kept changed = kept
  seat_cases (some j) none kept changed = elim (Option-cases (find_entry j db)) [
    | inl missing ↦ ground arith
    | inr (e, found) ↦ ground arith
  ]
  seat_cases (some j) (some k) kept changed = elim (Option-cases (find_entry j db)) [
    | inl missing ↦ ground arith
    | inr (e, found) ↦ elim (Option-cases (find_table k db)) [
      | inl missing ↦ ground arith
      | inr (t, held) ↦ ground (arith, changed j k e t)
    ]
  ]

  pub no_show_cases :
      (entry_id : RawId)
      → P db
      → ((k : ℕ) (e : WaitlistEntry)
          → find_entry k db ≡ some e
          → status_in e.status no_show_statuses ≡ true
          → P (close_entry db e no_show now))
      → P (store_after db (no_show_entry db entry_id now))
  unfolding no_show_entry get_entry
  no_show_cases none kept changed = kept
  no_show_cases (some k) kept changed = elim (Option-cases (find_entry k db)) [
    | inl missing ↦ ground arith
    | inr (e, found) ↦ ground (arith, changed k e)
  ]

  pub restore_cases :
      (entry_id : RawId)
      → P db
      → ((k : ℕ) (e : WaitlistEntry)
          → find_entry k db ≡ some e
          → e.status ≡ no_show
          → P (save_entry (restored_entry e now) db))
      → P (store_after db (restore_entry db entry_id now))
  unfolding restore_entry get_entry
  restore_cases none kept changed = kept
  restore_cases (some k) kept changed = elim (Option-cases (find_entry k db)) [
    | inl missing ↦ ground arith
    | inr (e, found) ↦ ground (arith, changed k e)
  ]

  pub revert_cases :
      (entry_id : RawId)
      → P db
      → ((k : ℕ) (e : WaitlistEntry)
          → find_entry k db ≡ some e
          → e.status ≡ called
          → P (save_entry (reverted_entry e now) db))
      → P (store_after db (revert_entry db entry_id now))
  unfolding revert_entry get_entry
  revert_cases none kept changed = kept
  revert_cases (some k) kept changed = elim (Option-cases (find_entry k db)) [
    | inl missing ↦ ground arith
    | inr (e, found) ↦ ground (arith, changed k e)
  ]

  pub cancel_cases :
      (entry_id : RawId)
      → P db
      → ((k : ℕ) (e : WaitlistEntry)
          → find_entry k db ≡ some e
          → status_in e.status cancellable_by_staff_statuses ≡ true
          → P (close_entry db (staff_cancelled e) cancelled now))
      → P (store_after db (cancel_entry db entry_id now))
  unfolding cancel_entry get_entry
  cancel_cases none kept changed = kept
  cancel_cases (some k) kept changed = elim (Option-cases (find_entry k db)) [
    | inl missing ↦ ground arith
    | inr (e, found) ↦ ground (arith, changed k e)
  ]

  pub edit_cases :
      (entry_id : RawId) (fields : EditFields)
      → P db
      → ((k : ℕ) (e : WaitlistEntry)
          → find_entry k db ≡ some e
          → status_in e.status editable_statuses ≡ true
          → P (save_entry (edited_entry e fields now) db))
      → P (store_after db (edit_entry db entry_id fields now))
  unfolding edit_entry get_entry
  edit_cases none fields kept changed = kept
  edit_cases (some k) fields kept changed = elim (Option-cases (find_entry k db)) [
    | inl missing ↦ ground arith
    | inr (e, found) ↦ ground (arith, changed k e)
  ]
