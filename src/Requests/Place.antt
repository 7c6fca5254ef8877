-- ===== src/Requests/Place.antt =====
-- What a request's write does to the place of a party in the line.
use table_queue.Common.{
  ℕ, ◌≡◌, refl, ap, ◌∙◌, ◌⊎◌, inl, inr, Option, none, some, [], ◌∷◌, ◌++◌, true, false, Bool-cases,
  Option-cases, arith, Text,
}
use table_queue.Models.{
  WaitlistEntry, Instant, status_in, waiting, called, no_show, cancelled, occupied,
}
use table_queue.Store.{
  Db, Distinct, entry_key, find_entry, find_table, save_entry, save_table, key-get_row,
}
use table_queue.Waitlist.Dates.{Env}
use table_queue.Waitlist.Statuses.{active_statuses}
use table_queue.Waitlist.Numbers.{lt-next_sort_order, next_sort_order}
use table_queue.StaffWaitlist.Filter.{no_show_statuses, cancellable_by_staff_statuses}
use table_queue.StaffWaitlist.Payload.{get_entry}
use table_queue.StaffWaitlist.Actions.{
  no_show_entry, cancel_entry, close_entry, closed_entry, release_held_table, staff_cancelled,
}
use table_queue.StaffWaitlist.Listing.{is_listed}
use table_queue.Requests.After.{store_after, store_deleted}
use table_queue.Models.{Table, table_status_is}
use table_queue.Tables.Admin.{soft_delete_table}
use table_queue.Tables.Staff.{finish_party, done_entry}
use table_queue.Requests.Line.{
  line, without_id, line-save_same, line-save_gone, line-append, line-entries,
}
use table_queue.Requests.Steps.{no_show}
use table_queue.Requests.Moves.{TakesOut, LosesOne}

module _ (env : Env) (d : Text) (db : Db) (now : Instant)
    (distinct : Distinct entry_key db.entries) where
  -- Both rows are on the queue.
  both_listed :
      (e new : WaitlistEntry)
      → new.branch_id ≡ e.branch_id
      → new.business_date ≡ e.business_date
      → status_in e.status active_statuses ≡ true
      → status_in new.status active_statuses ≡ true
      → is_listed env active_statuses d none new ≡ is_listed env active_statuses d none e
  unfolding is_listed
  both_listed e new b day h k = rw (b, day, h, k) refl

  pub off_queue :
      (new : WaitlistEntry)
      → status_in new.status active_statuses ≡ false
      → is_listed env active_statuses d none new ≡ false
  unfolding is_listed
  off_queue new h = ground arith

  pub keeps_place :
      (k : ℕ) (e new : WaitlistEntry)
      → find_entry k db ≡ some e
      → (new.id ≡ e.id) × (new.sort_order ≡ e.sort_order) × (new.created_at ≡ e.created_at)
      → (new.branch_id ≡ e.branch_id) × (new.business_date ≡ e.business_date)
      → status_in e.status active_statuses ≡ true
      → status_in new.status active_statuses ≡ true
      → line env (save_entry new db) d ≡ line env db d
  keeps_place k e new found key day h was =
      line-save_same env d db k e new distinct found (rw (key.0, key.1, key.2) refl)
        (both_listed e new day.0 day.1 h was)

  held_entries :
      (entry : Db) (held : Option ℕ) → (release_held_table entry held).entries ≡ entry.entries
  unfolding release_held_table
  held_entries entry none = refl
  held_entries entry (some k) = elim (Option-cases (find_table k entry)) [
    | inl missing ↦ rw (missing, release_held_table) refl
    | inr (t, found) ↦ rw (found, release_held_table) refl
  ]

  takes_out :
      (k : ℕ) (e new : WaitlistEntry) (held : Option ℕ)
      → find_entry k db ≡ some e
      → new.id ≡ e.id
      → status_in new.status active_statuses ≡ false
      → line env (release_held_table (save_entry new db) held) d ≡ without_id k (line env db d)
  takes_out k e new held found same off =
      line-entries env d (release_held_table (save_entry new db) held) (save_entry new db)
        (held_entries (save_entry new db) held)
      ∙ line-save_gone env d db new (off_queue new off)
      ∙ ap (λ i. without_id i (line env db d)) (same ∙ key-get_row entry_key k db.entries e found)

  pub joined_line :
      (new : WaitlistEntry)
      → new.sort_order ≡ next_sort_order db new.branch_id
      → let after = record db { entries = db.entries ++ new ∷ [] } in
        (line env after d ≡ line env db d) ⊎ (line env after d ≡ line env db d ++ new.id ∷ [])
  joined_line new at =
      let appended =
        line-append env d db new
          (λ e m same. rw at (lt-next_sort_order db new.branch_id e m same)) in
      elim (Bool-cases (is_listed env active_statuses d none new)) [
        | inl on ↦ inr (appended ∙ rw on refl)
        | inr off ↦ inl (appended ∙ rw off refl)
      ]

  pub no_show_at :
      (k : ℕ)
      → TakesOut
          (some k)
          (line env db d)
          (line env (store_after db (no_show_entry db (some k) now)) d)
  unfolding no_show_entry get_entry close_entry
  no_show_at k = elim (Option-cases (find_entry k db)) [
    | inl missing ↦ rw missing (inl refl)
    | inr (e, found) ↦ elim (Bool-cases (status_in e.status no_show_statuses)) [
      | inl open_ ↦
          rw (found, open_)
            (inr (takes_out k e (closed_entry e no_show now) e.table_id found refl refl))
      | inr other ↦ rw (found, other) (inl refl)
    ]
  ]

  pub cancel_at :
      (k : ℕ)
      → TakesOut
          (some k)
          (line env db d)
          (line env (store_after db (cancel_entry db (some k) now)) d)
  unfolding cancel_entry get_entry close_entry
  cancel_at k = elim (Option-cases (find_entry k db)) [
    | inl missing ↦ rw missing (inl refl)
    | inr (e, found) ↦ elim (Bool-cases (status_in e.status cancellable_by_staff_statuses)) [
      | inl open_ ↦
          rw (found, open_)
            (inr (
              takes_out k e (closed_entry (staff_cancelled e) cancelled now) e.table_id found refl
                refl))
      | inr other ↦ rw (found, other) (inl refl)
    ]
  ]

  pub refused_no_show : line env (store_after db (no_show_entry db none now)) d ≡ line env db d
  unfolding no_show_entry get_entry
  refused_no_show = refl

  pub refused_cancel : line env (store_after db (cancel_entry db none now)) d ≡ line env db d
  unfolding cancel_entry get_entry
  refused_cancel = refl

  pub on_queue :
      (e : WaitlistEntry)
      → (e.status ≡ waiting) ⊎ (e.status ≡ called)
      → status_in e.status active_statuses ≡ true
  on_queue e (inl h) = rw h refl
  on_queue e (inr h) = rw h refl

  -- With distinct ids, the requests that act on one party move the line of a business date, the
  -- ids of the configured branch's active rows in queue order, as an abstract queue does: a join
  -- appends the new id or leaves the line, a call, a seat, a revert and an edit leave it, a no-
  -- show and a staff cancel take out the id of the request or leave the line, and a guest's cancel
  -- takes out one id or leaves it.
  pub deleted :
      (row : Table) → line env (store_deleted db (soft_delete_table db row)) d ≡ line env db d
  unfolding soft_delete_table
  deleted row = elim (Bool-cases (table_status_is row.status occupied)) [
    | inl full ↦ rw full refl
    | inr free ↦
        rw free (line-entries env d (save_table (record row { is_active = false }) db) db refl)
  ]

  pub finished :
      (freed : Db)
      → freed.entries ≡ db.entries
      → (party : Option WaitlistEntry)
      → LosesOne (line env db d) (line env (finish_party party now freed) d)
  unfolding finish_party
  finished freed same none = inl (line-entries env d freed db same)
  finished freed same (some e) = inr (
    e.id,
    line-save_gone env d freed (done_entry e now) (off_queue (done_entry e now) refl)
        ∙ ap (without_id e.id) (line-entries env d freed db same),
  )
