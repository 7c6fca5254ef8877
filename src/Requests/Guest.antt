-- ===== src/Requests/Guest.antt =====
-- What each guest request does to the store, by the ways it can end.
use table_queue.Common.{
  ℕ, ◌≡◌, inl, inr, true, none, some, [], ◌∷◌, ◌++◌, arith, Option-cases, Bool-cases, first, keep,
  ◌==◌, Text,
}
use table_queue.Models.{WaitlistEntry, Settings, Branch, Instant, status_in}
use table_queue.Errors.{ok}
use table_queue.Store.{Db, find_branch, save_entry, In, first-keep}
use table_queue.Requests.After.{store_after}
use table_queue.Waitlist.Statuses.{cancelable_statuses}
use table_queue.Waitlist.Phone.{normalize_phone}
use table_queue.Waitlist.Dates.{Env, business_date_for}
use table_queue.Waitlist.Lookup.{
  get_branch_or_404, get_settings_or_500, find_entry_by_token, has_token,
}
use table_queue.Waitlist.Join.{JoinRequest, joining_entry, join_waitlist, active_entry_for_phone}
use table_queue.Waitlist.Status.{is_lapsed, lapsed_entry, apply_lazy_no_show}
use table_queue.Waitlist.Cancel.{guest_cancelled_entry, cancel_entry}

module _ {ℓ} (P : Db → Type ℓ) (env : Env) (db : Db) (now : Instant) where
  pub join_cases :
      (branch_id : ℕ) (request : JoinRequest)
      → P db
      → ((branch : Branch) (settings : Settings)
          → let day = business_date_for env branch now in
            let entry = joining_entry db branch_id day settings.queue_prefix request now in
            find_branch branch_id db ≡ some branch
            → active_entry_for_phone db branch_id day (normalize_phone request.phone) ≡ none
            → P (record db { entries = db.entries ++ entry ∷ [] }))
      → P (store_after db (join_waitlist env db branch_id request now))
  unfolding join_waitlist get_branch_or_404 get_settings_or_500
  join_cases branch_id request kept added = elim (Option-cases (find_branch branch_id db)) [
    | inl missing ↦ ground arith
    | inr (branch, found) ↦
        elim (Option-cases (first (keep (λ s. s.branch_id == branch_id) db.settings))) [
          | inl unset ↦ ground arith
          | inr (settings, set) ↦ ground (arith, added branch settings)
        ]
  ]

  pub lazy_no_show_cases :
      (e : WaitlistEntry)
      → P db
      → (is_lapsed e now ≡ true → P (save_entry (lapsed_entry e now) db))
      → P (apply_lazy_no_show db e now).0
  unfolding apply_lazy_no_show
  lazy_no_show_cases e kept changed = elim (Bool-cases (is_lapsed e now)) [
    | inl h ↦ rw h (changed h)
    | inr h ↦ rw h kept
  ]

  pub guest_cancel_cases :
      (e : WaitlistEntry)
      → P db
      → (status_in e.status cancelable_statuses ≡ true
          → P (save_entry (guest_cancelled_entry e now) db))
      → P (store_after db (cancel_entry db e now))
  unfolding cancel_entry
  guest_cancel_cases e kept changed = ground (arith, changed)

-- A token finds a row of the store that carries the number and the token.
pub find_entry_by_token-ok :
    (db : Db) (queue_number token : Text) (e : WaitlistEntry)
    → find_entry_by_token db queue_number token ≡ ok e
    → In e db.entries × (has_token queue_number token e ≡ true)
unfolding find_entry_by_token
find_entry_by_token-ok db q t e h = elim (Option-cases (first (keep (has_token q t) db.entries))) [
  | inl missing ↦ ground arith
  | inr (f, found) ↦ ground (arith, first-keep (has_token q t) db.entries f found)
]

-- A second lazy no-show of an entry at the same clock changes nothing.
pub lazy_no_show-again :
    (db : Db) (e : WaitlistEntry) (now : Instant)
    → let (db', e') = apply_lazy_no_show db e now in apply_lazy_no_show db' e' now ≡ (db', e')
unfolding apply_lazy_no_show is_lapsed
lazy_no_show-again db e now = ground arith
