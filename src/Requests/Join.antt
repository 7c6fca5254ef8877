-- ===== src/Requests/Join.antt =====
-- The rules of a join, `join_waitlist` of backend/app/services/waitlist.py: one live row per phone,
-- a new number, and a place behind everybody.
use table_queue.Common.{
  ℕ, ◌≡◌, ◌≢◌, refl, sym, ◌∙◌, ap, ◌⊎◌, inl, inr, Bool, true, false, ◌&&◌, none, some, List, [],
  ◌∷◌, ◌++◌, arith, Option-cases, Bool-cases, first, keep, length, Text, text_eq, text_eq_iff, ◌==◌,
  ==_iff, strip, digits_of-strip, digits_of-digits_of, digits_of,
}
use table_queue.Models.{WaitlistEntry, Branch, Settings, Instant, waiting, status_in, status_is}
use table_queue.Errors.{ok, err, app_error, waitlist_duplicate_phone, duplicate_of}
use table_queue.Store.{
  Db, In, Single, entry_key, find_branch, order_by, first-keep, first-keep-none, In-keep,
  In-order_by_of, In-order_by, In-keep_of, append-Single,
}
use table_queue.Waitlist.Statuses.{active_statuses}
use table_queue.Waitlist.Phone.{normalize_phone}
use table_queue.Waitlist.Dates.{Env, business_date_for}
use table_queue.Waitlist.Numbers.{lt-next_sort_order}
use table_queue.Waitlist.Lookup.{get_branch_or_404, get_settings_or_500}
use table_queue.Waitlist.Join.{
  JoinRequest, joining_entry, join_waitlist, active_entry_for_phone, is_live, oldest_first, or_else,
}
use table_queue.Waitlist.Status.{waiting_ahead, is_ahead}
use table_queue.Requests.After.{store_after}
use table_queue.Requests.Guest.{join_cases}

-- No live row of the branch and day has the phone.
no_live_row :
    (db : Db) (branch_id : ℕ) (day phone : Text) (e : WaitlistEntry)
    → active_entry_for_phone db branch_id day phone ≡ none
    → In e db.entries
    → is_live branch_id day e ≡ true
    → normalize_phone e.phone ≢ phone
unfolding active_entry_for_phone
no_live_row db b d phone e h m live same =
    let rows = keep (is_live b d) db.entries in
    let n = In-order_by_of oldest_first e rows (In-keep (is_live b d) db.entries e m live) in
    let off =
      first-keep-none (λ r. text_eq (normalize_phone r.phone) phone) (order_by oldest_first rows) e
        h n in
    ground (arith, (text_eq_iff (normalize_phone e.phone) phone).1)

-- The row that blocks a join is a live row of the branch and day with the phone.
blocking_row :
    (db : Db) (branch_id : ℕ) (day phone : Text) (e : WaitlistEntry)
    → active_entry_for_phone db branch_id day phone ≡ some e
    → In e db.entries × (is_live branch_id day e ≡ true) × (normalize_phone e.phone ≡ phone)
unfolding active_entry_for_phone
blocking_row db b d phone e h =
    let rows = keep (is_live b d) db.entries in
    let (n, same) =
      first-keep (λ r. text_eq (normalize_phone r.phone) phone) (order_by oldest_first rows) e h in
    let (m, live) = In-keep_of (is_live b d) db.entries e (In-order_by oldest_first e rows n) in
    (m, live, (text_eq_iff (normalize_phone e.phone) phone).0 same)

-- How a join at an open branch can end: refused for a live row with the phone, which the refusal
-- names; or, with no such row, a new row behind the others.
abbrev pub JoinCases : Env → Db → ℕ → JoinRequest → Instant → Text → Text → Type 0
JoinCases env db branch_id request now day prefix =
    ((e : WaitlistEntry) × In e db.entries
      × (is_live branch_id day e ≡ true)
      × (normalize_phone e.phone ≡ normalize_phone request.phone)
      × (join_waitlist env db branch_id request now
          ≡ err (app_error waitlist_duplicate_phone none (duplicate_of e.queue_number))))
    ⊎ (((e : WaitlistEntry)
          → In e db.entries
          → is_live branch_id day e ≡ true
          → normalize_phone e.phone ≢ normalize_phone request.phone)
        × (join_waitlist env db branch_id request now
            ≡ ok (
              record db {
                entries = db.entries ++ joining_entry db branch_id day prefix request now ∷ [];
              },
              joining_entry db branch_id day prefix request now,
            )))

-- At a known branch with settings and an open waitlist, a join is refused exactly when a live row
-- of the branch and business date has the same digits, and the refusal names that row; otherwise
-- it appends the new row.
pub join_waitlist-cases :
    (env : Env) (db : Db) (branch_id : ℕ) (request : JoinRequest) (now : Instant) (branch : Branch)
    (settings : Settings)
    → find_branch branch_id db ≡ some branch
    → first (keep (λ s. s.branch_id == branch_id) db.settings) ≡ some settings
    → settings.is_waitlist_open ≡ true
    → JoinCases env db branch_id request now
        (business_date_for env branch now)
        settings.queue_prefix
unfolding join_waitlist get_branch_or_404 get_settings_or_500
join_waitlist-cases env db branch_id request now branch settings found set open_ =
    let day = business_date_for env branch now in
    let phone = normalize_phone request.phone in
    elim (Option-cases (active_entry_for_phone db branch_id day phone)) [
      | inl free ↦
          inr ((λ e m live. no_live_row db branch_id day phone e free m live), ground arith)
      | inr (e, taken) ↦
          let (m, live, same) = blocking_row db branch_id day phone e taken in
          inl (e, m, live, same, ground arith)
    ]

-- Two live rows of one branch and day with one phone.
abbrev pub SharesPhone : WaitlistEntry → WaitlistEntry → Type 0
SharesPhone e f =
    (e.branch_id ≡ f.branch_id)
    × (e.business_date ≡ f.business_date)
    × (status_in e.status active_statuses ≡ true)
    × (status_in f.status active_statuses ≡ true)
    × (normalize_phone e.phone ≡ normalize_phone f.phone)

digits_of-or_else :
    (s other d : Text) → digits_of s ≡ d → digits_of other ≡ d → digits_of (or_else s other) ≡ d
unfolding or_else
digits_of-or_else [] other d h k = k
digits_of-or_else (c ∷ s) other d h k = h

-- The stored form of a phone has the digits of the typed one.
normalize_phone-stored :
    (phone : Text)
    → normalize_phone (or_else (strip phone) (normalize_phone phone)) ≡ normalize_phone phone
unfolding normalize_phone
normalize_phone-stored phone =
    digits_of-or_else (strip phone) (digits_of phone) (digits_of phone) (digits_of-strip phone)
      (digits_of-digits_of phone)

taken_phone :
    (db : Db) (branch_id : ℕ) (day : Text) (phone : Text) (f : WaitlistEntry)
    → active_entry_for_phone db branch_id day (normalize_phone phone) ≡ none
    → In f db.entries
    → f.branch_id ≡ branch_id
    → f.business_date ≡ day
    → status_in f.status active_statuses ≡ true
    → normalize_phone f.phone ≡ normalize_phone (or_else (strip phone) (normalize_phone phone))
    → ⊥
taken_phone db branch_id day phone f free m same_branch same_day live same =
    no_live_row db branch_id day (normalize_phone phone) f free m
      (ground (arith, (==_iff f.branch_id branch_id).1, (text_eq_iff f.business_date day).1))
      (same ∙ normalize_phone-stored phone)

-- If no two live entries of a branch and business date share a phone, none do after a join.
pub join-phones :
    (env : Env) (db : Db) (branch_id : ℕ) (request : JoinRequest) (now : Instant)
    → Single entry_key SharesPhone db.entries
    → Single entry_key SharesPhone
        (store_after db (join_waitlist env db branch_id request now)).entries
unfolding joining_entry
join-phones env db branch_id request now single =
    join_cases (λ d. Single entry_key SharesPhone d.entries) env db now branch_id request single
      λ branch settings found free.
        let day = business_date_for env branch now in
        let new = joining_entry db branch_id day settings.queue_prefix request now in
        append-Single entry_key SharesPhone new db.entries single
          (λ f n r.
            absurd (
              taken_phone db branch_id day request.phone f free n (sym r.0) (sym r.1) r.3
                (sym r.4)))
          (λ f n r. absurd (taken_phone db branch_id day request.phone f free n r.0 r.1 r.2 r.4))

keep-append_rejected :
    {A : Type 0} (test : A → Bool) (a : A) (xs : List A)
    → test a ≡ false
    → keep test (xs ++ a ∷ []) ≡ keep test xs
keep-append_rejected test a [] h = rw h refl
keep-append_rejected test a (x ∷ xs) h = elim (Bool-cases (test x)) [
  | inl hit ↦ rw hit (ap (◌∷◌ x) (keep-append_rejected test a xs h))
  | inr miss ↦ rw miss (keep-append_rejected test a xs h)
]

keep_same :
    {A : Type 0} (p q : A → Bool) (xs : List A)
    → ((a : A) → In a xs → p a ≡ q a)
    → keep p xs ≡ keep q xs
keep_same p q [] h = refl
keep_same p q (x ∷ xs) h = elim (Bool-cases (q x)) [
  | inl hit ↦ rw (h x (inl refl) ∙ hit, hit) (ap (◌∷◌ x) (keep_same p q xs (λ a m. h a (inr m))))
  | inr miss ↦ rw (h x (inl refl) ∙ miss, miss) (keep_same p q xs (λ a m. h a (inr m)))
]

-- A guest that has just joined waits behind as many rows as were WAITING at the branch on that
-- business date.
pub waiting_ahead-joined :
    (db : Db) (branch_id : ℕ) (day prefix : Text) (request : JoinRequest) (now : Instant)
    → let new = joining_entry db branch_id day prefix request now in
      waiting_ahead (record db { entries = db.entries ++ new ∷ [] }) new
      ≡ length (
          keep
            (λ e.
              e.branch_id == branch_id && text_eq e.business_date day && status_is e.status waiting)
            db.entries)
unfolding waiting_ahead joining_entry
waiting_ahead-joined db branch_id day prefix request now =
    let new = joining_entry db branch_id day prefix request now in
    ap length (
      keep-append_rejected (is_ahead new) new db.entries (ground arith)
      ∙ keep_same (is_ahead new)
          (λ e.
            e.branch_id == branch_id && text_eq e.business_date day && status_is e.status waiting)
          db.entries
          (λ e m.
            ground (arith, lt-next_sort_order db branch_id e m, (==_iff e.branch_id branch_id).0)))
