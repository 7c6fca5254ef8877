-- ===== src/StaffWaitlist/Listing/Sweep.antt =====
-- What the no-show sweep of backend/app/services/staff_waitlist.py writes.
use table_queue.Common.{
  ℕ, zero, suc, ◌-◌, ◌/◌, ◌≤◌, ◌≡◌, refl, ap, ◌∙◌, inl, inr, Bool, true, ◌&&◌, List, [], ◌∷◌, map,
  arith, leb, if◌then◌else◌, keep, Bool-cases, Option-cases,
}
use table_queue.Common.Int.{neg_ℕ, is_nonpositive}
use table_queue.Models.{WaitlistEntry, Instant}
use table_queue.Store.{Db, Distinct, entry_key, save_entry, rewrite_rows, rewrite_rows-keep}
use table_queue.Waitlist.Dates.{Env, second}
use table_queue.Waitlist.Status.{
  remaining_seconds, is_lapsed, lapsed_entry, apply_lazy_no_show, hold_deadline, whole_seconds,
}
use table_queue.StaffWaitlist.Listing.{sweep_rows, sweep_expired, is_out_of_time, is_called_here}

nonpositive-neg_ℕ : (n : ℕ) → is_nonpositive (neg_ℕ n) ≡ true
nonpositive-neg_ℕ zero = refl
nonpositive-neg_ℕ (suc n) = refl

whole_seconds-nonpositive :
    (deadline now : Instant) → deadline ≤ now → is_nonpositive (whole_seconds deadline now) ≡ true
unfolding whole_seconds
whole_seconds-nonpositive deadline now h = elim (Bool-cases (leb now deadline)) [
  | inl early ↦
      let none_left : (deadline - now) / second ≡ 0 = omega arith in rw (early, none_left) refl
  | inr late ↦ rw late (nonpositive-neg_ℕ ((now - deadline) / second))
]

-- The sweep looks at every row whose hold has run out.
lapsed_is_out_of_time :
    (e : WaitlistEntry) (now : Instant)
    → is_lapsed e now ≡ true
    → is_out_of_time (remaining_seconds e now) ≡ true
unfolding is_lapsed remaining_seconds
lapsed_is_out_of_time e now h =
    elim (Option-cases (hold_deadline e.hold_minutes_snapshot e.called_at)) [
      | inl unset ↦ ground arith
      | inr (deadline, set) ↦ ground (arith, whole_seconds-nonpositive deadline now)
    ]

-- The loop rewrites the rows that have lapsed, and those only.
sweep_rows-eq :
    (db : Db) (rows : List WaitlistEntry) (now : Instant)
    → sweep_rows db rows now ≡ record db {
      entries =
          rewrite_rows entry_key
            (λ e. lapsed_entry e now)
            (keep (λ e. is_lapsed e now) rows)
            db.entries;
    }
unfolding sweep_rows rewrite_rows apply_lazy_no_show
sweep_rows-eq db [] now = refl
sweep_rows-eq db (e ∷ rows) now = elim (Bool-cases (is_lapsed e now)) [
  | inl lapsed ↦
      rw (lapsed, lapsed_is_out_of_time e now lapsed)
        (sweep_rows-eq (save_entry (lapsed_entry e now) db) rows now)
  | inr live ↦ elim (Bool-cases (is_out_of_time (remaining_seconds e now))) [
    | inl out ↦ rw (live, out) (sweep_rows-eq db rows now)
    | inr within ↦ rw (live, within) (sweep_rows-eq db rows now)
  ]
]

pub keep-keep :
    {A : Type 0} (p q : A → Bool) (xs : List A) → keep p (keep q xs) ≡ keep (λ x. q x && p x) xs
keep-keep p q [] = refl
keep-keep p q (x ∷ xs) = elim (Bool-cases (q x)) [
  | inl yes_q ↦ elim (Bool-cases (p x)) [
    | inl yes_p ↦ rw (yes_q, yes_p) (ap (◌∷◌ x) (keep-keep p q xs))
    | inr no_p ↦ rw (yes_q, no_p) (keep-keep p q xs)
  ]
  | inr no_q ↦ rw no_q (keep-keep p q xs)
]

-- A CALLED row of the branch whose hold has run out.
abbrev pub is_swept : Env → Instant → WaitlistEntry → Bool
is_swept env now e = is_called_here env e && is_lapsed e now

-- With distinct ids, the sweep of the staff list rewrites exactly the CALLED rows of the branch
-- whose hold has run out, each as a NO_SHOW closed now, and leaves every other row.
pub sweep_expired-exact :
    (env : Env) (db : Db) (now : Instant)
    → Distinct entry_key db.entries
    → sweep_expired env db now ≡ record db {
      entries = map (λ e. if is_swept env now e then lapsed_entry e now else e) db.entries;
    }
unfolding sweep_expired
sweep_expired-exact env db now d =
    sweep_rows-eq db (keep (is_called_here env) db.entries) now
    ∙ ap
        (λ rows. record db {
          entries = rewrite_rows entry_key (λ e. lapsed_entry e now) rows db.entries;
        })
        (keep-keep (λ e. is_lapsed e now) (is_called_here env) db.entries)
    ∙ ap (λ rows. record db { entries = rows })
        (rewrite_rows-keep entry_key (λ e. lapsed_entry e now) (λ e. refl) (is_swept env now) []
          db.entries d)
