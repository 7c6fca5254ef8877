-- ===== src/Requests/Day.antt =====
-- The close of a day, `_close_day` of backend/app/routers/staff_waitlist.py: what it counts, and
-- that a second close of the day finds nothing.
use table_queue.Common.{
  ℕ, ◌+◌, ◌≡◌, refl, ap, inl, inr, Bool, true, false, ◌&&◌, Option, none, some, List, [], ◌∷◌, map,
  arith, Bool-cases, keep, length, Text, text_eq, ◌==◌, if◌then◌else◌, any_of,
}
use table_queue.Models.{Branch, WaitlistEntry, Table, Instant, seated, cleaning, status_is}
use table_queue.Store.{Db, find_branch}
use table_queue.Waitlist.Dates.{Env, business_date_for}
use table_queue.StaffWaitlist.Listing.{queue_day, day_for, latest_day, has_rows_on}
use table_queue.StaffWaitlist.CloseDay.{is_closing, day_closed_entry, is_clearing, close_day}

abbrev closed_row : Env → Text → Instant → WaitlistEntry → WaitlistEntry
closed_row env day now e = if is_closing env day e then day_closed_entry e now else e

abbrev cleared_table : Env → Table → Table
cleared_table env t = if is_clearing env t then record t { status = cleaning } else t

split_count :
    {A : Type 0} (p : A → Bool) (xs : List A)
    → length (keep (λ x. if p x then false else true) xs) + length (keep p xs) ≡ length xs
split_count p [] = refl
split_count p (x ∷ xs) = ground (arith, split_count p xs)

-- The cancelled and the finished entries that a close counts are together the live rows of the
-- branch and day.
pub close_day-counts :
    (env : Env) (db : Db) (wall now : Instant)
    → let counts = (close_day env db wall now).1 in
      counts.cancelled + counts.done
      ≡ length (keep (is_closing env (queue_day env db wall)) db.entries)
unfolding close_day
close_day-counts env db wall now =
    split_count (λ e. status_is e.status seated)
      (keep (is_closing env (queue_day env db wall)) db.entries)

closed_is_closed :
    (env : Env) (day other : Text) (now : Instant) (e : WaitlistEntry)
    → is_closing env day (closed_row env day now e) ≡ false
closed_is_closed env day other now e = ground arith

cleared_is_clear : (env : Env) (t : Table) → is_clearing env (cleared_table env t) ≡ false
cleared_is_clear env t = ground arith

keep-map_none :
    {A : Type 0} (p : A → Bool) (f : A → A) (xs : List A)
    → ((x : A) → p (f x) ≡ false)
    → keep p (map f xs) ≡ []
keep-map_none p f [] h = refl
keep-map_none p f (x ∷ xs) h = rw (h x) (keep-map_none p f xs h)

-- A rewrite that moves no row to another branch or day leaves the days of the queue.
module _ (f : WaitlistEntry → WaitlistEntry)
    (branches : (e : WaitlistEntry) → (f e).branch_id ≡ e.branch_id)
    (dates : (e : WaitlistEntry) → (f e).business_date ≡ e.business_date) (b : ℕ) where
  days-map :
      (xs : List WaitlistEntry)
      → map (λ e. e.business_date) (keep (λ e. e.branch_id == b) (map f xs))
        ≡ map (λ e. e.business_date) (keep (λ e. e.branch_id == b) xs)
  days-map [] = refl
  days-map (x ∷ xs) = elim (Bool-cases (x.branch_id == b)) [
    | inl here ↦ rw (branches x, here) (rw (dates x) (ap (◌∷◌ x.business_date) (days-map xs)))
    | inr away ↦ rw (branches x, away) (days-map xs)
  ]

  has_rows-map :
      (d : Text) (xs : List WaitlistEntry)
      → any_of (λ e. e.branch_id == b && text_eq e.business_date d) (map f xs)
        ≡ any_of (λ e. e.branch_id == b && text_eq e.business_date d) xs
  has_rows-map d [] = refl
  has_rows-map d (x ∷ xs) = rw (branches x, dates x, has_rows-map d xs) refl

same_branch :
    (env : Env) (day : Text) (now : Instant) (e : WaitlistEntry)
    → (closed_row env day now e).branch_id ≡ e.branch_id
same_branch env day now e = ground arith

same_date :
    (env : Env) (day : Text) (now : Instant) (e : WaitlistEntry)
    → (closed_row env day now e).business_date ≡ e.business_date
same_date env day now e = ground arith

day_for-same :
    (env : Env) (branch : Option Branch) (latest latest' : Option Text) (has has' : Text → Bool)
    (now : Instant)
    → latest ≡ latest'
    → ((d : Text) → has d ≡ has' d)
    → day_for env branch latest has now ≡ day_for env branch latest' has' now
unfolding day_for
day_for-same env none latest latest' has has' now h k = rw h refl
day_for-same env (some branch) latest latest' has has' now h k =
    rw (h, k (business_date_for env branch now)) refl

queue_day-closed :
    (env : Env) (db : Db) (wall now : Instant)
    → queue_day env (close_day env db wall now).0 wall ≡ queue_day env db wall
unfolding queue_day close_day has_rows_on
queue_day-closed env db wall now =
    let d = queue_day env db wall in
    let f = closed_row env d now in
    let b = env.default_branch_id in
    day_for-same env (find_branch b db) _ _ _ _ wall
      (ap latest_day (days-map f (same_branch env d now) (same_date env d now) b db.entries))
      (λ x. has_rows-map f (same_branch env d now) (same_date env d now) b x db.entries)

-- A second close of the day, with the queue's clock unchanged, counts no cancelled entry, no
-- finished entry and no cleared table.
pub close_day-again :
    (env : Env) (db : Db) (wall now later : Instant)
    → (close_day env (close_day env db wall now).0 wall later).1
      ≡ record { cancelled = 0; done = 0; tables_cleaning = 0 }
unfolding close_day
close_day-again env db wall now later =
    let d = queue_day env db wall in
    rw
      (
        queue_day-closed env db wall now,
        keep-map_none (is_closing env d) (closed_row env d now) db.entries
            (closed_is_closed env d d now),
        keep-map_none (is_clearing env) (cleared_table env) db.tables (cleared_is_clear env),
      )
      refl
