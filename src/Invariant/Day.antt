-- ===== src/Invariant/Day.antt =====
-- The no-show sweep and the close of a day keep the invariants.
use table_queue.Common.{
  Bool, inl, inr, Option-cases, ◌&&◌, ◌≡◌, ◌≢◌, sym, ◌∙◌, true, false, arith, if◌then◌else◌, map,
  Text, subst,
}
use table_queue.Models.{WaitlistEntry, Table, Instant, seated, cleaning}
use table_queue.Store.{Db, In, entry_key, table_key, map-Distinct, map-Single, map-Every, In-map_of}
use table_queue.Waitlist.Dates.{Env}
use table_queue.Waitlist.Status.{lapsed_entry, is_lapsed}
use table_queue.StaffWaitlist.Listing.{is_called_here, sweep_expired, queue_day}
use table_queue.Dashboard.{collect, branch_for_read, read_day, is_day_row}
use table_queue.Dashboard.Counts.{apply_lazy_no_show_for_branch-exact}
use table_queue.StaffWaitlist.Listing.Sweep.{is_swept, sweep_expired-exact}
use table_queue.StaffWaitlist.CloseDay.{close_day, is_closing, day_closed_entry, is_clearing}
use table_queue.Invariant.Defs.{IsConsistent, IsSound, SameNumber, IsSeated, SeatHeld, SharesTable}

-- A write that keeps every row's number and id, and what its status asks for.
rewrite_all-IsSound :
    (db : Db) (f : WaitlistEntry → WaitlistEntry)
    → IsSound db
    → ((e : WaitlistEntry) → (f e).id ≡ e.id)
    → ((e : WaitlistEntry) → SameNumber (f e) e)
    → ((e : WaitlistEntry) → IsConsistent e → IsConsistent (f e))
    → IsSound (record db { entries = map f db.entries })
rewrite_all-IsSound db f s ids same fits = record {
  entry_ids = map-Distinct entry_key f ids db.entries s.entry_ids;
  table_ids = s.table_ids;
  numbers =
      map-Single entry_key f ids SameNumber db.entries (λ a b r. ground (arith, same a, same b))
        s.numbers;
  rows = map-Every entry_key f IsConsistent db.entries fits s.rows;
}

-- A write that seats nobody.
rewrite_all-IsSeated :
    (db : Db) (f : WaitlistEntry → WaitlistEntry)
    → IsSeated db
    → ((e : WaitlistEntry) → (f e).id ≡ e.id)
    → ((e : WaitlistEntry)
        → (f e).status ≡ seated
        → (e.status ≡ seated) × ((f e).table_id ≡ e.table_id))
    → IsSeated (record db { entries = map f db.entries })
rewrite_all-IsSeated db f p ids sits = record {
  seats =
      map-Every entry_key f (SeatHeld db.tables) db.entries
        (λ e h up.
          let (was, at) = sits e up in
          let (k, t, here, there, full) = h was in (k, t, at ∙ here, there, full))
        p.seats;
  alone =
      map-Single entry_key f ids SharesTable db.entries (λ a b r. ground (arith, sits a, sits b))
        p.alone;
}

abbrev swept : (WaitlistEntry → Bool) → Instant → WaitlistEntry → WaitlistEntry
swept here now e = if here e && is_lapsed e now then lapsed_entry e now else e

swept_id :
    (here : WaitlistEntry → Bool) (now : Instant) (e : WaitlistEntry) → (swept here now e).id ≡ e.id
swept_id here now e = ground arith

swept_number :
    (here : WaitlistEntry → Bool) (now : Instant) (e : WaitlistEntry)
    → SameNumber (swept here now e) e
swept_number here now e = ground arith

swept_row :
    (here : WaitlistEntry → Bool) (now : Instant) (e : WaitlistEntry)
    → IsConsistent e
    → IsConsistent (swept here now e)
unfolding is_lapsed
swept_row here now e h = ground arith

abbrev cleared : Env → Table → Table
cleared env t = if is_clearing env t then record t { status = cleaning } else t

cleared_id : (env : Env) (t : Table) → (cleared env t).id ≡ t.id
cleared_id env t = ground arith

abbrev closed : Env → Text → Instant → WaitlistEntry → WaitlistEntry
closed env day now e = if is_closing env day e then day_closed_entry e now else e

closed_id :
    (env : Env) (day : Text) (now : Instant) (e : WaitlistEntry) → (closed env day now e).id ≡ e.id
closed_id env day now e = ground arith

closed_number :
    (env : Env) (day : Text) (now : Instant) (e : WaitlistEntry)
    → SameNumber (closed env day now e) e
closed_number env day now e = ground arith

closed_row :
    (env : Env) (day : Text) (now : Instant) (e : WaitlistEntry)
    → IsConsistent e
    → IsConsistent (closed env day now e)
closed_row env day now e h = ground arith

swept_none :
    (here : WaitlistEntry → Bool) (now : Instant) (a : WaitlistEntry)
    → (here (swept here now a) && is_lapsed (swept here now a) now) ≡ false
unfolding is_lapsed
swept_none here now a = ground arith

swept_seat :
    (here : WaitlistEntry → Bool) (now : Instant) (e : WaitlistEntry)
    → (swept here now e).status ≡ seated
    → (e.status ≡ seated) × ((swept here now e).table_id ≡ e.table_id)
swept_seat here now e h = ground arith

closed_is_up :
    (env : Env) (day : Text) (now : Instant) (e : WaitlistEntry)
    → (e.status ≡ seated → is_closing env day e ≡ true)
    → (closed env day now e).status ≢ seated
closed_is_up env day now e h up = ground arith

module _ (env : Env) (db : Db) (now : Instant) (s : IsSound db) where
  pub sweep_expired-IsSound : IsSound (sweep_expired env db now)
  sweep_expired-IsSound = subst IsSound (sym (sweep_expired-exact env db now s.entry_ids)) (
      rewrite_all-IsSound db (swept (is_called_here env) now) s (swept_id (is_called_here env) now)
        (swept_number (is_called_here env) now) (swept_row (is_called_here env) now))

  pub sweep_expired-IsSeated : IsSeated db → IsSeated (sweep_expired env db now)
  sweep_expired-IsSeated p = subst IsSeated (sym (sweep_expired-exact env db now s.entry_ids)) (
      rewrite_all-IsSeated db (swept (is_called_here env) now) p (swept_id (is_called_here env) now)
        (swept_seat (is_called_here env) now))

  -- No call of the branch outlives its hold.
  pub sweep_expired-none_left :
      (e : WaitlistEntry) → In e (sweep_expired env db now).entries → is_swept env now e ≡ false
  sweep_expired-none_left e m =
      let m' = subst (λ d. In e d.entries) (sweep_expired-exact env db now s.entry_ids) m in
      let (a, n, q) = In-map_of (swept (is_called_here env) now) db.entries e m' in
      rw q (swept_none (is_called_here env) now a)

  pub close_day-IsSound : (wall : Instant) → IsSound (close_day env db wall now).0
  unfolding close_day
  close_day-IsSound wall =
      let day = queue_day env db wall in
      let t =
        rewrite_all-IsSound db (closed env day now) s (closed_id env day now)
          (closed_number env day now) (closed_row env day now) in
      record {
        entry_ids = t.entry_ids;
        table_ids = map-Distinct table_key (cleared env) (cleared_id env) db.tables s.table_ids;
        numbers = t.numbers;
        rows = t.rows;
      }

  -- The close seats nobody, so with no party of another branch or day the seating is empty.
  pub close_day-seats_nobody :
      (wall : Instant)
      → ((e : WaitlistEntry)
          → In e db.entries
          → e.status ≡ seated
          → is_closing env (queue_day env db wall) e ≡ true)
      → (e : WaitlistEntry) → In e (close_day env db wall now).0.entries
      → e.status ≢ seated
  unfolding close_day
  close_day-seats_nobody wall all e m up =
      let day = queue_day env db wall in
      let (a, n, q) = In-map_of (closed env day now) db.entries e m in
      closed_is_up env day now a (all a n) (rw q at up)

  -- The dashboard's read lets the lapsed calls of one branch and day go.
  pub collect-IsSound : IsSound (collect env db now).0
  unfolding collect
  collect-IsSound = elim (Option-cases (branch_for_read env db)) [
    | inl missing ↦ rw (missing, collect) s
    | inr (branch, found) ↦
        let today = read_day env db branch now in
        rw (found, collect)
          (subst IsSound
            (sym (apply_lazy_no_show_for_branch-exact db branch.id today now s.entry_ids))
            (rewrite_all-IsSound db (swept (is_day_row branch.id today) now) s
              (swept_id (is_day_row branch.id today) now)
              (swept_number (is_day_row branch.id today) now)
              (swept_row (is_day_row branch.id today) now)))
  ]

  pub collect-IsSeated : IsSeated db → IsSeated (collect env db now).0
  unfolding collect
  collect-IsSeated p = elim (Option-cases (branch_for_read env db)) [
    | inl missing ↦ rw (missing, collect) p
    | inr (branch, found) ↦
        let today = read_day env db branch now in
        rw (found, collect)
          (subst IsSeated
            (sym (apply_lazy_no_show_for_branch-exact db branch.id today now s.entry_ids))
            (rewrite_all-IsSeated db (swept (is_day_row branch.id today) now) p
              (swept_id (is_day_row branch.id today) now)
              (swept_seat (is_day_row branch.id today) now)))
  ]
