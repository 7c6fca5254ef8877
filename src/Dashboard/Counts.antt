-- ===== src/Dashboard/Counts.antt =====
-- What the dashboard of backend/app/services/dashboard.py counts, and what its read writes.
use mathlib.Core.Path.{fun_ext}
use table_queue.Common.{
  ℕ, sym, ◌≡◌, refl, ap, ◌∙◌, inl, inr, Bool, true, false, ◌&&◌, Option, none, some, List, [], ◌∷◌,
  map, arith, Option-cases, Bool-cases, keep, length, if◌then◌else◌, Text, ◌==◌,
}
use table_queue.Common.Int.{ℤ}
use table_queue.Models.{
  Branch, WaitlistEntry, WaitlistStatus, TableStatus, Instant, waiting, called, seated, no_show,
  cancelled, available, occupied, cleaning, status_is, table_status_is,
}
use table_queue.Store.{
  In, In-keep_of, Db, Distinct, entry_key, save_entry, rewrite_rows, rewrite_rows-keep, count,
  count-order_by,
}
use table_queue.Waitlist.Dates.{Env}
use table_queue.Waitlist.Status.{is_lapsed, lapsed_entry, apply_lazy_no_show}
use table_queue.StaffWaitlist.Listing.Sweep.{keep-keep}
use table_queue.Tables.Admin.{list_tables}
use table_queue.Dashboard.{
  DashboardPayload, branch_for_read, read_day, collect, payload_for, tally, table_tally, day_rows,
  is_day_row, expired_called_rows, is_expired, is_called, flip_rows, apply_lazy_no_show_for_branch,
}

-- A row that the dashboard takes for expired has lapsed.
expired_row :
    (now : Instant) (e : WaitlistEntry) (rows : List WaitlistEntry)
    → In e (keep (is_expired now) (keep is_called rows))
    → is_lapsed e now ≡ true
unfolding is_expired is_lapsed
expired_row now e rows m =
    let (n, past) = In-keep_of (is_expired now) (keep is_called rows) e m in
    let (_, calls) = In-keep_of is_called rows e n in rw (calls, past) refl

-- The loop rewrites the rows that have lapsed.
flip_rows-eq :
    (db : Db) (rows : List WaitlistEntry) (now : Instant)
    → ((e : WaitlistEntry) → In e rows → is_lapsed e now ≡ true)
    → flip_rows db rows now
      ≡ record db { entries = rewrite_rows entry_key (λ e. lapsed_entry e now) rows db.entries }
unfolding flip_rows rewrite_rows apply_lazy_no_show
flip_rows-eq db [] now all = refl
flip_rows-eq db (e ∷ rows) now all =
    rw (all e (inl refl))
      (flip_rows-eq (save_entry (lapsed_entry e now) db) rows now (λ f m. all f (inr m)))

-- With distinct ids, the read of the dashboard rewrites exactly the rows of its branch and day
-- that are CALLED with a hold that has run out, each as a NO_SHOW closed now, and leaves every
-- other row.
pub apply_lazy_no_show_for_branch-exact :
    (db : Db) (branch_id : ℕ) (business_date : Text) (now : Instant)
    → Distinct entry_key db.entries
    → apply_lazy_no_show_for_branch db branch_id business_date now ≡ record db {
      entries =
          map
            (λ e.
              if is_day_row branch_id business_date e && is_lapsed e now
              then lapsed_entry e now
              else e)
            db.entries;
    }
unfolding apply_lazy_no_show_for_branch expired_called_rows day_rows is_expired is_lapsed
apply_lazy_no_show_for_branch-exact db branch_id business_date now d =
    let called_rows = keep is_called (day_rows db branch_id business_date) in
    flip_rows-eq db (keep (is_expired now) called_rows) now
      (λ e m. expired_row now e (day_rows db branch_id business_date) m)
    ∙ ap
        (λ rows. record db {
          entries = rewrite_rows entry_key (λ e. lapsed_entry e now) rows db.entries;
        })
        (keep-keep (is_expired now) is_called (day_rows db branch_id business_date)
          ∙ keep-keep (λ e. is_lapsed e now) (is_day_row branch_id business_date) db.entries)
    ∙ ap (λ rows. record db { entries = rows })
        (rewrite_rows-keep entry_key (λ e. lapsed_entry e now) (λ e. refl)
          (λ e. is_day_row branch_id business_date e && is_lapsed e now) [] db.entries d)

tables-flip_rows :
    (db : Db) (rows : List WaitlistEntry) (now : Instant)
    → (flip_rows db rows now).tables ≡ db.tables
unfolding flip_rows apply_lazy_no_show
tables-flip_rows db [] now = refl
tables-flip_rows db (e ∷ rows) now = elim (Bool-cases (is_lapsed e now)) [
  | inl hit ↦ rw (hit, flip_rows) (tables-flip_rows (save_entry (lapsed_entry e now) db) rows now)
  | inr miss ↦ rw (miss, flip_rows) (tables-flip_rows db rows now)
]

count-map_rows :
    (p : WaitlistEntry → Bool) (f : WaitlistEntry → WaitlistEntry) (es : List WaitlistEntry)
    → count p (map f es) ≡ count (λ e. p (f e)) es
unfolding count
count-map_rows p f [] = refl
count-map_rows p f (e ∷ es) = ground (arith, count-map_rows p f es)

-- A test of the kept rows.
count-keep_and :
    {A : Type 0} (p q : A → Bool) (xs : List A)
    → length (keep q (keep p xs)) ≡ count (λ x. p x && q x) xs
unfolding count
count-keep_and p q xs = ap length (keep-keep q p xs)

-- The status of a row, a call whose hold has run out taken for a NO_SHOW.
abbrev pub status_at : Instant → WaitlistEntry → WaitlistStatus
status_at now e = if is_lapsed e now then no_show else e.status

swept_row :
    (branch_id : ℕ) (today : Text) (now : Instant) (s : WaitlistStatus) (e : WaitlistEntry)
    → (let e' = if is_day_row branch_id today e && is_lapsed e now then lapsed_entry e now else e in
        is_day_row branch_id today e' && status_is e'.status s)
      ≡ (is_day_row branch_id today e && status_is (status_at now e) s)
swept_row branch_id today now s e = elim (Bool-cases (is_day_row branch_id today e)) [
  | inr other ↦ ground arith
  | inl here ↦ elim (Bool-cases (is_lapsed e now)) [
    | inl lapsed ↦ rw (here, lapsed) (rw here refl)
    | inr stands ↦ rw (here, stands) (rw here refl)
  ]
]

-- A tally after the sweep, over the rows before it.
tally-swept :
    (db : Db) (branch_id : ℕ) (today : Text) (now : Instant) (s : WaitlistStatus)
    → Distinct entry_key db.entries
    → tally (day_rows (apply_lazy_no_show_for_branch db branch_id today now) branch_id today) s
      ≡ count (λ e. is_day_row branch_id today e && status_is (status_at now e) s) db.entries
unfolding tally day_rows
tally-swept db branch_id today now s d =
    rw (apply_lazy_no_show_for_branch-exact db branch_id today now d) (
      count-keep_and (is_day_row branch_id today) (λ e. status_is e.status s) _
      ∙ count-map_rows (λ e. is_day_row branch_id today e && status_is e.status s) _ db.entries
      ∙ ap (λ p. count p db.entries) (fun_ext (swept_row branch_id today now s)))

-- A tally of the tables of the staff list, over the stored tables.
table_tally-listed :
    (env : Env) (db : Db) (s : TableStatus)
    → table_tally (list_tables env db false) s
      ≡ count
          (λ t. (t.branch_id == env.default_branch_id && t.is_active) && table_status_is t.status s)
          db.tables
unfolding table_tally list_tables count
table_tally-listed env db s =
    count-order_by _ (λ t. table_status_is t.status s) _
    ∙ count-keep_and (λ t. t.branch_id == env.default_branch_id && t.is_active)
        (λ t. table_status_is t.status s) db.tables

-- The row is of this branch and the day that the dashboard reads for it.
abbrev pub is_row_for : Env → Db → Instant → Option Branch → WaitlistEntry → Bool
is_row_for env db now none e = false
is_row_for env db now (some branch) e = is_day_row branch.id (read_day env db branch now) e

abbrev pub entries_at : Env → Db → Instant → Option Branch → WaitlistStatus → ℕ
entries_at env db now read s =
    count (λ e. is_row_for env db now read e && status_is (status_at now e) s) db.entries

abbrev pub shown_tables : Env → Db → TableStatus → ℕ
shown_tables env db s =
    count (λ t. (t.branch_id == env.default_branch_id && t.is_active) && table_status_is t.status s)
      db.tables

-- Each counter of a payload, over the rows stored before the read.
abbrev pub Counts : Env → Db → Instant → Option Branch → DashboardPayload → Type 0
Counts env db now read p =
    (p.waiting_count ≡ entries_at env db now read waiting)
    × (p.called_count ≡ entries_at env db now read called)
    × (p.seated_count ≡ entries_at env db now read seated)
    × (p.no_show_today ≡ entries_at env db now read no_show)
    × (p.cancelled_today ≡ entries_at env db now read cancelled)
    × (p.seated_today ≡ entries_at env db now read seated)
    × (p.available_table_count ≡ shown_tables env db available)
    × (p.occupied_table_count ≡ shown_tables env db occupied)
    × (p.cleaning_table_count ≡ shown_tables env db cleaning)

payload_for-Counts :
    (env : Env) (db db' : Db) (now : Instant) (read : Option Branch) (rows : List WaitlistEntry)
    (average : Option ℤ)
    → db'.tables ≡ db.tables
    → ((s : WaitlistStatus) → tally rows s ≡ entries_at env db now read s)
    → Counts env db now read (payload_for env db' rows average)
unfolding payload_for
payload_for-Counts env db db' now read rows average same counted = (
  counted waiting,
  counted called,
  counted seated,
  counted no_show,
  counted cancelled,
  counted seated,
  tables available,
  tables occupied,
  tables cleaning,
)
  where
    tables : (s : TableStatus) → table_tally (list_tables env db' false) s ≡ shown_tables env db s
    tables s =
        table_tally-listed env db' s
        ∙ ap (λ ts. shown_tables env (record db { tables = ts }) s) same

count-never : (es : List WaitlistEntry) → count (λ e. false) es ≡ 0
unfolding count
count-never [] = refl
count-never (e ∷ es) = count-never es

-- With distinct ids, the dashboard counts the stored rows of its branch and day by their status,
-- where a call whose hold has run out counts for a NO_SHOW and no longer for a call, and the
-- active tables of the default branch by theirs; with no branch it counts no row.
pub collect-Counts :
    (env : Env) (db : Db) (now : Instant)
    → Distinct entry_key db.entries
    → Counts env db now (branch_for_read env db) (collect env db now).1
unfolding collect apply_lazy_no_show_for_branch tally
collect-Counts env db now d = elim (Option-cases (branch_for_read env db)) [
  | inl missing ↦
      rw (missing, collect)
        (payload_for-Counts env db db now none [] none refl (λ s. sym (count-never db.entries)))
  | inr (branch, found) ↦
      let today = read_day env db branch now in
      rw (found, collect)
        (payload_for-Counts env db (apply_lazy_no_show_for_branch db branch.id today now) now
          (some branch) _ _ (tables-flip_rows db (expired_called_rows db branch.id today now) now)
          (λ s. tally-swept db branch.id today now s d))
]
