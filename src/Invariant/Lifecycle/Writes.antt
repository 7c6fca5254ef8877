-- ===== src/Invariant/Lifecycle/Writes.antt =====
-- The writes that requests are made of, as moves.
use table_queue.Common.{
  ℕ, ◌≡◌, refl, sym, ◌∙◌, ◌⊎◌, inl, inr, Bool, true, false, Option, none, some, List, [], ◌∷◌, ◌++◌,
  map, Option-cases, ap, Bool-cases, ◌==◌, ==_iff,
}
use table_queue.Models.{
  WaitlistEntry, WaitlistStatus, waiting, called, seated, done, no_show, cancelled, status_in,
}
use table_queue.Store.{
  Db, In, entry_key, find_entry, find_table, save_entry, In-put_row, In-map_of, In-map, put_row,
  In-append_one, In-append_left,
}
use table_queue.Waitlist.Statuses.{cancelable_statuses, active_statuses}
use table_queue.StaffWaitlist.Filter.{no_show_statuses, cancellable_by_staff_statuses}
use table_queue.StaffWaitlist.Actions.{release_held_table}
use table_queue.Invariant.Lifecycle.Moves.{
  Moves, Follows, stays, calls, seats_waiting, seats_called, finishes, loses_waiting, loses_called,
  loses_seated, drops_waiting, drops_called, drops_seated, restores, reverts,
}

pub unchanged : {m : Bool} (db : Db) → Follows m db db
unchanged db = (λ e m. inl (e, m, refl, stays), λ e m. (e, m, refl))

-- A write leaves a row under every id.
remains_put :
    (new e : WaitlistEntry) (xs : List WaitlistEntry)
    → In e xs
    → (e' : WaitlistEntry) × In e' (put_row entry_key new xs) × (e'.id ≡ e.id)
unfolding put_row
remains_put new e [] m = absurd m
remains_put new e (x ∷ xs) (inl p) = elim (Bool-cases (x.id == new.id)) [
  | inl hit ↦ (new, rw hit (inl refl), sym ((==_iff x.id new.id).0 hit) ∙ ap entry_key (sym p))
  | inr miss ↦ (x, rw miss (inl refl), ap entry_key (sym p))
]
remains_put new e (x ∷ xs) (inr m) = let (e', n, p) = remains_put new e xs m in (e', inr n, p)

-- One row joins.
pub append-Follows :
    {m : Bool} (db : Db) (new : WaitlistEntry)
    → new.status ≡ waiting
    → find_entry new.id db ≡ none
    → Follows m db (record db { entries = db.entries ++ new ∷ [] })
append-Follows db new waits fresh = (
  λ e' m. elim (In-append_one new e' db.entries m) [
    | inl p ↦ rw p (inr (waits, fresh))
    | inr n ↦ inl (e', n, refl, stays)
  ],
  λ e m. (e, In-append_left new e db.entries m, refl),
)

-- One row moves.
pub save_entry-Follows :
    {m : Bool} (db : Db) (old new : WaitlistEntry)
    → In old db.entries
    → new.id ≡ old.id
    → Moves m old.status new.status
    → Follows m db (save_entry new db)
save_entry-Follows db old new m same_id move = (
  λ e' n. elim (In-put_row entry_key new e' db.entries n) [
    | inl p ↦ rw p (inl (old, m, sym same_id, move))
    | inr (n', _) ↦ inl (e', n', refl, stays)
  ],
  λ e n. remains_put new e db.entries n,
)

-- A row is written with the status it has.
pub save_same-Follows :
    {m : Bool} (db db' : Db) (old new : WaitlistEntry)
    → Follows m db db'
    → In old db'.entries
    → new.id ≡ old.id
    → new.status ≡ old.status
    → Follows m db (save_entry new db')
save_same-Follows db db' old new f m same_id same_status = (
  λ e' n. elim (In-put_row entry_key new e' db'.entries n) [
    | inl p ↦ rw p (rw (same_id, same_status) (f.0 old m))
    | inr (n', _) ↦ f.0 e' n'
  ],
  λ e n.
      let (e1, n1, p1) = f.1 e n in
      let (e2, n2, p2) = remains_put new e1 db'.entries n1 in (e2, n2, p2 ∙ p1),
)

pub release_held_table-Follows :
    {m : Bool} (db db' : Db) (held : Option ℕ)
    → Follows m db db'
    → Follows m db (release_held_table db' held)
unfolding release_held_table
release_held_table-Follows db db' none f = f
release_held_table-Follows db db' (some k) f = elim (Option-cases (find_table k db')) [
  | inl gone ↦ rw (gone, release_held_table) f
  | inr (t, found) ↦ rw (found, release_held_table) f
]

-- Every row moves.
pub map-Follows :
    {m : Bool} (db db' : Db) (f : WaitlistEntry → WaitlistEntry)
    → db'.entries ≡ map f db.entries
    → ((e : WaitlistEntry) → (f e).id ≡ e.id)
    → ((e : WaitlistEntry) → Moves m e.status (f e).status)
    → Follows m db db'
map-Follows db db' f written ids moves = (
  λ e' m.
      let (e, n, p) = In-map_of f db.entries e' (rw written at m) in
      rw p (inl (e, n, sym (ids e), moves e)),
  λ e m. (f e, rw written (In-map f db.entries e m), ids e),
)

-- Which moves the tests of the rules admit.
pub loses : (s : WaitlistStatus) → status_in s no_show_statuses ≡ true → Moves true s no_show
loses waiting h = loses_waiting
loses called h = loses_called
loses seated h = loses_seated
loses done h = cc
loses no_show h = cc
loses cancelled h = cc

pub lapses : (s : WaitlistStatus) → s ≡ called → Moves false s no_show
lapses s h = rw h loses_called

pub drops_by_staff :
    (s : WaitlistStatus)
    → status_in s cancellable_by_staff_statuses ≡ true
    → Moves false s cancelled
drops_by_staff waiting h = drops_waiting
drops_by_staff called h = drops_called
drops_by_staff seated h = drops_seated
drops_by_staff done h = cc
drops_by_staff no_show h = cc
drops_by_staff cancelled h = cc

pub drops_by_guest :
    (s : WaitlistStatus) → status_in s cancelable_statuses ≡ true → Moves false s cancelled
drops_by_guest waiting h = drops_waiting
drops_by_guest called h = drops_called
drops_by_guest seated h = cc
drops_by_guest done h = cc
drops_by_guest no_show h = cc
drops_by_guest cancelled h = cc

pub drops_at_close :
    (s : WaitlistStatus) → status_in s active_statuses ≡ true → Moves false s cancelled
drops_at_close waiting h = drops_waiting
drops_at_close called h = drops_called
drops_at_close seated h = drops_seated
drops_at_close done h = cc
drops_at_close no_show h = cc
drops_at_close cancelled h = cc

pub to_called : (s : WaitlistStatus) → s ≡ waiting → Moves false s called
to_called s h = rw h calls

pub to_seated : (s : WaitlistStatus) → (s ≡ waiting) ⊎ (s ≡ called) → Moves false s seated
to_seated s (inl h) = rw h seats_waiting
to_seated s (inr h) = rw h seats_called

pub to_done : (s : WaitlistStatus) → s ≡ seated → Moves false s done
to_done s h = rw h finishes

pub back_from : (s : WaitlistStatus) → (s ≡ no_show) ⊎ (s ≡ called) → Moves false s waiting
back_from s (inl h) = rw h restores
back_from s (inr h) = rw h reverts
