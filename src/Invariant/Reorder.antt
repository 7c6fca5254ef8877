-- ===== src/Invariant/Reorder.antt =====
-- The reorder keeps the invariants.
use table_queue.Common.{
  ℕ, ◌+◌, ◌≡◌, refl, List, [], ◌∷◌, arith, inl, inr, Option-cases, Bool-cases, ◌==◌,
}
use table_queue.Models.{
  WaitlistEntry, WaitlistStatus, Instant, waiting, called, seated, done, no_show, cancelled,
}
use table_queue.Store.{Db, entry_key, find_entry, get_row-In}
use table_queue.Waitlist.Dates.{Env}
use table_queue.StaffWaitlist.Reorder.{reorder, assign_positions, move_to, moved_entry}
use table_queue.Requests.After.{store_after}
use table_queue.Invariant.Defs.{Fits, IsConsistent, IsSound, SameNumber, IsSeated}
use table_queue.Invariant.Saves.{save_entry-IsSound, same_party-IsSeated}

-- The columns of a status do not include the position.
Fits-moved :
    (status : WaitlistStatus) (e : WaitlistEntry) (index : ℕ) (wall : Instant)
    → Fits status e
    → Fits status (record e { sort_order = index; updated_at = wall })
Fits-moved waiting e index wall h = h
Fits-moved called e index wall h = h
Fits-moved seated e index wall h = h
Fits-moved done e index wall h = h
Fits-moved no_show e index wall h = h
Fits-moved cancelled e index wall h = h

-- A move changes the position and the clock of a row, and nothing else.
pub moved_entry-keeps :
    (e : WaitlistEntry) (index : ℕ) (wall : Instant)
    → let m = moved_entry e index wall in
      (m.id ≡ e.id)
      × SameNumber m e
      × (m.status ≡ e.status)
      × (m.table_id ≡ e.table_id)
      × (IsConsistent e → IsConsistent m)
moved_entry-keeps e index wall = elim (Bool-cases (e.sort_order == index)) [
  | inl there ↦ rw there (refl, (refl, refl, refl, refl), refl, refl, λ h. h)
  | inr away ↦
      rw away (refl, (refl, refl, refl, refl), refl, refl, Fits-moved e.status e index wall)
]

move_to-IsSound :
    (db : Db) (k index : ℕ) (wall : Instant) → IsSound db → IsSound (move_to db k index wall)
unfolding move_to
move_to-IsSound db k index wall s = elim (Option-cases (find_entry k db)) [
  | inl missing ↦ rw (missing, move_to) s
  | inr (e, found) ↦
      let m = get_row-In entry_key k db.entries e found in
      let (same_id, same, _, _, fits) = moved_entry-keeps e index wall in
      rw (found, move_to)
        (save_entry-IsSound db e (moved_entry e index wall) s m same_id same (fits (s.rows e m)))
]

move_to-IsSeated :
    (db : Db) (k index : ℕ) (wall : Instant) → IsSeated db → IsSeated (move_to db k index wall)
unfolding move_to
move_to-IsSeated db k index wall p = elim (Option-cases (find_entry k db)) [
  | inl missing ↦ rw (missing, move_to) p
  | inr (e, found) ↦
      let m = get_row-In entry_key k db.entries e found in
      let (same_id, _, same_status, same_table, _) = moved_entry-keeps e index wall in
      rw (found, move_to)
        (same_party-IsSeated db e (moved_entry e index wall) p m same_id same_status same_table)
]

-- What every move keeps, the whole renumbering keeps.
assign_positions-keeps :
    (P : Db → Type 0) (wall : Instant)
    → ((db : Db) (k index : ℕ) → P db → P (move_to db k index wall))
    → (db : Db) (ks : List ℕ) (index : ℕ) → P db
    → P (assign_positions db ks index wall)
unfolding assign_positions
assign_positions-keeps P wall step db [] index h = h
assign_positions-keeps P wall step db (k ∷ ks) index h =
    assign_positions-keeps P wall step (move_to db k index wall) ks (index + 1) (step db k index h)

pub reorder-keeps :
    (P : Db → Type 0) (env : Env) (db : Db) (ids : List ℕ) (wall now : Instant)
    → ((db' : Db) (k index : ℕ) → P db' → P (move_to db' k index wall))
    → P db
    → P (store_after db (reorder env db ids wall now))
unfolding reorder
reorder-keeps P env db ids wall now step h =
    ground (arith, assign_positions-keeps P wall step db ids 1 h)

pub reorder-IsSound :
    (env : Env) (db : Db) (ids : List ℕ) (wall now : Instant)
    → IsSound db
    → IsSound (store_after db (reorder env db ids wall now))
reorder-IsSound env db ids wall now =
    reorder-keeps IsSound env db ids wall now (λ db' k index. move_to-IsSound db' k index wall)

pub reorder-IsSeated :
    (env : Env) (db : Db) (ids : List ℕ) (wall now : Instant)
    → IsSeated db
    → IsSeated (store_after db (reorder env db ids wall now))
reorder-IsSeated env db ids wall now =
    reorder-keeps IsSeated env db ids wall now (λ db' k index. move_to-IsSeated db' k index wall)
