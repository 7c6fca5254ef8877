-- ===== src/Requests/Reorder.antt =====
-- The reorder of backend/app/services/staff_waitlist.py: the positions that it writes.
use table_queue.Common.{
  ℕ, ◌+◌, ◌≤◌, ◌≡◌, ◌≢◌, refl, sym, ◌∙◌, ap, subst, inl, inr, true, none, some, List, [], ◌∷◌, map,
  arith, Option-cases, Bool-cases, keep, ◌==◌, ==_iff, ==-self, leb, text_eq_iff,
}
use table_queue.Models.{WaitlistEntry, Instant}
use table_queue.Errors.{ok}
use table_queue.Store.{
  Db, In, Distinct, entry_key, find_entry, save_entry, order_by, In-order_by, In-order_by_of,
  In-map_of, count, count-order_by, count-keep, count-map, count-Distinct, get_row_of_In,
  get_row-put_row_ne, get_row-put_row_self, key-get_row,
}
use table_queue.Waitlist.Dates.{Env}
use table_queue.StaffWaitlist.Listing.{
  ListPayload, in_queue_order, is_listed, queue_day, queue_rows, filtered_rows,
}
use table_queue.Waitlist.Statuses.{active_statuses}
use table_queue.StaffWaitlist.Reorder.{
  reorder, active_rows, same_ids, move_to, moved_entry, assign_positions,
}
use table_queue.Invariant.Reorder.{moved_entry-keeps}
use table_queue.Requests.Listing.{In-queue_rows}

-- No id twice.
abbrev NoRepeat : List ℕ → Type 0
NoRepeat ks = (k : ℕ) → count (λ i. i == k) ks ≤ 1

move_to-other :
    (db : Db) (k j index : ℕ) (wall : Instant)
    → k ≢ j
    → find_entry k (move_to db j index wall) ≡ find_entry k db
unfolding move_to
move_to-other db k j index wall other = elim (Option-cases (find_entry j db)) [
  | inl missing ↦ rw (missing, move_to) refl
  | inr (e, found) ↦
      rw (found, move_to)
        (get_row-put_row_ne entry_key k (moved_entry e index wall) db.entries (λ q.
          other
            (q ∙ (moved_entry-keeps e index wall).0 ∙ key-get_row entry_key j db.entries e found)))
]

move_to_self :
    (db : Db) (k index : ℕ) (wall : Instant) (e : WaitlistEntry)
    → find_entry k db ≡ some e
    → find_entry k (move_to db k index wall) ≡ some (moved_entry e index wall)
unfolding move_to
move_to_self db k index wall e found =
    let same = (moved_entry-keeps e index wall).0 ∙ key-get_row entry_key k db.entries e found in
    rw (found, move_to)
      (subst
        (λ i.
          find_entry i (save_entry (moved_entry e index wall) db) ≡ some (moved_entry e index wall))
        same
        (get_row-put_row_self entry_key (moved_entry e index wall) e db.entries
          (subst (λ i. find_entry i db ≡ some e) (sym same) found)))

-- A renumbering leaves the rows that it does not name.
assign_positions-other :
    (db : Db) (k : ℕ) (ks : List ℕ) (index : ℕ) (wall : Instant)
    → count (λ i. i == k) ks ≡ 0
    → find_entry k (assign_positions db ks index wall) ≡ find_entry k db
unfolding assign_positions count
assign_positions-other db k [] index wall h = refl
assign_positions-other db k (j ∷ ks) index wall h = elim (Bool-cases (j == k)) [
  | inl hit ↦ ground arith
  | inr miss ↦
      assign_positions-other (move_to db j index wall) k ks (index + 1) wall (rw miss at h)
      ∙ move_to-other db k j index wall (λ q. ground (arith, (==_iff j k).1, sym q))
]

moved_position :
    (e : WaitlistEntry) (index : ℕ) (wall : Instant) → (moved_entry e index wall).sort_order ≡ index
moved_position e index wall = elim (Bool-cases (e.sort_order == index)) [
  | inl there ↦ rw there ((==_iff e.sort_order index).0 there)
  | inr away ↦ rw away refl
]

-- The rows of the ids stand at `n`, `n + 1`, and so on.
abbrev pub Placed : Db → List ℕ → ℕ → Type 0
Placed db [] n = Unit
Placed db (k ∷ ks) n =
    ((e : WaitlistEntry) × (find_entry k db ≡ some e) × (e.sort_order ≡ n)) × Placed db ks (n + 1)

AreFound : Db → List ℕ → Type 0
AreFound db ks = (k : ℕ) → In k ks → (e : WaitlistEntry) × (find_entry k db ≡ some e)

AreFound-move_to :
    (db : Db) (k index : ℕ) (ks : List ℕ) (wall : Instant)
    → AreFound db (k ∷ ks)
    → AreFound (move_to db k index wall) ks
unfolding AreFound
AreFound-move_to db k index ks wall f j m = elim (Bool-cases (j == k)) [
  | inl same ↦
      let (e, found) = f k (inl refl) in
      let q = (==_iff j k).0 same in
      (
        moved_entry e index wall,
        subst (λ i. find_entry i (move_to db k index wall) ≡ some (moved_entry e index wall))
            (sym q) (move_to_self db k index wall e found),
      )
  | inr other ↦
      let (e, found) = f j (inr m) in
      (e, move_to-other db j k index wall (λ q. ground (arith, (==_iff j k).1)) ∙ found)
]

assign_positions-Placed :
    (db : Db) (ks : List ℕ) (n : ℕ) (wall : Instant)
    → NoRepeat ks
    → AreFound db ks
    → Placed (assign_positions db ks n wall) ks n
unfolding assign_positions AreFound count
assign_positions-Placed db [] n wall once f = tt
assign_positions-Placed db (k ∷ ks) n wall once f =
    let (e, found) = f k (inl refl) in
    let absent : count (λ i. i == k) ks ≡ 0 = ground (arith, once k, ==-self k) in
    (
      (
        moved_entry e n wall,
        assign_positions-other (move_to db k n wall) k ks (n + 1) wall absent
            ∙ move_to_self db k n wall e found,
        moved_position e n wall,
      ),
      assign_positions-Placed (move_to db k n wall) ks (n + 1) wall (λ j. ground (arith, once j))
          (AreFound-move_to db k n ks wall f),
    )

module _ (env : Env) (db : Db) (ids : List ℕ) (wall : Instant)
    (same : same_ids ids (map (λ e. e.id) (active_rows env db wall)) ≡ true) where
  same_sorted : order_by leb ids ≡ order_by leb (map (λ e. e.id) (active_rows env db wall))
  unfolding same_ids
  same_sorted = (text_eq_iff _ _).0 same

  ids-NoRepeat : Distinct entry_key db.entries → NoRepeat ids
  unfolding active_rows queue_rows filtered_rows
  ids-NoRepeat d k =
      let rows = active_rows env db wall in
      let listed = is_listed env active_statuses (queue_day env db wall) none in
      let of_rows : count (λ e. e.id == k) rows ≤ 1 = ground (
        arith,
        count-order_by in_queue_order (λ e. e.id == k) (keep listed db.entries),
        count-keep (λ e. e.id == k) listed db.entries,
        count-Distinct entry_key k db.entries d,
      ) in
      ground (
        arith,
        count-order_by leb (λ i. i == k) ids,
        ap (count (λ i. i == k)) same_sorted,
        count-order_by leb (λ i. i == k) (map (λ e. e.id) rows),
        count-map (λ e. e.id) k rows,
      )

  ids-AreFound : Distinct entry_key db.entries → AreFound db ids
  unfolding AreFound active_rows
  ids-AreFound d k m =
      let rows = active_rows env db wall in
      let n = subst (λ xs. In k xs) same_sorted (In-order_by_of leb k ids m) in
      let (e, r, q) = In-map_of (λ e. e.id) rows k (In-order_by leb k (map (λ e. e.id) rows) n) in
      let (stored, _) =
        In-queue_rows env db active_statuses (queue_day env db wall) none none e r in
      (
        e,
        subst (λ i. find_entry i db ≡ some e) (sym q)
            (get_row_of_In entry_key e db.entries d stored),
      )

reordered :
    (env : Env) (db db' : Db) (ids : List ℕ) (wall now : Instant) (page : ListPayload)
    → reorder env db ids wall now ≡ ok (db', page)
    → (same_ids ids (map (λ e. e.id) (active_rows env db wall)) ≡ true)
      × (db' ≡ assign_positions db ids 1 wall)
unfolding reorder
reordered env db db' ids wall now page h = ground arith

count_absent : (k : ℕ) (ks : List ℕ) → (In k ks → ⊥) → count (λ i. i == k) ks ≡ 0
unfolding count
count_absent k [] out = refl
count_absent k (j ∷ ks) out = elim (Bool-cases (j == k)) [
  | inl hit ↦ absurd (out (inl (sym ((==_iff j k).0 hit))))
  | inr miss ↦ rw miss (count_absent k ks (λ m. out (inr m)))
]

-- The ids are the active rows', they stand at 1, 2, and so on, and no other row has changed.
abbrev pub Renumbered : Env → Db → Db → List ℕ → Instant → Type 0
Renumbered env db db' ids wall =
    (same_ids ids (map (λ e. e.id) (active_rows env db wall)) ≡ true)
    × Placed db' ids 1
    × ((k : ℕ) → (In k ids → ⊥) → find_entry k db' ≡ find_entry k db)

-- With distinct ids, a reorder that succeeds was given each active row of the queue once, sets the
-- rows of the ids at positions 1, 2 and so on in the order given, and leaves every other entry.
pub reorder-places :
    (env : Env) (db db' : Db) (ids : List ℕ) (wall now : Instant) (page : ListPayload)
    → Distinct entry_key db.entries
    → reorder env db ids wall now ≡ ok (db', page)
    → Renumbered env db db' ids wall
unfolding reorder
reorder-places env db db' ids wall now page d h =
    let (same, written) = reordered env db db' ids wall now page h in
    (
      same,
      subst (λ s. Placed s ids 1) (sym written)
          (assign_positions-Placed db ids 1 wall (ids-NoRepeat env db ids wall same d)
            (ids-AreFound env db ids wall same d)),
      λ k out.
          ap (find_entry k) written
          ∙ assign_positions-other db k ids 1 wall (count_absent k ids out),
    )
