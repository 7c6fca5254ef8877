-- ===== src/Requests/Seat.antt =====
-- What a seat is, on every branch of `seat_entry` of backend/app/services/staff_waitlist.py.
use table_queue.Common.{
  Bool, true, false, refl, ℕ, ◌≡◌, ◌≢◌, subst, ◌∙◌, ◌⊎◌, inl, inr, true, false, none, some, arith,
  Option-cases,
}
use table_queue.Models.{
  WaitlistEntry, WaitlistStatus, Table, TableStatus, Instant, waiting, called, seated, done,
  no_show, cancelled, occupied, available, cleaning,
}
use table_queue.Errors.{
  ok, err, waitlist_not_found, table_not_found, table_not_available, nothing, taken_table, Action,
}
use table_queue.Store.{
  Db, entry_key, table_key, find_entry, find_table, save_entry, save_table, get_row-put_row_self,
  get_row-put_row_ne, get_row_key, key-get_row,
}
use table_queue.StaffWaitlist.Payload.{
  RawId, get_entry, get_table_for_seat, EntryPayload, answered, invalid_status,
}
use table_queue.StaffWaitlist.Actions.{seat_entry, seated_entry}
use table_queue.Errors.{app_error}

-- The entry and the table that a seat joins.
pub record Seats (db : Db) (i j : ℕ) (e : WaitlistEntry) (t : Table) : Type 0 where
  pub entry_found : find_entry i db ≡ some e
  pub table_found : find_table j db ≡ some t
  pub can_sit : (e.status ≡ waiting) ⊎ (e.status ≡ called)
  pub is_free : t.status ≡ available
  pub is_active : t.is_active ≡ true

-- The rows of a store away from one entry and one table.
abbrev pub SameElsewhere : ℕ → ℕ → Db → Db → Type 0
SameElsewhere i j db db' =
    ((k : ℕ) → k ≢ i → find_entry k db' ≡ find_entry k db)
    × ((k : ℕ) → k ≢ j → find_table k db' ≡ find_table k db)

abbrev pub seated_store : Db → WaitlistEntry → Table → Instant → Db
seated_store db e t now =
    save_table (record t { status = occupied }) (save_entry (seated_entry e t now) db)

-- What a success leaves of the tests.
admitted :
    (db db' : Db) (i j : ℕ) (now : Instant) (answer : EntryPayload) (e : WaitlistEntry) (t : Table)
    → find_entry i db ≡ some e
    → find_table j db ≡ some t
    → seat_entry db (some i) (some j) now ≡ ok (db', answer)
    → Seats db i j e t × (db' ≡ seated_store db e t now)
unfolding seat_entry get_entry get_table_for_seat
admitted db db' i j now answer e t found held h = (
  record {
    entry_found = found;
    table_found = held;
    can_sit = ground arith;
    is_free = ground arith;
    is_active = ground arith;
  },
  ground arith,
)

-- The two rows that a seat writes, and the others.
seated_rows :
    (db : Db) (i j : ℕ) (now : Instant) (e : WaitlistEntry) (t : Table)
    → find_entry i db ≡ some e
    → find_table j db ≡ some t
    → let db' = seated_store db e t now in
      (find_entry i db' ≡ some (seated_entry e t now))
      × (find_table j db' ≡ some (record t { status = occupied }))
      × SameElsewhere i j db db'
seated_rows db i j now e t found held =
    let i_is = key-get_row entry_key i db.entries e found in
    let j_is = key-get_row table_key j db.tables t held in
    (
      subst (λ k. find_entry k (seated_store db e t now) ≡ some (seated_entry e t now)) i_is
          (get_row-put_row_self entry_key (seated_entry e t now) e db.entries
            (get_row_key entry_key i db.entries e found)),
      subst (λ k. find_table k (seated_store db e t now) ≡ some (record t { status = occupied }))
          j_is
          (get_row-put_row_self table_key (record t { status = occupied }) t db.tables
            (get_row_key table_key j db.tables t held)),
      (
        (λ k other.
            get_row-put_row_ne entry_key k (seated_entry e t now) db.entries
              (λ p. other (p ∙ i_is))),
        (λ k other.
            get_row-put_row_ne table_key k (record t { status = occupied }) db.tables
              (λ p. other (p ∙ j_is))),
      ),
    )

-- What a seat did: the entry, the table, the two rows written, and the others as they were.
abbrev pub Seated : Db → Db → RawId → RawId → Instant → Type 0
Seated db db' entry_id table_id now =
    (i : ℕ) × (j : ℕ) × (e : WaitlistEntry) × (t : Table) × (entry_id ≡ some i)
    × (table_id ≡ some j)
    × Seats db i j e t
    × (find_entry i db' ≡ some (seated_entry e t now))
    × (find_table j db' ≡ some (record t { status = occupied }))
    × SameElsewhere i j db db'

-- A seat that succeeds found a WAITING or CALLED entry and an active AVAILABLE table under the ids
-- of the request, wrote the entry as SEATED at that table and the table as OCCUPIED, and changed
-- no other entry and no other table.
pub seat_entry-ok :
    (db db' : Db) (entry_id table_id : RawId) (now : Instant) (answer : EntryPayload)
    → seat_entry db entry_id table_id now ≡ ok (db', answer)
    → Seated db db' entry_id table_id now
unfolding seat_entry get_entry get_table_for_seat
seat_entry-ok db db' none table_id now answer h = cc
seat_entry-ok db db' (some i) none now answer h = elim (Option-cases (find_entry i db)) [
  | inl missing ↦ ground arith
  | inr (e, found) ↦ ground arith
]
seat_entry-ok db db' (some i) (some j) now answer h = elim (Option-cases (find_entry i db)) [
  | inl missing ↦ ground arith
  | inr (e, found) ↦ elim (Option-cases (find_table j db)) [
    | inl missing ↦ ground arith
    | inr (t, held) ↦
        let (seats, written) = admitted db db' i j now answer e t found held h in
        let rows = seated_rows db i j now e t found held in
        (i, j, e, t, refl, refl, seats, rw written rows.0, rw written rows.1, rw written rows.2)
  ]
]

admitted_run :
    (db : Db) (i j : ℕ) (now : Instant) (e : WaitlistEntry) (t : Table)
    → find_entry i db ≡ some e
    → find_table j db ≡ some t
    → t.status ≡ available
    → t.is_active ≡ true
    → (e.status ≡ waiting) ⊎ (e.status ≡ called)
    → seat_entry db (some i) (some j) now
      ≡ ok (answered (seated_store db e t now) (seated_entry e t now) now)
unfolding seat_entry get_entry get_table_for_seat
admitted_run db i j now e t found held free active (inl sits) = ground arith
admitted_run db i j now e t found held free active (inr sits) = ground arith

-- The ways that a seat can end, each with its answer, in the order of the tests.
abbrev pub SeatCases : Db → ℕ → ℕ → Instant → Type 0
SeatCases db i j now =
    ((find_entry i db ≡ none)
      × (seat_entry db (some i) (some j) now ≡ err (app_error waitlist_not_found none nothing)))
    ⊎ ((e : WaitlistEntry) × (find_entry i db ≡ some e)
        × (find_table j db ≡ none)
        × (seat_entry db (some i) (some j) now ≡ err (app_error table_not_found none nothing)))
    ⊎ ((e : WaitlistEntry) × (t : Table) × (find_entry i db ≡ some e)
        × (find_table j db ≡ some t)
        × ((t.status ≢ available) ⊎ (t.is_active ≡ false))
        × (seat_entry db (some i) (some j) now
            ≡ err (app_error table_not_available none (taken_table t.label t.status))))
    ⊎ ((e : WaitlistEntry) × (t : Table) × (find_entry i db ≡ some e)
        × (find_table j db ≡ some t)
        × (e.status ≢ waiting)
        × (e.status ≢ called)
        × (seat_entry db (some i) (some j) now ≡ err (invalid_status Action.seat e.status)))
    ⊎ ((e : WaitlistEntry) × (t : Table) × Seats db i j e t
        × (seat_entry db (some i) (some j) now
            ≡ ok (answered (seated_store db e t now) (seated_entry e t now) now)))

can_sit_cases :
    (s : WaitlistStatus) → ((s ≡ waiting) ⊎ (s ≡ called)) ⊎ ((s ≢ waiting) × (s ≢ called))
can_sit_cases waiting = inl (inl refl)
can_sit_cases called = inl (inr refl)
can_sit_cases seated = inr (λ h. cc, λ h. cc)
can_sit_cases done = inr (λ h. cc, λ h. cc)
can_sit_cases no_show = inr (λ h. cc, λ h. cc)
can_sit_cases cancelled = inr (λ h. cc, λ h. cc)

free_cases :
    (s : TableStatus) (active : Bool)
    → ((s ≡ available) × (active ≡ true)) ⊎ ((s ≢ available) ⊎ (active ≡ false))
free_cases available true = inl (refl, refl)
free_cases available false = inr (inr refl)
free_cases occupied active = inr (inl (λ h. cc))
free_cases cleaning active = inr (inl (λ h. cc))

-- A seat on two well-formed ids ends in one of five ways, in this order: no entry (404), no table
-- (404), a table that is not AVAILABLE or not active (409), an entry that is neither WAITING nor
-- CALLED (409), or the success that writes both rows.
pub seat_entry-cases : (db : Db) (i j : ℕ) (now : Instant) → SeatCases db i j now
unfolding seat_entry get_entry get_table_for_seat
seat_entry-cases db i j now = elim (Option-cases (find_entry i db)) [
  | inl missing ↦ inl (missing, ground arith)
  | inr (e, found) ↦ elim (Option-cases (find_table j db)) [
    | inl missing ↦ inr (inl (e, found, missing, ground arith))
    | inr (t, held) ↦ elim (free_cases t.status t.is_active) [
      | inr taken ↦ inr (inr (inl (e, t, found, held, taken, ground arith)))
      | inl (free, active) ↦ elim (can_sit_cases e.status) [
        | inr (not_waiting, not_called) ↦
            inr (inr (inr (inl (e, t, found, held, not_waiting, not_called, ground arith))))
        | inl sits ↦ inr (
            inr (
              inr (
                inr (
                  e,
                  t,
                  record {
                    entry_found = found;
                    table_found = held;
                    can_sit = sits;
                    is_free = free;
                    is_active = active;
                  },
                  admitted_run db i j now e t found held free active sits,
                ))))
      ]
    ]
  ]
]
