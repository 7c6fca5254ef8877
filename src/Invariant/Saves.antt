-- ===== src/Invariant/Saves.antt =====
-- The invariants under the writes that operations are made of.
use table_queue.Common.{◌≡◌, ◌≢◌, refl, sym, ◌∙◌, some, List, arith, inl, inr}
use table_queue.Models.{WaitlistEntry, Table, seated, occupied, available}
use table_queue.Store.{
  Db, In, put_row, entry_key, table_key, find_table, save_entry, save_table, get_row, In-put_row,
  put_row-Distinct, put_row-Every, put_row-Single, get_row-put_row_ne, get_row-put_row_self,
}
use table_queue.Invariant.Defs.{IsConsistent, SameNumber, IsSound, SeatHeld, SharesTable, IsSeated}

-- A row is written back under its own key and number, with the columns of its status.
pub save_entry-IsSound :
    (db : Db) (old new : WaitlistEntry)
    → IsSound db
    → In old db.entries
    → new.id ≡ old.id
    → SameNumber new old
    → IsConsistent new
    → IsSound (save_entry new db)
save_entry-IsSound db old new s m same_id same fits = record {
  entry_ids = put_row-Distinct entry_key new db.entries s.entry_ids;
  table_ids = s.table_ids;
  numbers =
      put_row-Single entry_key SameNumber new db.entries s.numbers
        (λ f n r. ground (arith, s.numbers old f m n))
        (λ f n r. ground (arith, s.numbers f old n m));
  rows = put_row-Every entry_key IsConsistent new db.entries s.rows fits;
}

pub save_table-IsSound : (db : Db) (t : Table) → IsSound db → IsSound (save_table t db)
save_table-IsSound db t s = record {
  entry_ids = s.entry_ids;
  table_ids = put_row-Distinct table_key t db.tables s.table_ids;
  numbers = s.numbers;
  rows = s.rows;
}

-- A row that is not SEATED takes no seat.
pub save_entry-IsSeated :
    (db : Db) (new : WaitlistEntry)
    → IsSeated db
    → new.status ≢ seated
    → IsSeated (save_entry new db)
save_entry-IsSeated db new s unseated = record {
  seats =
      put_row-Every entry_key (SeatHeld db.tables) new db.entries s.seats
        (λ h. absurd (unseated h));
  alone =
      put_row-Single entry_key SharesTable new db.entries s.alone (λ f n r. absurd (unseated r.0))
        (λ f n r. absurd (unseated r.1));
}

-- A write to another table leaves the seat as it is.
pub SeatHeld-put_row_ne :
    (tables : List Table) (t : Table) (e : WaitlistEntry)
    → SeatHeld tables e
    → (e.status ≡ seated → e.table_id ≢ some t.id)
    → SeatHeld (put_row table_key t tables) e
SeatHeld-put_row_ne tables t e h elsewhere sits =
    let (k, u, at, there, full) = h sits in
    (
      k,
      u,
      at,
      get_row-put_row_ne table_key k t tables (λ p. elsewhere sits (rw (at, p))) ∙ there,
      full,
    )

-- Nobody sits at an AVAILABLE table.
free_table_is_empty :
    (tables : List Table) (t : Table) (e : WaitlistEntry)
    → SeatHeld tables e
    → get_row table_key t.id tables ≡ some t
    → t.status ≡ available
    → e.status ≡ seated
    → e.table_id ≢ some t.id
free_table_is_empty tables t e h found free sits at = ground (arith, h sits)

-- A party takes its seat at an AVAILABLE table, which becomes OCCUPIED.
pub seat-IsSeated :
    (db : Db) (new : WaitlistEntry) (t : Table)
    → IsSeated db
    → new.table_id ≡ some t.id
    → find_table t.id db ≡ some t
    → t.status ≡ available
    → IsSeated (save_table (record t { status = occupied }) (save_entry new db))
seat-IsSeated db new t s held found free = record {
  seats = λ f n. elim (In-put_row entry_key new f db.entries n) [
    | inl p ↦ λ _. (
      t.id,
      record t { status = occupied },
      rw p held,
      get_row-put_row_self table_key (record t { status = occupied }) t db.tables found,
      refl,
    )
    | inr (n', _) ↦
        SeatHeld-put_row_ne db.tables (record t { status = occupied }) f (s.seats f n')
          (free_table_is_empty db.tables t f (s.seats f n') found free)
  ];
  alone =
      put_row-Single entry_key SharesTable new db.entries s.alone
        (λ f n r.
          absurd (free_table_is_empty db.tables t f (s.seats f n) found free r.1 (sym r.2 ∙ held)))
        (λ f n r.
          absurd (free_table_is_empty db.tables t f (s.seats f n) found free r.0 (r.2 ∙ held)));
}

-- A table is freed once its party's row is no longer SEATED.
pub unseat-IsSeated :
    (db : Db) (old new : WaitlistEntry) (t : Table)
    → IsSeated db
    → In old db.entries
    → old.status ≡ seated
    → old.table_id ≡ some t.id
    → new.id ≡ old.id
    → new.status ≢ seated
    → IsSeated (save_table (record t { status = available }) (save_entry new db))
unseat-IsSeated db old new t s m sat at same_id up = record {
  seats = λ f n. elim (In-put_row entry_key new f db.entries n) [
    | inl p ↦ λ sits. absurd (up (rw p at sits))
    | inr (n', other) ↦
        SeatHeld-put_row_ne db.tables (record t { status = available }) f (s.seats f n')
          (λ sits here. other (s.alone f old n' m (sits, sat, here ∙ sym at) ∙ sym same_id))
  ];
  alone = (save_entry-IsSeated db new s up).alone;
}

-- A row that stays where it sits keeps its seat.
pub same_party-IsSeated :
    (db : Db) (old new : WaitlistEntry)
    → IsSeated db
    → In old db.entries
    → new.id ≡ old.id
    → new.status ≡ old.status
    → new.table_id ≡ old.table_id
    → IsSeated (save_entry new db)
same_party-IsSeated db old new p m same_id same_status same_table = record {
  seats = put_row-Every entry_key (SeatHeld db.tables) new db.entries p.seats (λ sits.
      let (k, t, at, there, full) = p.seats old m (sym same_status ∙ sits) in
      (k, t, same_table ∙ at, there, full));
  alone =
      put_row-Single entry_key SharesTable new db.entries p.alone
        (λ f n r. ground (arith, p.alone old f m n)) (λ f n r. ground (arith, p.alone f old n m));
}
