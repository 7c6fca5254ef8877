-- ===== src/Invariant/Defs.antt =====
-- What holds of the rows of backend/app/models.py between requests.
use table_queue.Common.{ℕ, ◌≡◌, true, none, some, List, is_some}
use table_queue.Models.{
  WaitlistEntry, WaitlistStatus, Table, waiting, called, seated, done, no_show, cancelled, occupied,
}
use table_queue.Store.{Db, Every, Single, Distinct, entry_key, table_key, get_row}

-- The columns that go with each status.
abbrev pub Fits : WaitlistStatus → WaitlistEntry → Type 0
Fits waiting e =
    (e.called_at ≡ none)
    × (e.hold_minutes_snapshot ≡ none)
    × (e.table_id ≡ none)
    × (e.closed_at ≡ none)
    × (e.cancelled_reason ≡ none)
Fits called e =
    (is_some e.called_at ≡ true)
    × (is_some e.hold_minutes_snapshot ≡ true)
    × (e.table_id ≡ none)
    × (e.closed_at ≡ none)
    × (e.cancelled_reason ≡ none)
Fits seated e =
    (is_some e.seated_at ≡ true)
    × (is_some e.table_id ≡ true)
    × (e.closed_at ≡ none)
    × (e.cancelled_reason ≡ none)
Fits done e =
    (is_some e.seated_at ≡ true)
    × (is_some e.table_id ≡ true)
    × (is_some e.closed_at ≡ true)
    × (e.cancelled_reason ≡ none)
Fits no_show e = (e.table_id ≡ none) × (is_some e.closed_at ≡ true) × (e.cancelled_reason ≡ none)
Fits cancelled e =
    (e.table_id ≡ none) × (is_some e.closed_at ≡ true) × (is_some e.cancelled_reason ≡ true)

abbrev pub IsConsistent : WaitlistEntry → Type 0
IsConsistent e = Fits e.status e

-- The columns of the unique index `uq_queue_seq`.
abbrev pub SameNumber : WaitlistEntry → WaitlistEntry → Type 0
SameNumber e f =
    (e.branch_id ≡ f.branch_id)
    × (e.business_date ≡ f.business_date)
    × (e.queue_prefix ≡ f.queue_prefix)
    × (e.seq ≡ f.seq)

-- Keys are distinct, no two entries share a queue number, and every entry has its status's columns.
pub record IsSound (db : Db) : Type 0 where
  pub entry_ids : Distinct entry_key db.entries
  pub table_ids : Distinct table_key db.tables
  pub numbers : Single entry_key SameNumber db.entries
  pub rows : Every IsConsistent db.entries

-- A SEATED entry's table is OCCUPIED.
abbrev pub SeatHeld : List Table → WaitlistEntry → Type 0
SeatHeld tables e =
    e.status ≡ seated
    → (k : ℕ) × (t : Table) × (e.table_id ≡ some k)
      × (get_row table_key k tables ≡ some t)
      × (t.status ≡ occupied)

-- Two parties at one table.
abbrev pub SharesTable : WaitlistEntry → WaitlistEntry → Type 0
SharesTable e f = (e.status ≡ seated) × (f.status ≡ seated) × (e.table_id ≡ f.table_id)

-- Every party sits at an OCCUPIED table, and alone.
pub record IsSeated (db : Db) : Type 0 where
  pub seats : Every (SeatHeld db.tables) db.entries
  pub alone : Single entry_key SharesTable db.entries
