-- ===== src/Requests/After.antt =====
-- The store that a request leaves behind.
use table_queue.Errors.{Result, ok, err}
use table_queue.Store.{Db}

-- The store after a request: what it committed, or the store as it was.
abbrev pub store_after : {A : Type 0} → Db → Result (Db × A) → Db
store_after db (ok (db', _)) = db'
store_after db (err _) = db

-- The same for a rule that answers with the store alone.
abbrev pub store_deleted : Db → Result Db → Db
store_deleted db (ok db') = db'
store_deleted db (err _) = db
