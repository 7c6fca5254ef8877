-- ===== src/Store.antt =====
-- The rows that a request reads and writes. SQLAlchemy's session over SQLite is the list of each
-- table's rows, in storage order: `db.get` finds a row by primary key, an assignment to a fetched
-- row followed by `commit` writes it back, and a rule that raises leaves the store as it was, since
-- backend/app/database.py closes the session of a failed request uncommitted. A request runs alone.
mod Rows
mod Facts
mod Maps
mod Sort
mod Ordered
mod Counts
mod State
unfoldable pub use Rows.*
unfoldable pub use Facts.*
unfoldable pub use Maps.*
unfoldable pub use Sort.*
unfoldable pub use Ordered.*
unfoldable pub use Counts.*
unfoldable pub use State.*
