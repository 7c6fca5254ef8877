-- ===== src/Invariant/Lifecycle.antt =====
-- The life of a queue entry: the statuses of section 5 of _docs/specs.md as a relation, and the
-- requests of the backend as moves along it.
pub mod Moves
pub mod Writes
pub mod Requests
pub mod Runs
