-- ===== src/Invariant.antt =====
-- The invariants of the store: the rows alone, and the seating.
pub mod Defs
pub mod Saves
pub mod Staff
pub mod Guest
pub mod Tables
pub mod Day
pub mod Reorder
pub mod Routes
pub mod Steps
pub mod Lifecycle
