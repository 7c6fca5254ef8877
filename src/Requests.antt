-- ===== src/Requests.antt =====
-- The requests to the waitlist and the tables, as steps of one store.
pub mod After
pub mod Staff
pub mod Guest
pub mod Tables
pub mod Steps
pub mod Seat
pub mod Join
pub mod Day
pub mod Listing
pub mod Seating
pub mod Reorder
pub mod Labels
pub mod Edit
pub mod Line
pub mod Moves
pub mod Place
pub mod Refinement
