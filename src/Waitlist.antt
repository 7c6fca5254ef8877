-- ===== src/Waitlist.antt =====
-- backend/app/services/waitlist.py: the guest-facing waitlist rules.
pub mod Statuses
pub mod Phone
pub mod Dates
pub mod Numbers
pub mod Lookup
pub mod Join
pub mod Status
pub mod Cancel
pub mod Board
