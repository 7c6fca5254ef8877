-- ===== src/StaffWaitlist.antt =====
-- backend/app/services/staff_waitlist.py: the staff waitlist rules, and the close of the day in
-- backend/app/routers/staff_waitlist.py.
pub mod Filter
pub mod Payload
pub mod Actions
pub mod Listing
pub mod EditBody
pub mod Reorder
pub mod CloseDay
