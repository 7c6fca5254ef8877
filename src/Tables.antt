-- ===== src/Tables.antt =====
-- backend/app/services/tables.py: the tables of the admin and of the staff surface.
pub mod Admin
pub mod Staff
pub mod Routes
