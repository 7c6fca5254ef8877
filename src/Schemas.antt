-- ===== src/Schemas.antt =====
-- The request models of backend/app/schemas.py, which FastAPI checks before a handler runs.
pub mod Refusals
pub mod Settings
pub mod Guest
pub mod Pin
pub mod Join
