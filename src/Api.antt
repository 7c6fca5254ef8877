-- ===== src/Api.antt =====
-- The surface of the process as one: every call of backend/app/routers that writes, behind the
-- check of its bearer. Calls is the composition; Sound and Locked are what runs of calls keep.
pub mod Calls
pub mod Sound
pub mod Locked
