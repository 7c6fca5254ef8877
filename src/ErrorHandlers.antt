-- ===== src/ErrorHandlers.antt =====
-- How an exception leaves the application: the handlers of backend/app/errors.py. Render is the
-- code, Fields what a refused body names.
pub mod Render
pub mod Fields
