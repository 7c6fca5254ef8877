-- ===== src/Auth.antt =====
-- Authentication of staff: backend/app/routers/auth.py and backend/app/dependencies.py. Crypto is
-- what they take from other packages, Credentials and Routes are the code, Tokens what it keeps.
pub mod Crypto
pub mod Credentials
pub mod Routes
pub mod Tokens
