-- ===== src/App.antt =====
-- The start of the process and what stands around its routes: backend/app/main.py, and the seeder
-- of backend/app/seed.py behind the reset route of backend/app/routers/admin.py.
pub mod Bootstrap
pub mod Seed
pub mod Fixture
pub mod Start
pub mod Routing
pub mod Paths
pub mod Middleware
pub mod Headers
