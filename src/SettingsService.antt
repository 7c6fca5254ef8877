-- ===== src/SettingsService.antt =====
-- backend/app/services/settings.py, behind the settings pair of backend/app/routers/admin.py.
-- Templates and Update are the code; Answer and Bounds are what an update does.
pub mod Templates
pub mod Update
pub mod Answer
pub mod Bounds
