-- ===== src/Models.antt =====
-- backend/app/models.py: the enums and the rows. Ids that are UUIDs are numbers, a stored timestamp
-- is an instant in UTC (microseconds since year 1), and a text column is its code points. The
-- created_at and updated_at columns of the rows other than the waitlist entries are left out:
-- no rule reads them.
mod Defs
mod Tests
unfoldable pub use Defs.*
unfoldable pub use Tests.*
