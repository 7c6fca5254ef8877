-- ===== src/Tables/Routes.antt =====
-- The PATCH and DELETE handlers of backend/app/routers/admin.py on a table.
use table_queue.Errors.{Result, ◌>>=◌}
use table_queue.Models.{Table}
use table_queue.Store.{Db}
use table_queue.StaffWaitlist.Payload.{RawId}
use table_queue.Tables.Admin.{UpdateTableRequest, get_table, update_table, soft_delete_table}

unfoldable pub update_admin_table : Db → RawId → UpdateTableRequest → Result (Db × Table)
update_admin_table db table_id payload = do row ← get_table db table_id; update_table db row payload

unfoldable pub delete_admin_table : Db → RawId → Result Db
delete_admin_table db table_id = do row ← get_table db table_id; soft_delete_table db row
