-- ===== src/Store/State.antt =====
-- The store: the rows of each table of backend/app/models.py.
use table_queue.Common.{ℕ, List, [], Option, none, some, Text}
use table_queue.Models.{Restaurant, Branch, Table, WaitlistEntry, Settings}
use table_queue.Store.Rows.{get_row, put_row}

pub record Db : Type 0 where
  pub restaurants : List Restaurant
  pub branches : List Branch
  pub tables : List Table
  pub entries : List WaitlistEntry
  pub settings : List Settings

abbrev pub entry_key : WaitlistEntry → ℕ
entry_key e = e.id

abbrev pub table_key : Table → ℕ
table_key t = t.id

abbrev pub branch_key : Branch → ℕ
branch_key b = b.id

abbrev pub find_entry : ℕ → Db → Option WaitlistEntry
find_entry k db = get_row entry_key k db.entries

abbrev pub find_table : ℕ → Db → Option Table
find_table k db = get_row table_key k db.tables

abbrev pub find_branch : ℕ → Db → Option Branch
find_branch k db = get_row branch_key k db.branches

abbrev pub save_entry : WaitlistEntry → Db → Db
save_entry e db = record db { entries = put_row entry_key e db.entries }

abbrev pub save_table : Table → Db → Db
save_table t db = record db { tables = put_row table_key t db.tables }

abbrev pub restaurant_key : Restaurant → ℕ
restaurant_key r = r.id

abbrev pub settings_key : Settings → ℕ
settings_key s = s.id

abbrev pub save_settings : Settings → Db → Db
save_settings s db = record db { settings = put_row settings_key s db.settings }

abbrev pub save_branch : Branch → Db → Db
save_branch b db = record db { branches = put_row branch_key b db.branches }

abbrev pub save_restaurant : Restaurant → Db → Db
save_restaurant r db = record db { restaurants = put_row restaurant_key r db.restaurants }

-- `branch.restaurant.name`: the foreign key is not null, so its row is there.
unfoldable pub restaurant_name : Db → Branch → Text
restaurant_name db branch = elim (get_row restaurant_key branch.restaurant_id db.restaurants) [
  | none ↦ []
  | some r ↦ r.name
]
