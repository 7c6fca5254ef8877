-- ===== src/Tables/Admin.antt =====
-- `list_tables` and the admin write paths of backend/app/services/tables.py, with the commit of
-- backend/app/services/table_write.py and the code of backend/app/services/table_conflict.py. The
-- request schemas have bound the types: a capacity and a position are no negative numbers.
use table_queue.Common.{
  ℕ, Bool, true, false, ◌&&◌, ◌||◌, not, Option, none, some, List, [], ◌∷◌, ◌++◌, Text, ltb, leb,
  ◌==◌, text_eq, text_leb, if◌then◌else◌, keep, length, any_of,
}
use table_queue.Models.{Table, available, occupied, table_status_is}
use table_queue.Errors.{
  Result, ok, err, ◌>>=◌, ◌>>◌, ensure, or_raise, AppError, Details, app_error, validation_error,
  conflict, table_not_found, nothing, field,
}
use table_queue.Store.{Db, find_table, save_table, order_by}
use table_queue.Waitlist.Dates.{Env}
use table_queue.StaffWaitlist.Payload.{RawId, lookup_by}
use table_queue.Common.{codes}

abbrev pub label_min : ℕ
label_min = 1

abbrev pub label_max : ℕ
label_max = 10

abbrev pub capacity_min : ℕ
capacity_min = 1

abbrev pub capacity_max : ℕ
capacity_max = 20

abbrev pub section_max : ℕ
section_max = 50

abbrev pub sort_order_max : ℕ
sort_order_max = 9223372036854775807

abbrev pub default_sort_order : ℕ
default_sort_order = 0

abbrev pub in_list_order : Table → Table → Bool
in_list_order a b =
    if a.sort_order == b.sort_order then text_leb a.label b.label else ltb a.sort_order b.sort_order

unfoldable pub list_tables : Env → Db → Bool → List Table
list_tables env db include_inactive = order_by in_list_order (
    keep (λ t. t.branch_id == env.default_branch_id && (include_inactive || t.is_active)) db.tables)

abbrev rejection : Details → AppError
rejection details = app_error validation_error (some 422) details

unfoldable pub reject_label : Text → Result (Unit {0})
reject_label label =
    ensure (leb label_min (length label) && leb (length label) label_max) (rejection nothing)

unfoldable pub reject_capacity : ℕ → Result (Unit {0})
reject_capacity capacity = do
  ensure (not (ltb capacity capacity_min)) (rejection (field (codes "capacity")))
  ensure (not (ltb capacity_max capacity)) (rejection (field (codes "capacity")))

unfoldable pub reject_section : Option Text → Result (Unit {0})
reject_section none = ok tt
reject_section (some section) = ensure (not (ltb section_max (length section))) (rejection nothing)

unfoldable pub reject_int : ℕ → Result (Unit {0})
reject_int value = ensure (not (ltb sort_order_max value)) (rejection nothing)

unfoldable pub get_table : Db → RawId → Result Table
get_table db table_id =
    or_raise (lookup_by (λ k. find_table k db) table_id) (app_error table_not_found none nothing)

abbrev label_conflict : AppError
label_conflict = app_error conflict none nothing

abbrev is_excluded : Option ℕ → Table → Bool
is_excluded none t = false
is_excluded (some k) t = t.id == k

-- A row of the branch, hidden or not, that holds the label.
abbrev pub holds_label : ℕ → Text → Table → Bool
holds_label branch_id label t = t.branch_id == branch_id && text_eq t.label label

unfoldable pub assert_label_free : Db → ℕ → Text → Option ℕ → Result (Unit {0})
assert_label_free db branch_id label exclude_id =
    ensure
      (not
        (any_of (λ t. holds_label branch_id label t && not (is_excluded exclude_id t)) db.tables))
      label_conflict

-- The unique index `uq_branch_label` refuses the rows.
unfoldable pub labels_clash : List Table → Bool
labels_clash [] = false
labels_clash (t ∷ ts) = any_of (holds_label t.branch_id t.label) ts || labels_clash ts

-- `commit_or_label_conflict`: an IntegrityError at the commit is the same 409.
unfoldable pub commit_or_label_conflict : Db → Result Db
unfolding labels_clash
commit_or_label_conflict db = if labels_clash db.tables then err label_conflict else ok db

pub record CreateTableRequest : Type 0 where
  pub label : Text
  pub capacity : ℕ
  pub section : Option Text
  pub sort_order : Option ℕ

abbrev or_default : Option ℕ → ℕ
or_default none = default_sort_order
or_default (some n) = n

-- A check that an absent value passes.
abbrev if_given : {A : Type 0} → (A → Result (Unit {0})) → Option A → Result (Unit {0})
if_given check none = ok tt
if_given check (some a) = check a

abbrev pub created_table : Env → CreateTableRequest → ℕ → Table
created_table env payload new_id = record {
  id = new_id;
  branch_id = env.default_branch_id;
  label = payload.label;
  capacity = payload.capacity;
  section = payload.section;
  sort_order = or_default payload.sort_order;
  status = available;
  is_active = true;
}

-- `new_id` is the `uuid4` of the row.
unfoldable pub create_table : Env → Db → CreateTableRequest → ℕ → Result (Db × Table)
create_table env db payload new_id = do
  reject_label payload.label
  reject_capacity payload.capacity
  reject_section payload.section
  if_given reject_int payload.sort_order
  assert_label_free db env.default_branch_id payload.label none
  let row = created_table env payload new_id
  db' ← commit_or_label_conflict (record db { tables = db.tables ++ row ∷ [] })
  ok (db', row)

-- `model_dump(exclude_unset=True)`: a field that the body leaves out is `none`, an explicit null
-- is `some none`.
pub record UpdateTableRequest : Type 0 where
  pub label : Option (Option Text)
  pub capacity : Option (Option ℕ)
  pub section : Option (Option Text)
  pub sort_order : Option (Option ℕ)
  pub is_active : Option (Option Bool)

unfoldable pub with_label : Db → Table → Option (Option Text) → Result Table
with_label db row none = ok row
with_label db row (some none) = err (rejection nothing)
with_label db row (some (some label)) = do
  reject_label label
  assert_label_free db row.branch_id label (some row.id)
  ok (record row { label = label })

unfoldable pub with_capacity : Table → Option (Option ℕ) → Result Table
with_capacity row none = ok row
with_capacity row (some none) = err (rejection nothing)
with_capacity row (some (some capacity)) = do
  reject_capacity capacity
  ok (record row { capacity = capacity })

unfoldable pub with_section : Table → Option (Option Text) → Result Table
with_section row none = ok row
with_section row (some section) = do reject_section section; ok (record row { section = section })

unfoldable pub with_sort_order : Table → Option (Option ℕ) → Result Table
with_sort_order row none = ok row
with_sort_order row (some value) = do
  reject_int (or_default value)
  ok (record row { sort_order = or_default value })

unfoldable pub with_is_active : Table → Option (Option Bool) → Table
with_is_active row (some (some is_active)) = record row { is_active = is_active }
with_is_active row (some none) = row
with_is_active row none = row

unfoldable pub update_table : Db → Table → UpdateTableRequest → Result (Db × Table)
update_table db row payload = do
  labelled ← with_label db row payload.label
  sized ← with_capacity labelled payload.capacity
  placed ← with_section sized payload.section
  sorted ← with_sort_order placed payload.sort_order
  let row' = with_is_active sorted payload.is_active
  db' ← commit_or_label_conflict (save_table row' db)
  ok (db', row')

unfoldable pub soft_delete_table : Db → Table → Result Db
soft_delete_table db row = do
  ensure (not (table_status_is row.status occupied)) label_conflict
  ok (save_table (record row { is_active = false }) db)
