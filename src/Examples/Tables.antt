-- ===== src/Examples/Tables.antt =====
-- The theorems of the tables at the stores of the fixture.
use table_queue.Common.{◌≡◌, ◌↔◌, refl, false, none, some, [], ◌∷◌, codes, arith}
use table_queue.Models.{cleaning, occupied}
use table_queue.Errors.{ok}
use table_queue.Store.{put_row, Db, find_table, save_table, get_row}
use table_queue.Tables.Admin.{
  CreateTableRequest, created_table, create_table, UpdateTableRequest, update_table, labels_clash,
  reject_label, reject_capacity, reject_section, assert_label_free, commit_or_label_conflict,
  with_label, with_capacity, with_section, with_sort_order, with_is_active,
}
use table_queue.Tables.Staff.{release_table, get_active_table, update_table_status, TablePayload}
use table_queue.Requests.After.{store_after}
use table_queue.Requests.Labels.{CreateCases, create_table-cases, update_table-commits}
use table_queue.Requests.Tables.{IsLegal, SameSeat}
use table_queue.Requests.Seating.{Freed, release_table-frees, IsEmpty, update_table_status-seating}
use table_queue.Invariant.Defs.{IsSound, IsSeated}
use table_queue.Examples.Fixture.{
  here_env, noon, later, table_one, full_table, seated_ann, store_with, one_entry-IsSound,
  one_entry-IsSeated, answer_of,
}

abbrev dining : Db
dining = store_with (seated_ann ∷ []) full_table

dining-IsSound : IsSound dining
dining-IsSound = one_entry-IsSound seated_ann full_table (refl, refl, refl, refl)

dining-IsSeated : IsSeated dining
unfolding get_row
dining-IsSeated =
    one_entry-IsSeated seated_ann full_table (λ h. (100, full_table, refl, refl, refl))

abbrev no_answer : TablePayload
no_answer = record { table = table_one; current_waitlist = none }

released_run :
    release_table dining (some 100) later
    ≡ ok (
      store_after dining (release_table dining (some 100) later),
      answer_of no_answer (release_table dining (some 100) later),
    )
unfolding release_table get_active_table get_row
released_run = refl

full_found : find_table 100 dining ≡ some full_table
unfolding get_row
full_found = refl

release_table-frees_example :
    (occupied ≡ occupied)
    × Freed dining full_table later (store_after dining (release_table dining (some 100) later))
release_table-frees_example =
    release_table-frees dining (store_after dining (release_table dining (some 100) later)) 100
      full_table later (answer_of no_answer (release_table dining (some 100) later)) dining-IsSound
      dining-IsSeated full_found released_run

set_run :
    update_table_status dining (some 100) (some cleaning) noon
    ≡ ok (
      store_after dining (update_table_status dining (some 100) (some cleaning) noon),
      answer_of no_answer (update_table_status dining (some 100) (some cleaning) noon),
    )
unfolding update_table_status get_active_table get_row
set_run = refl

update_table_status-seating_example :
    IsSeated (store_after dining (update_table_status dining (some 100) (some cleaning) noon))
    ↔ IsEmpty dining full_table
update_table_status-seating_example =
    update_table_status-seating dining
      (store_after dining (update_table_status dining (some 100) (some cleaning) noon)) 100
      full_table cleaning noon
      (answer_of no_answer (update_table_status dining (some 100) (some cleaning) noon))
      dining-IsSeated full_found set_run

abbrev second_table : CreateTableRequest
second_table = record { label = codes "T2"; capacity = 6; section = none; sort_order = none }

second_table-IsLegal : IsLegal (created_table here_env second_table 101)
second_table-IsLegal = (omega arith, omega arith, omega arith, omega arith, tt, omega arith)

no_clash : labels_clash (full_table ∷ []) ≡ false
unfolding labels_clash
no_clash = refl

create_table-cases_example : CreateCases here_env dining second_table 101
create_table-cases_example =
    create_table-cases here_env dining second_table 101 no_clash second_table-IsLegal

abbrev with_second : Db
with_second = record dining { tables = full_table ∷ created_table here_env second_table 101 ∷ [] }

created_run :
    create_table here_env dining second_table 101
    ≡ ok (with_second, created_table here_env second_table 101)
unfolding create_table reject_label reject_capacity reject_section assert_label_free
    commit_or_label_conflict labels_clash
created_run = refl

abbrev smaller : UpdateTableRequest
smaller = record {
  label = none;
  capacity = some (some 2);
  section = none;
  sort_order = none;
  is_active = none;
}

updated_run :
    update_table dining full_table smaller
    ≡ ok
        (save_table (record full_table { capacity = 2 }) dining, record full_table { capacity = 2 })
unfolding update_table with_label with_capacity with_section with_sort_order with_is_active
    reject_capacity commit_or_label_conflict labels_clash put_row
updated_run = refl

update_table-commits_example :
    (save_table (record full_table { capacity = 2 }) dining
      ≡ save_table (record full_table { capacity = 2 }) dining)
    × SameSeat (record full_table { capacity = 2 }) full_table
    × (labels_clash (save_table (record full_table { capacity = 2 }) dining).tables ≡ false)
    × IsLegal (record full_table { capacity = 2 })
update_table-commits_example =
    update_table-commits dining (save_table (record full_table { capacity = 2 }) dining) full_table
      (record full_table { capacity = 2 }) smaller
      (omega arith, omega arith, omega arith, omega arith, tt, omega arith) updated_run
