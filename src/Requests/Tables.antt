-- ===== src/Requests/Tables.antt =====
-- What each request on a table does to the store, by the ways it can end.
use table_queue.Common.{
  ℕ, ◌≤◌, ◌≡◌, refl, ◌⊎◌, inl, inr, Bool, true, false, Option, none, some, [], ◌∷◌, ◌++◌, arith,
  Option-cases, Text, length,
}
use table_queue.Models.{Table, TableStatus, Instant, available, cleaning, occupied}
use table_queue.Errors.{Result, ok, err, >>=-eq-ok}
use table_queue.Store.{Db, find_table, save_table}
use table_queue.Waitlist.Dates.{Env}
use table_queue.StaffWaitlist.Payload.{RawId}
use table_queue.Tables.Admin.{
  CreateTableRequest, created_table, create_table, UpdateTableRequest, update_table, with_label,
  with_capacity, with_section, with_sort_order, with_is_active, commit_or_label_conflict,
  labels_clash, reject_label, reject_capacity, reject_section, reject_int, assert_label_free,
  sort_order_max,
}
use table_queue.Tables.Staff.{
  get_active_table, update_table_status, release_table, party_at, finish_party,
}
use table_queue.Requests.After.{store_after}

-- The same table in the same state: nothing that a seat depends on has changed.
abbrev pub SameSeat : Table → Table → Type 0
SameSeat new old = (new.id ≡ old.id) × (new.status ≡ old.status) × (new.branch_id ≡ old.branch_id)

abbrev SectionFits : Option Text → Type 0
SectionFits none = Unit
SectionFits (some section) = length section ≤ 50

-- The bounds that the rules for a table set.
abbrev pub IsLegal : Table → Type 0
IsLegal t =
    (1 ≤ length t.label)
    × (length t.label ≤ 10)
    × (1 ≤ t.capacity)
    × (t.capacity ≤ 20)
    × SectionFits t.section
    × (t.sort_order ≤ sort_order_max)

-- What a successful check of one field leaves.
abbrev Checked : Table → Table → Type 0
Checked new old = SameSeat new old × (IsLegal old → IsLegal new)

with_label-ok :
    (db : Db) (row new : Table) (label : Option (Option Text))
    → with_label db row label ≡ ok new
    → Checked new row
unfolding with_label reject_label assert_label_free
with_label-ok db row new none h = ground arith
with_label-ok db row new (some none) h = cc
with_label-ok db row new (some (some label)) h = ground arith

with_capacity-ok :
    (row new : Table) (capacity : Option (Option ℕ))
    → with_capacity row capacity ≡ ok new
    → Checked new row
unfolding with_capacity reject_capacity
with_capacity-ok row new none h = ground arith
with_capacity-ok row new (some none) h = cc
with_capacity-ok row new (some (some n)) h = ground arith

with_section-ok :
    (row new : Table) (section : Option (Option Text))
    → with_section row section ≡ ok new
    → Checked new row
unfolding with_section reject_section
with_section-ok row new none h = ground arith
with_section-ok row new (some none) h = ground arith
with_section-ok row new (some (some n)) h = ground arith

with_sort_order-ok :
    (row new : Table) (sort_order : Option (Option ℕ))
    → with_sort_order row sort_order ≡ ok new
    → Checked new row
unfolding with_sort_order reject_int
with_sort_order-ok row new none h = ground arith
with_sort_order-ok row new (some n) h = ground arith

with_is_active-Checked :
    (row : Table) (is_active : Option (Option Bool)) → Checked (with_is_active row is_active) row
unfolding with_is_active
with_is_active-Checked row none = ((refl, refl, refl), λ h. h)
with_is_active-Checked row (some none) = ((refl, refl, refl), λ h. h)
with_is_active-Checked row (some (some b)) = ((refl, refl, refl), λ h. h)

commit-ok :
    (db db' : Db)
    → commit_or_label_conflict db ≡ ok db'
    → (db' ≡ db) × (labels_clash db.tables ≡ false)
unfolding commit_or_label_conflict
commit-ok db db' h = ground arith

-- The whole update: the store it commits, and the row it writes.
pub update_table-ok :
    (db db' : Db) (row new : Table) (payload : UpdateTableRequest)
    → update_table db row payload ≡ ok (db', new)
    → (db' ≡ save_table new db)
      × SameSeat new row
      × (labels_clash db'.tables ≡ false)
      × (IsLegal row → IsLegal new)
unfolding update_table
update_table-ok db db' row new payload h =
    let (a, ha, h1) = >>=-eq-ok (with_label db row payload.label) _ h in
    let (b, hb, h2) = >>=-eq-ok (with_capacity a payload.capacity) _ h1 in
    let (c, hc, h3) = >>=-eq-ok (with_section b payload.section) _ h2 in
    let (d, hd, h4) = >>=-eq-ok (with_sort_order c payload.sort_order) _ h3 in
    let (e, he, h5) =
      >>=-eq-ok (commit_or_label_conflict (save_table (with_is_active d payload.is_active) db)) _
        h4 in
    ground (
      arith,
      with_label-ok db row a payload.label ha,
      with_capacity-ok a b payload.capacity hb,
      with_section-ok b c payload.section hc,
      with_sort_order-ok c d payload.sort_order hd,
      with_is_active-Checked d payload.is_active,
      commit-ok (save_table (with_is_active d payload.is_active) db) e he,
    )

-- A creation that succeeds appends the table of the request, AVAILABLE and active, with a label of
-- 1 to 10 characters, a capacity of 1 to 20, a section of at most 50 characters and a bounded
-- position, and leaves labels unique.
pub create_table-ok :
    (env : Env) (db db' : Db) (payload : CreateTableRequest) (new_id : ℕ) (new : Table)
    → create_table env db payload new_id ≡ ok (db', new)
    → (new ≡ created_table env payload new_id)
      × (db' ≡ record db { tables = db.tables ++ new ∷ [] })
      × (labels_clash db'.tables ≡ false)
      × IsLegal new
unfolding create_table reject_label reject_capacity reject_section reject_int assert_label_free
create_table-ok env db db' payload new_id new h =
    let row = created_table env payload new_id in
    elim (Option-cases payload.section) [
      | inl no_section ↦ elim (Option-cases payload.sort_order) [
        | inl no_place ↦
            ground (arith, commit-ok (record db { tables = db.tables ++ row ∷ [] }) db')
        | inr (n, place) ↦
            ground (arith, commit-ok (record db { tables = db.tables ++ row ∷ [] }) db')
      ]
      | inr (section, given) ↦ elim (Option-cases payload.sort_order) [
        | inl no_place ↦
            ground (arith, commit-ok (record db { tables = db.tables ++ row ∷ [] }) db')
        | inr (n, place) ↦
            ground (arith, commit-ok (record db { tables = db.tables ++ row ∷ [] }) db')
      ]
    ]

module _ {ℓ} (P : Db → Type ℓ) (db : Db) (now : Instant) where
  pub store_after_cases :
      {A : Type 0} (r : Result (Db × A))
      → P db
      → ((db' : Db) (a : A) → r ≡ ok (db', a) → P db')
      → P (store_after db r)
  store_after_cases (err e) kept changed = kept
  store_after_cases (ok (db', a)) kept changed = changed db' a refl

  pub update_table_status_cases :
      (table_id : RawId) (status : Option TableStatus)
      → P db
      → ((k : ℕ) (t : Table) (to : TableStatus)
          → table_id ≡ some k
          → find_table k db ≡ some t
          → t.is_active ≡ true
          → (to ≡ available) ⊎ (to ≡ cleaning)
          → P (save_table (record t { status = to }) db))
      → P (store_after db (update_table_status db table_id status now))
  unfolding update_table_status get_active_table
  update_table_status_cases none status kept changed = kept
  update_table_status_cases (some k) none kept changed = elim (Option-cases (find_table k db)) [
    | inl missing ↦ ground arith
    | inr (t, found) ↦ ground arith
  ]
  update_table_status_cases (some k) (some to) kept changed =
      elim (Option-cases (find_table k db)) [
        | inl missing ↦ ground arith
        | inr (t, found) ↦ ground (arith, changed k t to)
      ]

  pub release_cases :
      (table_id : RawId)
      → P db
      → ((k : ℕ) (t : Table)
          → find_table k db ≡ some t
          → t.is_active ≡ true
          → t.status ≡ occupied
          → P (
              finish_party
                (party_at db t.id)
                now
                (save_table (record t { status = available }) db)))
      → P (store_after db (release_table db table_id now))
  unfolding release_table get_active_table
  release_cases none kept changed = kept
  release_cases (some k) kept changed = elim (Option-cases (find_table k db)) [
    | inl missing ↦ ground arith
    | inr (t, found) ↦ ground (arith, changed k t)
  ]
