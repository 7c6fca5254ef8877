-- ===== src/Requests/Labels.antt =====
-- The labels of a branch's tables under `create_table` and `update_table` of
-- backend/app/services/tables.py.
use table_queue.Common.{
  ℕ, ◌≡◌, ◌≢◌, refl, ◌∙◌, ap, ◌⊎◌, inl, inr, Bool, true, false, ◌&&◌, none, List, [], ◌∷◌, ◌++◌,
  arith, Option-cases, Bool-cases, any_of, text_eq_iff, text_eq_comm, ==_iff, ==-self,
}
use table_queue.Models.{Table}
use table_queue.Errors.{ok, err, ◌>>=◌, ◌>>◌, app_error, conflict, nothing}
use table_queue.Store.{Db, In, save_table}
use table_queue.Requests.Tables.{IsLegal, SameSeat, update_table-ok}
use table_queue.Waitlist.Dates.{Env}
use table_queue.Tables.Admin.{
  CreateTableRequest, UpdateTableRequest, update_table, created_table, create_table, holds_label,
  labels_clash, commit_or_label_conflict, assert_label_free, reject_label, reject_capacity,
  reject_section, reject_int,
}

any_of-In :
    (p : Table → Bool) (ts : List Table) → any_of p ts ≡ true → (t : Table) × In t ts × (p t ≡ true)
any_of-In p [] h = cc
any_of-In p (t ∷ ts) h = elim (Bool-cases (p t)) [
  | inl hit ↦ (t, inl refl, hit)
  | inr miss ↦ let (u, m, q) = any_of-In p ts (rw miss at h) in (u, inr m, q)
]

none_of :
    (p : Table → Bool) (ts : List Table) (t : Table) → any_of p ts ≡ false → In t ts → p t ≡ false
none_of p [] t h m = absurd m
none_of p (u ∷ ts) t h (inl q) = ground (arith, ap p q)
none_of p (u ∷ ts) t h (inr m) = ground (arith, none_of p ts t)

any_of-append :
    (p : Table → Bool) (ts : List Table) (new : Table)
    → any_of p ts ≡ false
    → p new ≡ false
    → any_of p (ts ++ new ∷ []) ≡ false
any_of-append p [] new h q = rw q refl
any_of-append p (t ∷ ts) new h q = ground (arith, any_of-append p ts new)

holds_label_comm :
    (t u : Table)
    → holds_label u.branch_id u.label t ≡ false
    → holds_label t.branch_id t.label u ≡ false
holds_label_comm t u h =
    ground
      (arith, text_eq_comm t.label u.label, (==_iff u.branch_id t.branch_id).0, ==-self u.branch_id)

-- A row whose label is free joins without a clash.
labels_clash-append :
    (ts : List Table) (new : Table)
    → labels_clash ts ≡ false
    → any_of (holds_label new.branch_id new.label) ts ≡ false
    → labels_clash (ts ++ new ∷ []) ≡ false
unfolding labels_clash
labels_clash-append [] new h free = refl
labels_clash-append (t ∷ ts) new h free = ground (
  arith,
  labels_clash-append ts new,
  holds_label_comm t new,
  any_of-append (holds_label t.branch_id t.label) ts new,
)

any_of-unexcluded :
    (p : Table → Bool) (ts : List Table) → any_of (λ t. p t && true) ts ≡ any_of p ts
any_of-unexcluded p [] = refl
any_of-unexcluded p (t ∷ ts) = ground (arith, any_of-unexcluded p ts)

-- The checks of the fields pass on a legal table, which leaves the label.
create_table-checked :
    (env : Env) (db : Db) (payload : CreateTableRequest) (new_id : ℕ)
    → IsLegal (created_table env payload new_id)
    → create_table env db payload new_id ≡ (do
      assert_label_free db env.default_branch_id payload.label none
      let row = created_table env payload new_id
      db' ← commit_or_label_conflict (record db { tables = db.tables ++ row ∷ [] })
      ok (db', row))
unfolding create_table reject_label reject_capacity reject_section reject_int
create_table-checked env db payload new_id legal = elim (Option-cases payload.section) [
  | inl no_section ↦ elim (Option-cases payload.sort_order) [
    | inl no_place ↦ ground arith
    | inr (n, place) ↦ ground arith
  ]
  | inr (section, given) ↦ elim (Option-cases payload.sort_order) [
    | inl no_place ↦ ground arith
    | inr (n, place) ↦ ground arith
  ]
]

-- How the creation of a legal table can end.
abbrev pub CreateCases : Env → Db → CreateTableRequest → ℕ → Type 0
CreateCases env db payload new_id =
    ((t : Table) × In t db.tables
      × (t.branch_id ≡ env.default_branch_id)
      × (t.label ≡ payload.label)
      × (create_table env db payload new_id ≡ err (app_error conflict none nothing)))
    ⊎ (((t : Table)
          → In t db.tables
          → t.branch_id ≡ env.default_branch_id
          → t.label ≢ payload.label)
        × (create_table env db payload new_id
            ≡ ok (
              record db { tables = db.tables ++ created_table env payload new_id ∷ [] },
              created_table env payload new_id,
            )))

-- With unique labels in the store, the creation of a table within its bounds is refused exactly
-- when a table of the branch, hidden or not, has the label; otherwise it appends the table.
pub create_table-cases :
    (env : Env) (db : Db) (payload : CreateTableRequest) (new_id : ℕ)
    → labels_clash db.tables ≡ false
    → IsLegal (created_table env payload new_id)
    → CreateCases env db payload new_id
unfolding assert_label_free commit_or_label_conflict
create_table-cases env db payload new_id unique legal =
    let holds = holds_label env.default_branch_id payload.label in
    let new = created_table env payload new_id in
    elim (Bool-cases (any_of (holds_label env.default_branch_id payload.label) db.tables)) [
      | inl taken ↦
          let (t, m, q) = any_of-In holds db.tables taken in
          inl (
            t,
            m,
            ground (arith, (==_iff t.branch_id env.default_branch_id).0),
            ground (arith, (text_eq_iff t.label payload.label).0),
            create_table-checked env db payload new_id legal
                ∙ ground (arith, any_of-unexcluded holds db.tables),
          )
      | inr free ↦ inr (
        (λ t m b l. ground (
          arith,
          none_of holds db.tables t,
          (==_iff t.branch_id env.default_branch_id).1,
          (text_eq_iff t.label payload.label).1,
        )),
        create_table-checked env db payload new_id legal
            ∙ ground (
              arith,
              any_of-unexcluded holds db.tables,
              labels_clash-append db.tables new unique free,
            ),
      )
    ]

-- An update of a table within its bounds that succeeds writes that one row, keeps its id, status
-- and branch, stays within the bounds, and leaves labels unique in every branch.
pub update_table-commits :
    (db db' : Db) (row new : Table) (payload : UpdateTableRequest)
    → IsLegal row
    → update_table db row payload ≡ ok (db', new)
    → (db' ≡ save_table new db) × SameSeat new row × (labels_clash db'.tables ≡ false) × IsLegal new
update_table-commits db db' row new payload legal h =
    let (written, same, unique, bounds) = update_table-ok db db' row new payload h in
    (written, same, unique, bounds legal)
