-- ===== src/SettingsService/Bounds.antt =====
-- What a settings PATCH keeps: the bounds of the columns, the credential, and every other table.
use table_queue.Common.{
  ℕ, ◌≡◌, refl, sym, ap, subst, ◌∙◌, Bool, true, false, inl, inr, Option, none, some, List, [], ◌∷◌,
  map, Text, codes, first, keep, ◌==◌, arith, Bool-cases, ==_iff,
}
use table_queue.Models.{Settings, Branch}
use table_queue.Errors.{ok, >>=-eq-ok}
use table_queue.Store.{
  Db, find_branch, get_row, put_row, settings_key, save_settings, Every, put_row-Every, first-keep,
  Distinct, get_row_of_In,
}
use table_queue.Waitlist.Dates.{Env}
use table_queue.Schemas.Settings.{
  UpdateSettingsRequest, bound_settings, refused, refused_fields, refusals, is_hold_minutes,
  is_avg_seat_minutes, is_queue_prefix,
}
use table_queue.Schemas.Refusals.{joined-nil, first-name}
use table_queue.SettingsService.Templates.{Loaded}
use table_queue.SettingsService.Update.{
  SettingsResponse, settings_row, is_of_branch, read_settings, written, written_row, write_branch,
  write_restaurant, apply_update, update_admin_settings, check_templates,
}

-- The columns that the request model bounds.
abbrev pub InBounds : Settings → Type 0
InBounds row =
    (is_hold_minutes row.hold_minutes ≡ true)
    × (is_avg_seat_minutes row.avg_seat_minutes ≡ true)
    × (is_queue_prefix row.queue_prefix ≡ true)

-- A field that passes keeps the test of its column.
written-passes :
    {A : Type 0} (name : Text) (test : A → Bool) (given : Option (Option A)) (stored : A)
    → refused name test given ≡ []
    → test stored ≡ true
    → test (written given stored) ≡ true
written-passes name test none stored r h = h
written-passes name test (some none) stored r h = h
written-passes name test (some (some value)) stored r h = elim (Bool-cases (test value)) [
  | inl passes ↦ passes
  | inr fails ↦ absurd (no_name fails)
]
  where
    no_name : test value ≡ false → ⊥
    no_name fails = ground arith

-- The three bounded fields of a body that passes.
passes :
    (body : UpdateSettingsRequest)
    → refused_fields body ≡ []
    → (refused (codes "hold_minutes") is_hold_minutes body.hold_minutes ≡ [])
      × (refused (codes "avg_seat_minutes") is_avg_seat_minutes body.avg_seat_minutes ≡ [])
      × (refused (codes "queue_prefix") is_queue_prefix body.queue_prefix ≡ [])
unfolding refused_fields
passes body h =
    let none_refused = joined-nil (refusals body) h in
    (none_refused.1.1.1.1.0, none_refused.1.0, none_refused.1.1.1.1.1.1.1.1.0)

bound-passes :
    (body bound : UpdateSettingsRequest)
    → bound_settings body ≡ ok bound
    → (refused_fields body ≡ []) × (body ≡ bound)
unfolding bound_settings
bound-passes body bound h = elim (first-name (refused_fields body)) [
  | inl none_refused ↦ (none_refused, bound_is none_refused)
  | inr some_refused ↦ absurd (refuses some_refused.0 some_refused.1 some_refused.2)
]
  where
    bound_is : refused_fields body ≡ [] → body ≡ bound
    bound_is e = ground arith

    refuses : (name : Text) (names : List Text) → refused_fields body ≡ name ∷ names → ⊥
    refuses name names e = ground arith

-- The tables that a write of the branch or of the restaurant leaves.
abbrev SameRows : Db → Db → Type 0
SameRows db db' =
    (db'.settings ≡ db.settings) × (db'.entries ≡ db.entries) × (db'.tables ≡ db.tables)

write_branch-SameRows :
    (body : UpdateSettingsRequest) (branch : Option Branch) (db db' : Db)
    → write_branch body branch db ≡ ok db'
    → SameRows db db'
unfolding write_branch
write_branch-SameRows body none db db' h = ground arith
write_branch-SameRows body (some branch) db db' h = ground arith

write_restaurant-SameRows :
    (body : UpdateSettingsRequest) (branch : Option Branch) (db db' : Db)
    → write_restaurant body branch db ≡ ok db'
    → SameRows db db'
unfolding write_restaurant
write_restaurant-SameRows body none db db' h = ground arith
write_restaurant-SameRows body (some branch) db db' h = ground arith

-- What the login and the check of a bearer read of a row.
abbrev pub credential : Settings → ℕ × Option Text × Option Text
credential row = (row.id, row.staff_pin_hash, row.token_generation)

put_row-absent :
    {A : Type 0} (key : A → ℕ) (a : A) (rows : List A)
    → get_row key (key a) rows ≡ none
    → put_row key a rows ≡ rows
unfolding put_row get_row
put_row-absent key a [] h = refl
put_row-absent key a (x ∷ rows) h = ground (arith, put_row-absent key a rows)

-- A write that keeps what `f` shows of the row keeps it of every row.
map-put_row :
    {A B : Type 0} (key : A → ℕ) (f : A → B) (old new : A) (rows : List A)
    → Distinct key rows
    → get_row key (key new) rows ≡ some old
    → f new ≡ f old
    → map f (put_row key new rows) ≡ map f rows
unfolding put_row get_row
map-put_row key f old new [] d h same = cc
map-put_row key f old new (x ∷ rows) d h same = elim (Bool-cases (key x == key new)) [
  | inr other ↦ rw other (ap (◌∷◌ (f x)) (map-put_row key f old new rows d.1 (rest other) same))
  | inl here ↦ rw here (at_head here)
]
  where
    rest : (key x == key new) ≡ false → get_row key (key new) rows ≡ some old
    rest other = ground arith

    at_head : (key x == key new) ≡ true → f new ∷ map f (put_row key new rows) ≡ f x ∷ map f rows
    at_head here =
        let e : x ≡ old = ground arith in
        let k : key x ≡ key new = (==_iff (key x) (key new)).0 here in
        rw (put_row-absent key new rows (subst (λ i. get_row key i rows ≡ none) k d.0))
          (ap (λ y. y ∷ map f rows) (same ∙ ap f (sym e)))

module _ (env : Env) (loads : Text → Loaded) (db : Db) where
  apply-writes :
      (db' : Db) (body : UpdateSettingsRequest) (response : SettingsResponse)
      → apply_update env loads db body ≡ ok (db', response)
      → (row : Settings) × (first (keep (is_of_branch env) db.settings) ≡ some row)
        × (db'.settings ≡ put_row settings_key (written_row body row) db.settings)
        × (db'.entries ≡ db.entries)
        × (db'.tables ≡ db.tables)
  unfolding apply_update settings_row
  apply-writes db' body response h =
      let (u, checked, h1) = >>=-eq-ok (check_templates body.notification_templates) _ h in
      let (row, found, h2) = >>=-eq-ok (settings_row env db) _ h1 in
      let branch = find_branch row.branch_id db in
      let saved = save_settings (written_row body row) db in
      let (branched, b, h3) = >>=-eq-ok (write_branch body branch saved) _ h2 in
      let (named, n, h4) = >>=-eq-ok (write_restaurant body branch branched) _ h3 in
      let (answer, read, h5) = >>=-eq-ok (read_settings env loads named) _ h4 in
      let at : SameRows saved named =
        kept saved branched named (write_branch-SameRows body branch saved branched b)
          (write_restaurant-SameRows body branch branched named n) in
      let end : named ≡ db' = cc in
      (
        row,
        raised found,
        subst (λ d. d.settings ≡ put_row settings_key (written_row body row) db.settings) end at.0,
        subst (λ d. d.entries ≡ db.entries) end at.1,
        subst (λ d. d.tables ≡ db.tables) end at.2,
      )
    where
      kept : (a b c : Db) → SameRows a b → SameRows b c → SameRows a c
      kept a b c p q = (q.0 ∙ p.0, q.1 ∙ p.1, q.2 ∙ p.2)

      raised :
          {row : Settings}
          → settings_row env db ≡ ok row
          → first (keep (is_of_branch env) db.settings) ≡ some row
      raised found = ground arith

  pub update-writes :
      (db' : Db) (body : UpdateSettingsRequest) (response : SettingsResponse)
      → update_admin_settings env loads db body ≡ ok (db', response)
      → (row : Settings) × (refused_fields body ≡ [])
        × (first (keep (is_of_branch env) db.settings) ≡ some row)
        × (db'.settings ≡ put_row settings_key (written_row body row) db.settings)
        × (db'.entries ≡ db.entries)
        × (db'.tables ≡ db.tables)
  unfolding update_admin_settings
  update-writes db' body response h =
      let (bound, b, h1) = >>=-eq-ok (bound_settings body) _ h in
      let (none_refused, same) = bound-passes body bound b in
      let (row, found, settings, entries, tables) =
        apply-writes db' body response
          (subst (λ u. apply_update env loads db u ≡ ok (db', response)) (sym same) h1) in
      (row, none_refused, found, settings, entries, tables)

  -- A settings PATCH that succeeds keeps every settings row within the bounds of the request
  -- model: hold minutes from 5 to 15, seat minutes from 5 to 60, and a prefix of one to three
  -- capital letters.
  pub update_admin_settings-InBounds :
      (db' : Db) (body : UpdateSettingsRequest) (response : SettingsResponse)
      → Every InBounds db.settings
      → update_admin_settings env loads db body ≡ ok (db', response)
      → Every InBounds db'.settings
  update_admin_settings-InBounds db' body response bounds h =
      let (row, none_refused, found, settings, entries, tables) =
        update-writes db' body response h in
      let (hold, avg, prefix) = passes body none_refused in
      let (held, averaged, prefixed) =
        bounds row (first-keep (is_of_branch env) db.settings row found).0 in
      subst (Every InBounds) (sym settings) (
        put_row-Every settings_key InBounds (written_row body row) db.settings bounds (
          written-passes (codes "hold_minutes") is_hold_minutes body.hold_minutes row.hold_minutes
              hold held,
          written-passes (codes "avg_seat_minutes") is_avg_seat_minutes body.avg_seat_minutes
              row.avg_seat_minutes avg averaged,
          written-passes (codes "queue_prefix") is_queue_prefix body.queue_prefix row.queue_prefix
              prefix prefixed,
        ))

  -- With distinct ids of the settings rows, a settings PATCH that succeeds changes no row's id,
  -- PIN hash or token generation, no entry and no table.
  pub update_admin_settings-keeps :
      (db' : Db) (body : UpdateSettingsRequest) (response : SettingsResponse)
      → Distinct settings_key db.settings
      → update_admin_settings env loads db body ≡ ok (db', response)
      → (map credential db'.settings ≡ map credential db.settings)
        × (db'.entries ≡ db.entries)
        × (db'.tables ≡ db.tables)
  update_admin_settings-keeps db' body response d h =
      let (row, none_refused, found, settings, entries, tables) =
        update-writes db' body response h in
      (
        ap (map credential) settings
            ∙ map-put_row settings_key credential row (written_row body row) db.settings d
                (get_row_of_In settings_key row db.settings d
                  (first-keep (is_of_branch env) db.settings row found).0)
                refl,
        entries,
        tables,
      )
