-- ===== src/SettingsService/Answer.antt =====
-- What a partial update answers and leaves.
use table_queue.Common.{
  ℕ, ◌≡◌, refl, sym, ap, subst, ◌∙◌, Bool, true, false, inl, inr, Option, none, some, List, [], ◌∷◌,
  Text, first, keep, ◌==◌, arith, Bool-cases,
}
use table_queue.Models.{Settings, Branch, Restaurant}
use table_queue.Errors.{Result-cases, AppError, ok, err}
use table_queue.Store.{
  Db, find_branch, get_row, put_row, restaurant_key, settings_key, branch_key, save_settings,
  save_branch, save_restaurant, first-keep, get_row-put_row_self, key-get_row,
}
use table_queue.Waitlist.Dates.{Env}
use table_queue.Schemas.Settings.{UpdateSettingsRequest, Templates}
use table_queue.SettingsService.Templates.{Loaded, object, dumps, parse_templates}
use table_queue.SettingsService.Update.{
  SettingsResponse, settings_row, is_of_branch, find_restaurant, response_of, read_settings,
  written, written_templates, written_row, written_branch, check_templates, write_branch,
  write_restaurant, apply_update,
}

-- The field after the body: what the body names, or what was there.
abbrev pub given_or_shown : Option (Option Text) → Option Text → Option Text
given_or_shown (some (some value)) shown = some value
given_or_shown (some none) shown = shown
given_or_shown none shown = shown

-- The answer before with the fields that the body names.
abbrev pub overlaid : UpdateSettingsRequest → SettingsResponse → SettingsResponse
overlaid body shown = record shown {
  address = given_or_shown body.address shown.address;
  avg_seat_minutes = written body.avg_seat_minutes shown.avg_seat_minutes;
  branch_name = written body.branch_name shown.branch_name;
  close_time = given_or_shown body.close_time shown.close_time;
  hold_minutes = written body.hold_minutes shown.hold_minutes;
  is_waitlist_open = written body.is_waitlist_open shown.is_waitlist_open;
  notification_templates = written body.notification_templates shown.notification_templates;
  open_time = given_or_shown body.open_time shown.open_time;
  phone = given_or_shown body.phone shown.phone;
  queue_prefix = written body.queue_prefix shown.queue_prefix;
  restaurant_name = written body.restaurant_name shown.restaurant_name;
  sound_enabled_default = written body.sound_enabled_default shown.sound_enabled_default;
}

-- The row that the filter finds, written back, is the row that it finds then.
first-put_row :
    {A : Type 0} (key : A → ℕ) (test : A → Bool) (new row : A) (rows : List A)
    → first (keep test rows) ≡ some row
    → key row ≡ key new
    → test new ≡ true
    → first (keep test (put_row key new rows)) ≡ some new
unfolding put_row
first-put_row key test new row [] h k t = cc
first-put_row key test new row (x ∷ rows) h k t = elim (Bool-cases (key x == key new)) [
  | inl same ↦ rw same (rw t refl)
  | inr other ↦ rw other (elim (Bool-cases (test x)) [
    | inl kept ↦ absurd (found_is_new kept other)
    | inr skipped ↦ rw skipped (first-put_row key test new row rows (ground arith) k t)
  ])
]
  where
    found_is_new : test x ≡ true → (key x == key new) ≡ false → ⊥
    found_is_new kept other = ground arith

get_row-put_row_of :
    {A : Type 0} (key : A → ℕ) (k : ℕ) (old new : A) (rows : List A)
    → get_row key k rows ≡ some old
    → key new ≡ key old
    → get_row key k (put_row key new rows) ≡ some new
get_row-put_row_of key k old new rows h same =
    let e : key new ≡ k = same ∙ key-get_row key k rows old h in
    subst (λ i. get_row key i (put_row key new rows) ≡ some new) e
      (get_row-put_row_self key new old rows (subst (λ i. get_row key i rows ≡ some old) (sym e) h))

-- The parser reads back the text that the update stores.
abbrev pub ReadsBack : (Text → Loaded) → Option (Option Templates) → Type 0
ReadsBack loads (some (some templates)) = loads (dumps templates) ≡ object templates
ReadsBack loads (some none) = Unit
ReadsBack loads none = Unit

parse_written :
    (loads : Text → Loaded) (given : Option (Option Templates)) (stored : Text) (shown : Templates)
    → ReadsBack loads given
    → parse_templates loads stored ≡ ok shown
    → parse_templates loads (written_templates given stored) ≡ ok (written given shown)
unfolding parse_templates
parse_written loads none stored shown b h = h
parse_written loads (some none) stored shown b h = h
parse_written loads (some (some templates)) stored shown b h = rw (b, parse_templates) refl

shown_field :
    (given : Option (Option Text)) (stored : Text)
    → given_or_shown given (some stored) ≡ some (written given stored)
shown_field none stored = refl
shown_field (some none) stored = refl
shown_field (some (some value)) stored = refl

module _ (env : Env) (loads : Text → Loaded) where
  read_parts :
      (db : Db) (row : Settings) (branch : Branch) (restaurant : Restaurant)
      (shown : SettingsResponse)
      → settings_row env db ≡ ok row
      → find_branch row.branch_id db ≡ some branch
      → find_restaurant branch.restaurant_id db ≡ some restaurant
      → read_settings env loads db ≡ ok shown
      → (templates : Templates) × (parse_templates loads row.notification_templates ≡ ok templates)
        × (response_of row (some branch) (some restaurant) templates ≡ shown)
  unfolding read_settings
  read_parts db row branch restaurant shown hr hb hs h =
      elim (Result-cases (parse_templates loads row.notification_templates)) [
        | inl bad ↦ absurd (fails bad.1)
        | inr found ↦ (found.0, found.1, answers found.0 found.1)
      ]
    where
      fails : {e : AppError} → parse_templates loads row.notification_templates ≡ err e → ⊥
      fails bad = ground arith

      answers :
          (t : Templates)
          → parse_templates loads row.notification_templates ≡ ok t
          → response_of row (some branch) (some restaurant) t ≡ shown
      answers t e = ground arith

  read-ok :
      (db : Db) (row : Settings) (branch : Branch) (restaurant : Restaurant) (templates : Templates)
      → settings_row env db ≡ ok row
      → find_branch row.branch_id db ≡ some branch
      → find_restaurant branch.restaurant_id db ≡ some restaurant
      → parse_templates loads row.notification_templates ≡ ok templates
      → read_settings env loads db ≡ ok (response_of row (some branch) (some restaurant) templates)
  unfolding read_settings
  read-ok db row branch restaurant templates hr hb hs h = ground arith

  -- The store after the writes.
  module _ (db : Db) (row : Settings) (branch : Branch) (restaurant : Restaurant)
      (body : UpdateSettingsRequest) (hr : settings_row env db ≡ ok row)
      (hb : find_branch row.branch_id db ≡ some branch)
      (hs : find_restaurant branch.restaurant_id db ≡ some restaurant) where
    renamed : Restaurant
    renamed = record restaurant { name = written body.restaurant_name restaurant.name }

    abbrev branched : Db
    branched = save_branch (written_branch body branch) (save_settings (written_row body row) db)

    row_found : first (keep (is_of_branch env) db.settings) ≡ some row
    unfolding settings_row
    row_found = ground arith

    found_row : settings_row env branched ≡ ok (written_row body row)
    unfolding settings_row
    found_row =
        rw
          (first-put_row settings_key (is_of_branch env) (written_row body row) row db.settings
            row_found refl (first-keep (is_of_branch env) db.settings row row_found).1)
          refl

    found_branch : find_branch row.branch_id branched ≡ some (written_branch body branch)
    found_branch =
        get_row-put_row_of branch_key row.branch_id branch (written_branch body branch) db.branches
          hb refl

    write_restaurant-ok :
        (name : Option (Option Text))
        → body.restaurant_name ≡ name
        → (db' : Db) × (write_restaurant body (some branch) branched ≡ ok db')
          × (settings_row env db' ≡ ok (written_row body row))
          × (find_branch row.branch_id db' ≡ some (written_branch body branch))
          × (find_restaurant branch.restaurant_id db' ≡ some renamed)
    unfolding write_restaurant renamed settings_row
    write_restaurant-ok none e = (branched, rw e refl, found_row, found_branch, rw e hs)
    write_restaurant-ok (some name) e =
        (save_restaurant renamed branched, assigned name e, found_row, found_branch, found_name)
      where
        assigned :
            (given : Option Text)
            → body.restaurant_name ≡ some given
            → write_restaurant body (some branch) branched ≡ ok (save_restaurant renamed branched)
        assigned given at_name = ground arith

        found_name :
            find_restaurant branch.restaurant_id (save_restaurant renamed branched) ≡ some renamed
        found_name =
            get_row-put_row_of restaurant_key branch.restaurant_id restaurant renamed db.restaurants
              hs refl

    -- When the settings row, its branch and its restaurant are there, the row can be read, and the
    -- body's templates are valid and read back by the parser, a partial update succeeds; its
    -- answer, and a read after it, is the answer before with just the fields that the body names
    -- replaced.
    pub apply_update-answers :
        (shown : SettingsResponse)
        → read_settings env loads db ≡ ok shown
        → check_templates body.notification_templates ≡ ok tt
        → ReadsBack loads body.notification_templates
        → (db' : Db) × (apply_update env loads db body ≡ ok (db', overlaid body shown))
          × (read_settings env loads db' ≡ ok (overlaid body shown))
    unfolding apply_update write_branch renamed
    apply_update-answers shown before valid back =
        let old = read_parts db row branch restaurant shown hr hb hs before in
        let written_to = write_restaurant-ok body.restaurant_name refl in
        let after : read_settings env loads written_to.0 ≡ ok (overlaid body shown) =
          read-ok written_to.0 (written_row body row) (written_branch body branch) renamed
            (written body.notification_templates old.0) written_to.2 written_to.3 written_to.4
            (parse_written loads body.notification_templates row.notification_templates old.0 back
              old.1)
          ∙ ap ok (overlay old.0 ∙ ap (overlaid body) old.2) in
        (written_to.0, applied written_to.0 written_to.1 after, after)
      where
        overlay :
            (t : Templates)
            → response_of
                (written_row body row)
                (some (written_branch body branch))
                (some renamed)
                (written body.notification_templates t)
              ≡ overlaid body (response_of row (some branch) (some restaurant) t)
        overlay t =
            rw
              (
                shown_field body.address branch.address,
                shown_field body.close_time branch.close_time,
                shown_field body.open_time branch.open_time,
                shown_field body.phone branch.phone,
              )
              refl

        applied :
            (db' : Db)
            → write_restaurant body (some branch) branched ≡ ok db'
            → read_settings env loads db' ≡ ok (overlaid body shown)
            → apply_update env loads db body ≡ ok (db', overlaid body shown)
        applied db' w r = ground arith
