-- ===== src/App/Fixture.antt =====
-- What a reset leaves.
use table_queue.Common.{
  ℕ, ◌≡◌, ◌≢◌, refl, sym, ◌∙◌, subst, true, false, some, arith, All, ==-eq-false, ==-self, codes,
  ◌==◌,
}
use table_queue.Models.{WaitlistEntry, Table, seated, occupied}
use table_queue.Errors.{ok}
use table_queue.Store.{Db, All-In, table_key, get_row}
use table_queue.Invariant.Defs.{IsSeated, SeatHeld}
use table_queue.Tables.Admin.{labels_clash}
use table_queue.Waitlist.Dates.{Env}
use table_queue.Config.{AppSettings, development}
use table_queue.Auth.Crypto.{Bcrypt}
use table_queue.App.Seed.{
  Draws, no_rows, seeded_tables, seeded_entries, with_fixture, seed_data, reset_data,
}

-- No id is drawn twice.
abbrev pub AreDistinct : (ℕ → ℕ) → Type 0
AreDistinct draw = (i j : ℕ) → draw i ≡ draw j → i ≡ j

abbrev b1_row : Draws → Table
b1_row draws = record {
  id = draws.table_id 5;
  branch_id = 1;
  label = codes "B1";
  capacity = 4;
  section = some (codes "B");
  sort_order = 5;
  status = occupied;
  is_active = true;
}

-- If the entry is SEATED then it is the seventh.
abbrev IsGrace : Draws → WaitlistEntry → Type 0
IsGrace draws e = e.status ≡ seated → e.id ≡ draws.entry_id 7

module _ (env : Env) (draws : Draws) (distinct : AreDistinct draws.table_id) where
  other_id : (i j : ℕ) → i ≢ j → (draws.table_id i == draws.table_id j) ≡ false
  other_id i j ne = ==-eq-false (draws.table_id i) (draws.table_id j) (λ e. ne (distinct i j e))

  b1_found : get_row table_key (draws.table_id 5) (seeded_tables draws) ≡ some (b1_row draws)
  unfolding get_row
  b1_found =
      rw
        (
          other_id 1 5 (omega arith),
          other_id 2 5 (omega arith),
          other_id 3 5 (omega arith),
          other_id 4 5 (omega arith),
          ==-self (draws.table_id 5),
        )
        refl

  -- Grace alone is SEATED.
  seats : All (SeatHeld (seeded_tables draws)) (seeded_entries env draws)
  seats = (
    λ h. cc,
    (
      λ h. cc,
      (
        λ h. cc,
        (
          λ h. cc,
          (
            λ h. cc,
            (
              λ h. cc,
              (
                λ _. (draws.table_id 5, b1_row draws, refl, b1_found, refl),
                (λ h. cc, (λ h. cc, tt)),
              ),
            ),
          ),
        ),
      ),
    ),
  )

  only-IsGrace : All (IsGrace draws) (seeded_entries env draws)
  only-IsGrace = (
    λ h. cc,
    (λ h. cc, (λ h. cc, (λ h. cc, (λ h. cc, (λ h. cc, (λ _. refl, (λ h. cc, (λ h. cc, tt)))))))),
  )

  module _ (bcrypt : Bcrypt) (settings : AppSettings) where
    fixture : Db
    fixture = with_fixture env bcrypt settings draws no_rows

    fixture-IsSeated : IsSeated fixture
    unfolding fixture with_fixture
    fixture-IsSeated = record {
      seats = λ e m. All-In (SeatHeld (seeded_tables draws)) (seeded_entries env draws) e seats m;
      alone = λ e f m n h.
          All-In (IsGrace draws) (seeded_entries env draws) e only-IsGrace m h.0
          ∙ sym (All-In (IsGrace draws) (seeded_entries env draws) f only-IsGrace n h.1);
    }

    reset_answers : (db db' : Db) → reset_data env bcrypt settings draws db ≡ ok db' → fixture ≡ db'
    unfolding reset_data fixture seed_data
    reset_answers db db' h = ground arith

    reset_allowed :
        (db db' : Db)
        → reset_data env bcrypt settings draws db ≡ ok db'
        → settings.env ≡ development
    unfolding reset_data
    reset_allowed db db' h = ground arith

    -- With distinct draws of the tables' ids, a reset that succeeds ran in development and leaves
    -- the fixture alone, where the one SEATED party sits at an OCCUPIED table of its own and no
    -- label stands twice.
    pub reset_data-IsSeated :
        (db db' : Db)
        → reset_data env bcrypt settings draws db ≡ ok db'
        → (settings.env ≡ development)
          × (db' ≡ with_fixture env bcrypt settings draws no_rows)
          × IsSeated db'
          × (labels_clash db'.tables ≡ false)
    unfolding fixture with_fixture labels_clash
    reset_data-IsSeated db db' h =
        let at : fixture ≡ db' = reset_answers db db' h in
        (
          reset_allowed db db' h,
          sym at,
          subst IsSeated at fixture-IsSeated,
          subst (λ d. labels_clash d.tables ≡ false) at refl,
        )
