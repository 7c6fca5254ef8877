-- ===== src/Invariant/Tables.antt =====
-- The requests on tables keep the invariants.
use table_queue.Common.{
  ℕ, ◌≡◌, ◌≢◌, refl, sym, ◌∙◌, true, false, Option, none, some, arith, inl, inr, Option-cases,
  ==_iff, ==-self, ap, subst, Bool-cases, ◌==◌,
}
use table_queue.Models.{WaitlistEntry, Table, Instant, seated, occupied, available, TableStatus}
use table_queue.Store.{
  Db, In, table_key, find_table, save_table, append-Distinct, first-keep, get_row,
  get_row-append_ne, get_row-put_row_self, get_row-put_row_ne, first-keep-none, key-get_row,
}
use table_queue.Waitlist.Dates.{Env}
use table_queue.StaffWaitlist.Payload.{RawId}
use table_queue.Tables.Admin.{
  CreateTableRequest, created_table, create_table, UpdateTableRequest, update_table,
  soft_delete_table,
}
use table_queue.Tables.Staff.{
  update_table_status, release_table, party_at, finish_party, done_entry, is_party_of,
}
use table_queue.Requests.After.{store_after, store_deleted}
use table_queue.Requests.Tables.{
  SameSeat, update_table-ok, create_table-ok, store_after_cases, update_table_status_cases,
  release_cases,
}
use table_queue.Invariant.Defs.{IsSound, IsSeated}
use table_queue.Invariant.Saves.{
  save_entry-IsSound, save_table-IsSound, unseat-IsSeated, SeatHeld-put_row_ne,
}

-- The party at a table is a SEATED row of the store that names it.
pub party_is_seated :
    (db : Db) (k : ℕ) (e : WaitlistEntry)
    → party_at db k ≡ some e
    → In e db.entries × (is_party_of k e ≡ true)
unfolding party_at
party_is_seated db k e found = first-keep (is_party_of k) db.entries e found

pub nobody_sits :
    (db : Db) (k : ℕ) (e : WaitlistEntry)
    → party_at db k ≡ none
    → In e db.entries
    → e.status ≡ seated
    → e.table_id ≢ some k
unfolding party_at
nobody_sits db k e h m sits at =
    let off = first-keep-none (is_party_of k) db.entries e h m in ground (arith, ==-self k)

-- The party that a release finishes.
finish_party-IsSound :
    (db : Db) (now : Instant) → IsSound db → (k : ℕ) → IsSound (finish_party (party_at db k) now db)
unfolding finish_party
finish_party-IsSound db now s k = elim (Option-cases (party_at db k)) [
  | inl empty ↦ rw (empty, finish_party) s
  | inr (e, found) ↦
      let (m, sits) = party_is_seated db k e found in
      let fits = s.rows e m in
      rw (found, finish_party)
        (save_entry-IsSound db e (done_entry e now) s m refl (refl, refl, refl, refl)
          (ground arith))
]

module _ (env : Env) (db : Db) (now : Instant) (s : IsSound db) where
  pub create_table-IsSound :
      (payload : CreateTableRequest) (new_id : ℕ)
      → find_table new_id db ≡ none
      → IsSound (store_after db (create_table env db payload new_id))
  create_table-IsSound payload new_id fresh =
      store_after_cases IsSound db now (create_table env db payload new_id) s λ db' t h.
        let (row, written, _, _) = create_table-ok env db db' payload new_id t h in
        rw written record {
          entry_ids = s.entry_ids;
          table_ids = rw row (
              append-Distinct table_key (created_table env payload new_id) db.tables s.table_ids
                fresh);
          numbers = s.numbers;
          rows = s.rows;
        }

  pub update_table-IsSound :
      (row : Table) (payload : UpdateTableRequest)
      → IsSound (store_after db (update_table db row payload))
  update_table-IsSound row payload =
      store_after_cases IsSound db now (update_table db row payload) s
        λ db' t h. rw ((update_table-ok db db' row t payload h).0) (save_table-IsSound db t s)

  pub soft_delete-IsSound : (row : Table) → IsSound (store_deleted db (soft_delete_table db row))
  unfolding soft_delete_table
  soft_delete-IsSound row =
      ground (arith, save_table-IsSound db (record row { is_active = false }) s)

  pub update_table_status-IsSound :
      (table_id : RawId) (status : Option TableStatus)
      → IsSound (store_after db (update_table_status db table_id status now))
  update_table_status-IsSound table_id status =
      update_table_status_cases IsSound db now table_id status s
        λ k t to named found active settable. save_table-IsSound db (record t { status = to }) s

  pub release-IsSound :
      (table_id : RawId) → IsSound (store_after db (release_table db table_id now))
  unfolding party_at
  release-IsSound table_id = release_cases IsSound db now table_id s λ k t found active full.
      finish_party-IsSound (save_table (record t { status = available }) db) now
        (save_table-IsSound db (record t { status = available }) s) t.id

-- A table that nobody sits at can change in any way.
pub save_table-IsSeated :
    (db : Db) (new : Table)
    → IsSeated db
    → ((e : WaitlistEntry) → In e db.entries → e.status ≡ seated → e.table_id ≢ some new.id)
    → IsSeated (save_table new db)
save_table-IsSeated db new p empty = record {
  seats = λ e m. SeatHeld-put_row_ne db.tables new e (p.seats e m) (empty e m);
  alone = p.alone;
}

same_row : (t u : Table) → some t ≡ some u → t ≡ u
same_row t u h = cc

-- A table that stays OCCUPIED keeps its party.
keep_seat-IsSeated :
    (db : Db) (k : ℕ) (old new : Table)
    → IsSeated db
    → find_table k db ≡ some old
    → SameSeat new old
    → IsSeated (save_table new db)
keep_seat-IsSeated db k old new p found same = record {
  seats = λ e m sits.
      let (j, t, at, there, full) = p.seats e m sits in
      elim (Bool-cases (j == new.id)) [
        | inl here ↦
            let at_k =
              ((==_iff j new.id).0 here) ∙ same.0 ∙ key-get_row table_key k db.tables old found in
            let one =
              same_row t old (sym there ∙ ap (λ i. get_row table_key i db.tables) at_k ∙ found) in
            (
              new.id,
              new,
              at ∙ ap some ((==_iff j new.id).0 here),
              get_row-put_row_self table_key new old db.tables (
                  subst (λ i. find_table i db ≡ some old)
                    (sym (same.0 ∙ key-get_row table_key k db.tables old found)) found),
              same.1 ∙ ap (λ u. u.status) (sym one) ∙ full,
            )
        | inr other ↦ (
          j,
          t,
          at,
          get_row-put_row_ne table_key j new db.tables (λ q. ground (arith, (==_iff j new.id).1))
              ∙ there,
          full,
        )
      ];
  alone = p.alone;
}

module _ (env : Env) (db : Db) (now : Instant) (p : IsSeated db) where
  pub create_table-IsSeated :
      (payload : CreateTableRequest) (new_id : ℕ)
      → find_table new_id db ≡ none
      → IsSeated (store_after db (create_table env db payload new_id))
  create_table-IsSeated payload new_id fresh =
      store_after_cases IsSeated db now (create_table env db payload new_id) p λ db' t h.
        let (row, written, _, _) = create_table-ok env db db' payload new_id t h in
        rw written record {
          seats = λ e m sits.
              let (j, u, at, there, full) = p.seats e m sits in
              (
                j,
                u,
                at,
                get_row-append_ne table_key j t db.tables (λ q. ground (arith, fresh, there))
                    ∙ there,
                full,
              );
          alone = p.alone;
        }

  pub update_table-IsSeated :
      (k : ℕ) (row : Table) (payload : UpdateTableRequest)
      → find_table k db ≡ some row
      → IsSeated (store_after db (update_table db row payload))
  update_table-IsSeated k row payload found =
      store_after_cases IsSeated db now (update_table db row payload) p λ db' t h.
        let (written, same, _, _) = update_table-ok db db' row t payload h in
        rw written (keep_seat-IsSeated db k row t p found same)

  pub soft_delete-IsSeated :
      (k : ℕ) (row : Table)
      → find_table k db ≡ some row
      → IsSeated (store_deleted db (soft_delete_table db row))
  unfolding soft_delete_table
  soft_delete-IsSeated k row found = ground (
    arith,
    keep_seat-IsSeated db k row (record row { is_active = false }) p found (refl, refl, refl),
  )

  -- Nobody sits at a table that is not OCCUPIED.
  unoccupied_is_empty :
      (k : ℕ) (t : Table) (e : WaitlistEntry)
      → find_table k db ≡ some t
      → t.status ≢ occupied
      → In e db.entries
      → e.status ≡ seated
      → e.table_id ≢ some t.id
  unoccupied_is_empty k t e found free m sits at =
      let (j, u, here, there, full) = p.seats e m sits in
      ground (arith, key-get_row table_key k db.tables t found)

  pub update_table_status-IsSeated :
      (table_id : RawId) (status : Option TableStatus)
      → ((k : ℕ) (t : Table) → table_id ≡ some k → find_table k db ≡ some t → t.status ≢ occupied)
      → IsSeated (store_after db (update_table_status db table_id status now))
  update_table_status-IsSeated table_id status free =
      update_table_status_cases IsSeated db now table_id status p
        λ k t to named found active settable.
          save_table-IsSeated db (record t { status = to }) p
            (λ e. unoccupied_is_empty k t e found (free k t named found))

  pub release-IsSeated :
      (table_id : RawId) → IsSeated (store_after db (release_table db table_id now))
  unfolding finish_party
  release-IsSeated table_id = release_cases IsSeated db now table_id p λ k t found active full.
      elim (Option-cases (party_at db t.id)) [
        | inl empty ↦
            rw (empty, finish_party)
              (save_table-IsSeated db (record t { status = available }) p
                (λ e m. nobody_sits db t.id e empty m))
        | inr (e, seen) ↦
            let (m, sits) = party_is_seated db t.id e seen in
            rw (seen, finish_party)
              (unseat-IsSeated db e (done_entry e now) t p m (ground arith) (ground arith) refl
                (λ h. cc))
      ]
