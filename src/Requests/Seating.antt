-- ===== src/Requests/Seating.antt =====
-- What the table requests do to a table and its party.
use table_queue.Common.{
  ℕ, ◌≡◌, ◌≢◌, ◌↔◌, sym, ◌∙◌, ap, subst, inl, inr, true, Option, none, some, [], ◌∷◌, arith,
  Option-cases, Text, text_eq_iff,
}
use table_queue.Models.{
  WaitlistEntry, Table, TableStatus, Instant, available, cleaning, occupied, seated,
}
use table_queue.Errors.{ok}
use table_queue.Store.{
  Db, In, table_key, entry_key, find_table, find_entry, save_table, save_entry,
  get_row-put_row_self, get_row_key, In-put_row, get_row_of_In,
}
use table_queue.Waitlist.Dates.{Env}
use table_queue.Waitlist.Lookup.{has_token}
use table_queue.Tables.Staff.{
  update_table_status, release_table, get_active_table, party_at, finish_party, done_entry,
  TablePayload,
}
use table_queue.Public.{resolve_entry}
use table_queue.Requests.Guest.{find_entry_by_token-ok}
use table_queue.Invariant.Tables.{save_table-IsSeated, nobody_sits, party_is_seated}
use table_queue.Invariant.Lifecycle.Runs.{same_id}
use table_queue.Invariant.Defs.{IsSound, IsSeated}

token_fields :
    (number token : Text) (e : WaitlistEntry)
    → has_token number token e ≡ true
    → (e.queue_number ≡ number) × (e.status_token ≡ some token)
token_fields number token e h = elim (Option-cases e.status_token) [
  | inl missing ↦ ground arith
  | inr (held, has) ↦
      ground (arith, (text_eq_iff e.queue_number number).0, (text_eq_iff held token).0)
]

-- An entry that a guest's cancel resolves is a row of the store with the number and with the very
-- token of the request, which is not absent; a phone tail never resolves one.
pub cancel-needs_token :
    (env : Env) (db : Db) (number : Text) (token tail : Option Text) (now : Instant)
    (e : WaitlistEntry)
    → resolve_entry env db number token tail true now ≡ ok e
    → In e db.entries × (e.queue_number ≡ number) × (e.status_token ≡ token) × (token ≢ none)
unfolding resolve_entry
cancel-needs_token env db number none tail now e h = cc
cancel-needs_token env db number (some []) tail now e h = cc
cancel-needs_token env db number (some (c ∷ t)) tail now e h =
    let (m, holds) = find_entry_by_token-ok db number (c ∷ t) e h in
    let (same_number, same_token) = token_fields number (c ∷ t) e holds in
    (m, same_number, same_token, (λ q. cc))

-- What a status set by hand writes.
status_set :
    (db db' : Db) (k : ℕ) (t : Table) (to : TableStatus) (now : Instant) (answer : TablePayload)
    → find_table k db ≡ some t
    → update_table_status db (some k) (some to) now ≡ ok (db', answer)
    → (db' ≡ save_table (record t { status = to }) db) × (to ≢ occupied)
unfolding update_table_status get_active_table
status_set db db' k t available now answer found h = (ground arith, λ q. cc)
status_set db db' k t cleaning now answer found h = (ground arith, λ q. cc)
status_set db db' k t occupied now answer found h = ground arith

abbrev pub IsEmpty : Db → Table → Type 0
IsEmpty db t = (e : WaitlistEntry) → In e db.entries → e.status ≡ seated → e.table_id ≢ some t.id

-- A table that is no longer OCCUPIED holds no party.
unoccupied-IsEmpty :
    (db : Db) (t : Table) (to : TableStatus)
    → find_table t.id db ≡ some t
    → to ≢ occupied
    → IsSeated (save_table (record t { status = to }) db)
    → IsEmpty db t
unoccupied-IsEmpty db t to found free p e m sits at =
    let written = get_row-put_row_self table_key (record t { status = to }) t db.tables found in
    let (k, u, held, there, full) = p.seats e m sits in ground arith

-- From a store where every party sits alone at an OCCUPIED table, a status set by hand that
-- succeeds leaves such a store exactly when nobody is SEATED at its table.
pub update_table_status-seating :
    (db db' : Db) (k : ℕ) (t : Table) (to : TableStatus) (now : Instant) (answer : TablePayload)
    → IsSeated db
    → find_table k db ≡ some t
    → update_table_status db (some k) (some to) now ≡ ok (db', answer)
    → IsSeated db' ↔ IsEmpty db t
update_table_status-seating db db' k t to now answer p found h =
    let (written, free) = status_set db db' k t to now answer found h in
    let there = get_row_key table_key k db.tables t found in
    rw written (
      (λ q. unoccupied-IsEmpty db t to there free q),
      (λ empty. save_table-IsSeated db (record t { status = to }) p empty),
    )

-- What a success of the release leaves of the tests.
released :
    (db db' : Db) (k : ℕ) (t : Table) (now : Instant) (answer : TablePayload)
    → find_table k db ≡ some t
    → release_table db (some k) now ≡ ok (db', answer)
    → (t.status ≡ occupied)
      × (t.is_active ≡ true)
      × (db'
          ≡ finish_party (party_at db t.id) now (save_table (record t { status = available }) db))
unfolding release_table get_active_table
released db db' k t now answer found h = ground arith

-- The table is AVAILABLE, nobody sits at it, and who sat there is DONE.
abbrev pub Freed : Db → Table → Instant → Db → Type 0
Freed db t now db' =
    (find_table t.id db' ≡ some (record t { status = available }))
    × ((e : WaitlistEntry) → In e db'.entries → e.status ≡ seated → e.table_id ≢ some t.id)
    × ((e : WaitlistEntry)
        → In e db.entries
        → e.status ≡ seated
        → e.table_id ≡ some t.id
        → find_entry e.id db' ≡ some (done_entry e now))

Freed-empty :
    (db : Db) (t : Table) (now : Instant)
    → find_table t.id db ≡ some t
    → party_at db t.id ≡ none
    → Freed db t now (save_table (record t { status = available }) db)
Freed-empty db t now found empty = (
  get_row-put_row_self table_key (record t { status = available }) t db.tables found,
  λ e m sits. nobody_sits db t.id e empty m sits,
  λ e m sits at. absurd (nobody_sits db t.id e empty m sits at),
)

Freed-party :
    (db : Db) (t : Table) (now : Instant) (f : WaitlistEntry)
    → IsSound db
    → IsSeated db
    → find_table t.id db ≡ some t
    → party_at db t.id ≡ some f
    → Freed db t now
        (save_entry (done_entry f now) (save_table (record t { status = available }) db))
Freed-party db t now f s p found seen =
    let (n, party) = party_is_seated db t.id f seen in
    let f_sits : f.status ≡ seated = ground arith in
    let f_at : f.table_id ≡ some t.id = ground arith in
    (
      get_row-put_row_self table_key (record t { status = available }) t db.tables found,
      λ e m sits at. elim (In-put_row entry_key (done_entry f now) e db.entries m) [
        | inl q ↦ ground (arith, ap (λ r. r.status) q)
        | inr (m', other) ↦ other (p.alone e f m' n (sits, f_sits, at ∙ sym f_at))
      ],
      λ e m sits at.
          let one = same_id db e f s m n (p.alone e f m n (sits, f_sits, at ∙ sym f_at)) in
          rw one (
            get_row-put_row_self entry_key (done_entry f now) f db.entries
              (get_row_of_In entry_key f db.entries s.entry_ids n)),
    )

-- When rows are sound and every party sits alone at an OCCUPIED table, a release that succeeds
-- found the table OCCUPIED, makes it AVAILABLE, turns the entry that was SEATED at it DONE, and
-- leaves nobody SEATED at it.
pub release_table-frees :
    (db db' : Db) (k : ℕ) (t : Table) (now : Instant) (answer : TablePayload)
    → IsSound db
    → IsSeated db
    → find_table k db ≡ some t
    → release_table db (some k) now ≡ ok (db', answer)
    → (t.status ≡ occupied) × Freed db t now db'
unfolding finish_party
release_table-frees db db' k t now answer s p found h =
    let (full, active, written) = released db db' k t now answer found h in
    let there = get_row_key table_key k db.tables t found in
    let freed : Freed db t now db' = elim (Option-cases (party_at db t.id)) [
      | inl empty ↦
          subst (Freed db t now)
            (sym (
              written
              ∙ ap (λ o. finish_party o now (save_table (record t { status = available }) db))
                  empty))
            (Freed-empty db t now there empty)
      | inr (f, seen) ↦
          subst (Freed db t now)
            (sym (
              written
              ∙ ap (λ o. finish_party o now (save_table (record t { status = available }) db))
                  seen))
            (Freed-party db t now f s p there seen)
    ] in
    (full, freed)
