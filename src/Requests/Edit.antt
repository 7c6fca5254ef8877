-- ===== src/Requests/Edit.antt =====
-- What an accepted edit names and writes.
use table_queue.Common.{
  ℕ, ◌≡◌, ◌≢◌, ◌≤◌, refl, sym, ap, ◌∙◌, subst, true, false, not, Option, none, some, List, [], ◌∷◌,
  Text, codes, All, arith, Bool-cases, Option-cases, inl, inr, leb→le, &&-eq-true,
}
use table_queue.Models.{WaitlistEntry, Instant, status_in}
use table_queue.Errors.{ok, >>=-eq-ok, ensure}
use table_queue.Store.{
  Db, find_entry, save_entry, entry_key, get_row_key, get_row-put_row_self, get_row-put_row_ne,
  key-get_row,
}
use table_queue.Schemas.Settings.{within}
use table_queue.StaffWaitlist.Filter.{editable_statuses}
use table_queue.StaffWaitlist.Payload.{RawId, EntryPayload, get_entry}
use table_queue.StaffWaitlist.Actions.{EditFields, edited_entry, edit_entry}
use table_queue.StaffWaitlist.EditBody.{
  EditBody, EditValue, object, not_object, null, value, json_body, parse_edit_body, edit_waitlist,
  is_edit_key, has_item, unknown_keys, known_only, bound_party_size, bound_edit, value_of,
}

-- The body names no key but the two of an edit.
abbrev pub NamesEditKeys : Option EditBody → Type 0
NamesEditKeys none = Unit
NamesEditKeys (some not_object) = ⊥
NamesEditKeys (some (object items)) = All (λ item. is_edit_key item.0 ≡ true) items

abbrev pub IsPartySize : Option ℕ → Type 0
IsPartySize none = Unit
IsPartySize (some n) = (1 ≤ n) × (n ≤ 20)

known :
    (items : List (Text × EditValue))
    → known_only (unknown_keys items) ≡ ok tt
    → All (λ item. is_edit_key item.0 ≡ true) items
known [] h = tt
known (item ∷ items) h = elim (Bool-cases (is_edit_key item.0)) [
  | inl known_key ↦ (known_key, known items (ground arith))
  | inr other ↦ absurd (refuses other)
]
  where
    refuses : is_edit_key item.0 ≡ false → ⊥
    refuses other = ground arith

size_bound : (v : EditValue) (n : Option ℕ) → bound_party_size v ≡ some n → IsPartySize n
size_bound null n h = let absent : none ≡ n = cc in subst IsPartySize absent tt
size_bound (value none text) n h = cc
size_bound (value (some k) text) n h = elim (Bool-cases (within 1 20 k)) [
  | inl fits ↦
      let (low, high) = &&-eq-true fits in
      subst IsPartySize (bound fits) (leb→le 1 k low, leb→le k 20 high)
  | inr other ↦ absurd (refuses other)
]
  where
    bound : within 1 20 k ≡ true → some k ≡ n
    bound fits = ground arith

    refuses : within 1 20 k ≡ false → ⊥
    refuses other = ground arith

abbrev edit_of : Option ℕ → Option Text → EditFields
edit_of n t = record { party_size = n; note = t }

bound_edit_size :
    (size : Option (Option ℕ)) (note_ : Option (Option Text)) (fields : EditFields)
    → bound_edit size note_ ≡ ok fields
    → size ≡ some fields.party_size
bound_edit_size (some n) (some t) fields h =
    let e : edit_of n t ≡ fields = cc in ap (λ (f : EditFields). some f.party_size) e
bound_edit_size (some n) none fields h = cc
bound_edit_size none (some t) fields h = cc
bound_edit_size none none fields h = cc

pub parse_edit_body-ok :
    (body : Option EditBody) (fields : EditFields)
    → parse_edit_body body ≡ ok fields
    → NamesEditKeys body × IsPartySize fields.party_size
unfolding parse_edit_body
parse_edit_body-ok none fields h =
    let e : edit_of none none ≡ fields = cc in
    (tt, subst (λ (f : EditFields). IsPartySize f.party_size) e tt)
parse_edit_body-ok (some not_object) fields h = cc
parse_edit_body-ok (some (object items)) fields h =
    let (u, a, h1) = >>=-eq-ok (ensure (not (has_item (codes "status") items)) _) _ h in
    let (v, b, h2) = >>=-eq-ok (known_only (unknown_keys items)) _ h1 in
    (
      known items b,
      size_bound (value_of (codes "party_size") items) fields.party_size
          (bound_edit_size _ _ fields h2),
    )

-- The row that an accepted edit found, and what it wrote.
pub record Edited (db db' : Db) (entry_id : RawId) (body : Option EditBody) (now : Instant)
    : Type 0 where
  pub fields : EditFields
  pub id : ℕ
  pub entry : WaitlistEntry
  pub named : entry_id ≡ some id
  pub found : find_entry id db ≡ some entry
  pub editable : status_in entry.status editable_statuses ≡ true
  pub parsed : parse_edit_body body ≡ ok fields
  pub keys : NamesEditKeys body
  pub size : IsPartySize fields.party_size
  pub wrote : find_entry id db' ≡ some (edited_entry entry fields now)
  pub others : (k : ℕ) → k ≢ id → find_entry k db' ≡ find_entry k db
  pub same_tables : db'.tables ≡ db.tables

edit_parts :
    (db db' : Db) (entry_id : RawId) (fields : EditFields) (now : Instant) (answer : EntryPayload)
    → edit_entry db entry_id fields now ≡ ok (db', answer)
    → (i : ℕ) × (e : WaitlistEntry) × (entry_id ≡ some i)
      × (find_entry i db ≡ some e)
      × (status_in e.status editable_statuses ≡ true)
      × (db' ≡ save_entry (edited_entry e fields now) db)
unfolding edit_entry get_entry
edit_parts db db' none fields now answer h = cc
edit_parts db db' (some i) fields now answer h = elim (Option-cases (find_entry i db)) [
  | inl missing ↦ ground arith
  | inr (e, found) ↦ (i, e, refl, found, ground arith, ground arith)
]

-- An edit over HTTP that succeeds has a body that is absent or an object with no key but
-- party_size and note, and a party size, if any, from 1 to 20; it found a WAITING or CALLED entry
-- under its id, wrote that row with the fields of the body and the clock, and changed no other
-- entry and no table.
pub edit_waitlist-Edited :
    (loads : Text → Option (Option EditBody)) (db db' : Db) (entry_id : RawId) (raw : Text)
    (now : Instant) (answer : EntryPayload)
    → edit_waitlist loads db entry_id raw now ≡ ok (db', answer)
    → Edited db db' entry_id (json_body loads raw) now
unfolding edit_waitlist
edit_waitlist-Edited loads db db' entry_id raw now answer h =
    let (fields, parsed, h1) = >>=-eq-ok (parse_edit_body (json_body loads raw)) _ h in
    let (i, e, named, found, editable, at) = edit_parts db db' entry_id fields now answer h1 in
    let (keys, size) = parse_edit_body-ok (json_body loads raw) fields parsed in
    let i_is = key-get_row entry_key i db.entries e found in
    record {
      fields = fields;
      id = i;
      entry = e;
      named = named;
      found = found;
      editable = editable;
      parsed = parsed;
      keys = keys;
      size = size;
      wrote =
          subst (λ d. find_entry i d ≡ some (edited_entry e fields now)) (sym at)
            (subst
              (λ k.
                find_entry k (save_entry (edited_entry e fields now) db)
                ≡ some (edited_entry e fields now))
              i_is
              (get_row-put_row_self entry_key (edited_entry e fields now) e db.entries
                (get_row_key entry_key i db.entries e found)));
      others = λ k ne.
          subst (λ d. find_entry k d ≡ find_entry k db) (sym at)
            (get_row-put_row_ne entry_key k (edited_entry e fields now) db.entries
              (λ p. ne (p ∙ i_is)));
      same_tables = ap (λ d. d.tables) at;
    }
