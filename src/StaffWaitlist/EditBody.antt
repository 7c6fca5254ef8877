-- ===== src/StaffWaitlist/EditBody.antt =====
-- The PATCH of an entry: `_json_body` and `edit_waitlist` of backend/app/routers/staff_waitlist.py,
-- with `parse_edit_body` of backend/app/services/staff_waitlist.py. The parser of Python's json is
-- `loads`, and what pydantic reads a JSON value as is part of the value.
use table_queue.Common.{
  ℕ, Bool, not, ◌||◌, Option, none, some, List, [], ◌∷◌, Text, codes, text_eq, any_of, keep, map,
  if◌then◌else◌, all_of, leb, ◌==◌, ◌&&◌,
}
use table_queue.Models.{Instant}
use table_queue.Errors.{
  Result, ok, err, ◌>>=◌, ◌>>◌, ensure, AppError, app_error, validation_error, rejected,
}
use table_queue.Store.{Db}
use table_queue.Schemas.Settings.{within}
use table_queue.StaffWaitlist.Payload.{RawId, EntryPayload}
use table_queue.StaffWaitlist.Actions.{EditFields, edit_entry}

-- A JSON value of an object: null, or a value with the integer and the string that pydantic takes
-- it for. An integer below zero is below every bound, as 0 is.
pub data EditValue : Type 0 where
  null : EditValue
  value : Option ℕ → Option Text → EditValue

-- An object is its items, with distinct keys.
pub data EditBody : Type 0 where
  object : List (Text × EditValue) → EditBody
  not_object : EditBody

-- What `bytes.strip` takes off.
abbrev is_byte_space : ℕ → Bool
is_byte_space c = (leb 9 c && leb c 13) || c == 32

-- `raw` is the bytes of the body, blank ones included; `none` is a body that is blank or a JSON
-- null. Bytes that are no JSON are read as the string "".
unfoldable pub json_body : (Text → Option (Option EditBody)) → Text → Option EditBody
json_body loads raw =
    let loaded = loads raw in
    if all_of is_byte_space raw
    then none
    else (elim loaded [ some body ↦ body | none ↦ some not_object ])

abbrev party_size_key : Text
party_size_key = codes "party_size"

abbrev note_key : Text
note_key = codes "note"

abbrev pub has_item : Text → List (Text × EditValue) → Bool
has_item key items = any_of (λ item. text_eq item.0 key) items

abbrev pub is_edit_key : Text → Bool
is_edit_key key = text_eq key party_size_key || text_eq key note_key

unfoldable pub edit_validation_errors : List Text → AppError
edit_validation_errors fields = app_error validation_error (some 422) (rejected fields)

-- The value of a key; a key that is not there has the default, None.
unfoldable pub value_of : Text → List (Text × EditValue) → EditValue
value_of key [] = null
value_of key (item ∷ items) = if text_eq item.0 key then item.1 else value_of key items

-- What a field binds to, `none` where the model refuses it.
abbrev pub bound_party_size : EditValue → Option (Option ℕ)
bound_party_size null = some none
bound_party_size (value none text) = none
bound_party_size (value (some n) text) = if within 1 20 n then some (some n) else none

abbrev pub bound_note : EditValue → Option (Option Text)
bound_note null = some none
bound_note (value number none) = none
bound_note (value number (some text)) = some (some text)

abbrev pub bound_edit : Option (Option ℕ) → Option (Option Text) → Result EditFields
bound_edit (some party_size) (some text) = ok (record { party_size = party_size; note = text })
bound_edit (some party_size) none = err (edit_validation_errors (note_key ∷ []))
bound_edit none (some text) = err (edit_validation_errors (party_size_key ∷ []))
bound_edit none none = err (edit_validation_errors (party_size_key ∷ note_key ∷ []))

abbrev pub unknown_keys : List (Text × EditValue) → List Text
unknown_keys items = keep (λ key. not (is_edit_key key)) (map (λ item. item.0) items)

abbrev pub known_only : List Text → Result (Unit {0})
known_only [] = ok tt
known_only (key ∷ keys) = err (edit_validation_errors (key ∷ []))

unfoldable pub parse_edit_body : Option EditBody → Result EditFields
unfolding value_of
parse_edit_body none = ok (record { party_size = none; note = none })
parse_edit_body (some not_object) = err (edit_validation_errors (codes "body" ∷ []))
parse_edit_body (some (object items)) = do
  ensure (not (has_item (codes "status") items)) (edit_validation_errors (codes "status" ∷ []))
  known_only (unknown_keys items)
  bound_edit (bound_party_size (value_of party_size_key items))
      (bound_note (value_of note_key items))

-- The body is parsed before the entry is looked up.
unfoldable pub edit_waitlist :
    (Text → Option (Option EditBody)) → Db → RawId → Text → Instant → Result (Db × EntryPayload)
edit_waitlist loads db entry_id raw now = do
  fields ← parse_edit_body (json_body loads raw)
  edit_entry db entry_id fields now
