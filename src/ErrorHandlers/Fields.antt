-- ===== src/ErrorHandlers/Fields.antt =====
-- The details of a refused body: every refused field once, with its first message.
use table_queue.Common.{
  ◌≡◌, refl, ap, ◌∙◌, subst, true, false, Option, none, some, List, [], ◌∷◌, ◌++◌, map, Text,
  text_eq, text_eq_iff, text_eq_comm, keep, first, if◌then◌else◌, arith, inl, inr, Bool-cases,
}
use table_queue.ErrorHandlers.Render.{
  FieldError, flatten_field_names, field_message, has_field, set_default, details_from,
  validation_details,
}

-- `fields.get(field)`
abbrev pub message_of : Text → List (Text × Text) → Option Text
message_of field [] = none
message_of field ((key, message) ∷ fields) =
    if text_eq key field then some message else message_of field fields

abbrev or_first : Option Text → Option Text → Option Text
or_first (some found) other = some found
or_first none other = other

-- No key stands twice.
abbrev pub HasUniqueFields : List (Text × Text) → Type 0
HasUniqueFields [] = Unit
HasUniqueFields ((key, message) ∷ fields) = (has_field key fields ≡ false) × HasUniqueFields fields

message_of-append :
    (field : Text) (fields : List (Text × Text)) (key message : Text)
    → message_of field (fields ++ (key, message) ∷ [])
      ≡ or_first (message_of field fields) (if text_eq key field then some message else none)
message_of-append field [] key message = refl
message_of-append field ((k, m) ∷ fields) key message =
    ground (arith, message_of-append field fields key message)

has_field-message_of :
    (field : Text) (fields : List (Text × Text))
    → has_field field fields ≡ true
    → (m : Text) × (message_of field fields ≡ some m)
has_field-message_of field [] h = cc
has_field-message_of field ((k, m) ∷ fields) h = elim (Bool-cases (text_eq k field)) [
  | inl e ↦ (m, rw e refl)
  | inr e ↦ let r = has_field-message_of field fields (ground arith) in (r.0, rw e r.1)
]

or_none : (found : Option Text) → found ≡ or_first found none
or_none none = refl
or_none (some m) = refl

or_first_assoc : (a b c : Option Text) → or_first (or_first a b) c ≡ or_first a (or_first b c)
or_first_assoc none b c = refl
or_first_assoc (some m) b c = refl

message_of-set_default :
    (field key message : Text) (fields : List (Text × Text))
    → message_of field (set_default key message fields)
      ≡ or_first (message_of field fields) (if text_eq key field then some message else none)
unfolding set_default
message_of-set_default field key message fields = elim (Bool-cases (has_field key fields)) [
  | inr new ↦ rw new (message_of-append field fields key message)
  | inl old ↦ rw old (kept old)
]
  where
    kept :
        has_field key fields ≡ true
        → message_of field fields
          ≡ or_first (message_of field fields) (if text_eq key field then some message else none)
    kept old = elim (Bool-cases (text_eq key field)) [
      | inr e ↦ rw e (or_none (message_of field fields))
      | inl e ↦
          let r = has_field-message_of key fields old in
          let s : message_of field fields ≡ some r.0 =
            subst (λ k. message_of k fields ≡ some r.0) ((text_eq_iff key field).0 e) r.1 in
          rw s refl
    ]

-- The message of the first error of the field.
abbrev pub first_message : Text → List FieldError → Option Text
first_message field errors =
    first (map field_message (keep (λ e. text_eq (flatten_field_names e.loc) field) errors))

first_message-cons :
    (field : Text) (e : FieldError) (errors : List FieldError)
    → or_first
        (if text_eq (flatten_field_names e.loc) field then some (field_message e) else none)
        (first_message field errors)
      ≡ first_message field (e ∷ errors)
first_message-cons field e errors = elim (Bool-cases (text_eq (flatten_field_names e.loc) field)) [
  | inl here ↦ rw here refl
  | inr other ↦ rw other refl
]

message_of-details_from :
    (field : Text) (fields : List (Text × Text)) (errors : List FieldError)
    → message_of field (details_from fields errors)
      ≡ or_first (message_of field fields) (first_message field errors)
unfolding details_from
message_of-details_from field fields [] = or_none (message_of field fields)
message_of-details_from field fields (e ∷ errors) =
    message_of-details_from field (set_default (flatten_field_names e.loc) (field_message e) fields)
      errors
    ∙ ap (λ o. or_first o (first_message field errors))
        (message_of-set_default field (flatten_field_names e.loc) (field_message e) fields)
    ∙ or_first_assoc (message_of field fields)
        (if text_eq (flatten_field_names e.loc) field then some (field_message e) else none)
        (first_message field errors)
    ∙ ap (or_first (message_of field fields)) (first_message-cons field e errors)

has_field-append :
    (field key message : Text) (fields : List (Text × Text))
    → has_field field fields ≡ false
    → text_eq key field ≡ false
    → has_field field (fields ++ (key, message) ∷ []) ≡ false
has_field-append field key message [] h n = rw n refl
has_field-append field key message ((k, m) ∷ fields) h n =
    ground (arith, has_field-append field key message fields)

append-HasUniqueFields :
    (key message : Text) (fields : List (Text × Text))
    → has_field key fields ≡ false
    → HasUniqueFields fields
    → HasUniqueFields (fields ++ (key, message) ∷ [])
append-HasUniqueFields key message [] h u = (refl, tt)
append-HasUniqueFields key message ((k, m) ∷ fields) h u = (
  has_field-append k key message fields u.0 (text_eq_comm key k ∙ parts.0),
  append-HasUniqueFields key message fields parts.1 u.1,
)
  where
    parts : (text_eq k key ≡ false) × (has_field key fields ≡ false)
    parts = ground arith

set_default-HasUniqueFields :
    (key message : Text) (fields : List (Text × Text))
    → HasUniqueFields fields
    → HasUniqueFields (set_default key message fields)
unfolding set_default
set_default-HasUniqueFields key message fields u = elim (Bool-cases (has_field key fields)) [
  | inl old ↦ rw old u
  | inr new ↦ rw new (append-HasUniqueFields key message fields new u)
]

details_from-HasUniqueFields :
    (fields : List (Text × Text)) (errors : List FieldError)
    → HasUniqueFields fields
    → HasUniqueFields (details_from fields errors)
unfolding details_from
details_from-HasUniqueFields fields [] u = u
details_from-HasUniqueFields fields (e ∷ errors) u =
    details_from-HasUniqueFields (set_default (flatten_field_names e.loc) (field_message e) fields)
      errors (set_default-HasUniqueFields (flatten_field_names e.loc) (field_message e) fields u)

-- The details of a refused body name every field once, and give for each the message of its first
-- error and nothing for a field without one.
pub validation_details-first :
    (errors : List FieldError) (field : Text)
    → (message_of field (validation_details errors) ≡ first_message field errors)
      × HasUniqueFields (validation_details errors)
unfolding validation_details
validation_details-first errors field =
    (message_of-details_from field [] errors, details_from-HasUniqueFields [] errors tt)
