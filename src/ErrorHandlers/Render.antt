-- ===== src/ErrorHandlers/Render.antt =====
-- The handlers that `register_error_handlers` registers, and the details of a refused body. The
-- messages of the envelopes are wording, and left out.
use table_queue.Common.{
  ℕ, Bool, true, false, ◌&&◌, ◌||◌, Option, none, some, List, [], ◌∷◌, ◌++◌, map, Text, codes,
  text_eq, text_leb, leb, ◌==◌, ◌+◌, any_of, if◌then◌else◌,
}
use table_queue.Errors.{
  AppError, ErrorCode, Details, app_error, rate_limited, internal_error, store_busy, not_found,
  method_not_allowed, nothing,
}
use table_queue.Store.{order_by}

-- A part of pydantic's `loc`: the name of a field or an index.
pub data LocPart : Type 0 where
  name : Text → LocPart
  index : ℕ → LocPart

-- One entry of `exc.errors()`: `ctx` holds the scalars of the context, by their text.
pub record FieldError : Type 0 where
  pub loc : List LocPart
  pub msg : Text
  pub ctx : List (Text × Text)

abbrev named_parts : List LocPart → List Text
named_parts [] = []
named_parts (index i ∷ loc) = named_parts loc
named_parts (name part ∷ loc) =
    if text_eq part (codes "body") then named_parts loc else part ∷ named_parts loc

-- `sep.join(parts)`
unfoldable pub join_text : Text → List Text → Text
join_text sep [] = []
join_text sep (part ∷ []) = part
join_text sep (part ∷ next ∷ parts) = part ++ sep ++ join_text sep (next ∷ parts)

unfoldable pub flatten_field_names : List LocPart → Text
unfolding join_text
flatten_field_names loc = elim (named_parts loc) [
  | [] ↦ codes "body"
  | part ∷ parts ↦ join_text (codes ".") (part ∷ parts)
]

abbrev in_ctx_order : Text × Text → Text × Text → Bool
in_ctx_order a b = if text_eq a.0 b.0 then text_leb a.1 b.1 else text_leb a.0 b.0

-- `str(err.get("msg") or "Invalid value")`
abbrev msg_or_default : Text → Text
msg_or_default [] = codes "Invalid value"
msg_or_default (c ∷ s) = c ∷ s

unfoldable pub field_message : FieldError → Text
unfolding join_text
field_message e = elim (order_by in_ctx_order e.ctx) [
  | [] ↦ msg_or_default e.msg
  | item ∷ items ↦
      msg_or_default e.msg
      ++ codes " ("
      ++ join_text (codes ", ") (map (λ scalar. scalar.0 ++ codes "=" ++ scalar.1) (item ∷ items))
      ++ codes ")"
]

abbrev pub has_field : Text → List (Text × Text) → Bool
has_field field fields = any_of (λ item. text_eq item.0 field) fields

-- `fields.setdefault(field, message)`
unfoldable pub set_default : Text → Text → List (Text × Text) → List (Text × Text)
set_default field message fields =
    if has_field field fields then fields else fields ++ (field, message) ∷ []

unfoldable pub details_from : List (Text × Text) → List FieldError → List (Text × Text)
details_from fields [] = fields
details_from fields (e ∷ errors) =
    details_from (set_default (flatten_field_names e.loc) (field_message e) fields) errors

unfoldable pub validation_details : List FieldError → List (Text × Text)
unfolding details_from
validation_details errors = details_from [] errors

-- `str.lower` where it can meet an ASCII letter: the capitals, and the Kelvin sign.
abbrev lower : ℕ → ℕ
lower c = if leb b'A' c && leb c b'Z' then c + 32 else if c == 8490 then b'k' else c

abbrev starts_with : Text → Text → Bool
starts_with [] s = true
starts_with (c ∷ prefix) [] = false
starts_with (c ∷ prefix) (d ∷ s) = c == d && starts_with prefix s

-- `part in s`
unfoldable pub contains_text : Text → Text → Bool
contains_text part [] = starts_with part []
contains_text part (c ∷ s) = starts_with part (c ∷ s) || contains_text part s

abbrev pub busy_lock_markers : List Text
busy_lock_markers = codes "database is locked" ∷ codes "sqlite_busy" ∷ []

abbrev texts_of : Option Text → Text → List Text
texts_of none text = text ∷ []
texts_of (some orig) text = orig ∷ text ∷ []

-- The texts of the driver's exception, where there is one, and of the exception itself.
unfoldable pub is_store_busy : Option Text → Text → Bool
unfolding contains_text join_text
is_store_busy orig text =
    any_of (λ marker. contains_text marker (map lower (join_text (codes " ") (texts_of orig text))))
      busy_lock_markers

pub data Body : Type 0 where
  envelope : ErrorCode → Details → Body
  refused_fields : List (Text × Text) → Body
  framework_default : Body

pub record ErrorResponse : Type 0 where
  pub status_code : ℕ
  pub body : Body
  pub retry_after : Option ℕ

-- What a route may raise.
pub data Raised : Type 0 where
  app : AppError → Raised
  http_exception : ℕ → Raised
  request_validation : List FieldError → Raised
  rate_limit_exceeded : Raised
  operational : Option Text → Text → Raised
  unhandled : Raised

abbrev enveloped : AppError → Option ℕ → ErrorResponse
enveloped e retry_after = record {
  status_code = e.status_code;
  body = envelope e.code e.details;
  retry_after = retry_after;
}

-- `max(1, int(round(SQLITE_BUSY_TIMEOUT)))`
abbrev pub busy_retry_after : ℕ
busy_retry_after = 5

abbrev pub handle_generic_exception : ErrorResponse
handle_generic_exception = enveloped (app_error internal_error none nothing) none

abbrev rewritten : ℕ → ErrorCode → ErrorResponse
rewritten status code = record {
  status_code = status;
  body = envelope code nothing;
  retry_after = none;
}

unfoldable pub handle_http_exception : ℕ → ErrorResponse
handle_http_exception status =
    if status == 404
    then rewritten status not_found
    else if status == 405
    then rewritten status method_not_allowed
    else record { status_code = status; body = framework_default; retry_after = none }

unfoldable pub handle : Raised → ErrorResponse
unfolding is_store_busy handle_http_exception
handle (app e) = enveloped e none
handle (http_exception status) = handle_http_exception status
handle (request_validation errors) = record {
  status_code = 422;
  body = refused_fields (validation_details errors);
  retry_after = none;
}
handle rate_limit_exceeded = enveloped (app_error rate_limited none nothing) none
handle (operational orig text) =
    if is_store_busy orig text
    then enveloped (app_error store_busy none nothing) (some busy_retry_after)
    else handle_generic_exception
handle unhandled = handle_generic_exception
