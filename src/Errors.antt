-- ===== src/Errors.antt =====
-- backend/app/errors.py: the coded application error, and the result of a rule that may raise one.
-- The codes and their HTTP statuses are section 11 of _docs/specs.md, which errors.py parses.
use table_queue.Common.{
  ℕ, Bool, true, false, Option, none, some, ◌≡◌, ◌⊎◌, inl, inr, refl, Text, List,
}
use table_queue.Models.{WaitlistStatus, TableStatus}

pub data ErrorCode : Type 0 where
  validation_error waitlist_duplicate_phone waitlist_not_found waitlist_invalid_status : ErrorCode
  waitlist_closed auth_invalid_pin auth_token_expired table_not_found : ErrorCode
  table_not_available conflict rate_limited internal_error store_busy branch_not_found : ErrorCode
  not_found method_not_allowed : ErrorCode

-- `ERROR_CODES`
pub error_codes : ErrorCode → ℕ
error_codes validation_error = 422
error_codes waitlist_duplicate_phone = 409
error_codes waitlist_not_found = 404
error_codes waitlist_invalid_status = 409
error_codes waitlist_closed = 409
error_codes auth_invalid_pin = 401
error_codes auth_token_expired = 401
error_codes table_not_found = 404
error_codes table_not_available = 409
error_codes conflict = 409
error_codes rate_limited = 429
error_codes internal_error = 500
error_codes store_busy = 503
error_codes branch_not_found = 404
error_codes not_found = 404
error_codes method_not_allowed = 405

-- The staff actions that a state can forbid.
pub data Action : Type 0 where
  call seat no_show restore revert cancel edit : Action

pub data Details : Type 0 where
  nothing : Details
  duplicate_of : Text → Details
  forbidden : Action → WaitlistStatus → Details
  taken_table : Text → TableStatus → Details
  no_such_table table_not_active : Details
  field : Text → Details
  rejected : List Text → Details
  id_sets : List ℕ → List ℕ → Details

-- The message is left out: it is wording.
pub record AppError : Type 0 where
  pub code : ErrorCode
  pub status_code : ℕ
  pub details : Details

-- `AppError(code, status_code=…, details=…)`
unfoldable pub app_error : ErrorCode → Option ℕ → Details → AppError
unfolding error_codes
app_error code (some status_code) details = record {
  code = code;
  status_code = status_code;
  details = details;
}
app_error code none details = record {
  code = code;
  status_code = error_codes code;
  details = details;
}

pub data Result {κ} (X : Type κ) : Type κ where
  err : AppError → Result X
  ok : X → Result X

-- A step that raises ends the rule.
infixl 5 ◌>>=◌ ◌>>◌
abbrev pub ◌>>=◌ {κ ι} : {X : Type κ} {Y : Type ι} → Result X → (X → Result Y) → Result Y
err raised >>= rest = err raised
ok x >>= rest = rest x

-- A check answers nothing.
abbrev pub ◌>>◌ {ι} : {Y : Type ι} → Result (Unit {0}) → Result Y → Result Y
check >> rest = check >>= λ _. rest

-- `if not allowed: raise e`
abbrev pub ensure : Bool → AppError → Result (Unit {0})
ensure true e = ok tt
ensure false e = err e

abbrev pub or_raise {ℓ} : {A : Type ℓ} → Option A → AppError → Result A
or_raise none e = err e
or_raise (some a) e = ok a

-- The parts of a sequence that answers.
pub >>=-eq-ok {κ ι} :
    {X : Type κ} {Y : Type ι} (step : Result X) (rest : X → Result Y) {y : Y}
    → (step >>= rest) ≡ ok y
    → (x : X) × (step ≡ ok x) × (rest x ≡ ok y)
>>=-eq-ok (err raised) rest answers = cc
>>=-eq-ok (ok x) rest answers = (x, refl, answers)

-- To split on a computed result and keep the equation.
pub Result-cases {κ} :
    {X : Type κ} (r : Result X) → ((e : AppError) × (r ≡ err e)) ⊎ ((x : X) × (r ≡ ok x))
Result-cases (err e) = inl (e, refl)
Result-cases (ok x) = inr (x, refl)
