-- ===== src/Auth/Credentials.antt =====
-- The stored credential: backend/app/routers/auth.py, from `_settings_row` to `_pin_matches`.
use table_queue.Common.{
  Bool, true, false, not, Option, none, some, List, [], ◌∷◌, ◌++◌, Text, codes, ltb, strip, first,
  if◌then◌else◌,
}
use table_queue.Models.{Settings}
use table_queue.Errors.{Result, or_raise, app_error, internal_error, nothing}
use table_queue.Store.{Db}
use table_queue.Auth.Crypto.{Bcrypt}

unfoldable pub settings_row : Db → Result Settings
settings_row db = or_raise (first db.settings) (app_error internal_error none nothing)

-- `select … from settings order by id limit 1`
unfoldable pub lowest_row : List Settings → Option Settings
lowest_row [] = none
lowest_row (row ∷ rows) = elim (lowest_row rows) [
  | none ↦ some row
  | some low ↦ some (if ltb low.id row.id then low else row)
]

abbrev pub initial_token_generation : Text
initial_token_generation = codes "initial"

-- `(stored or "").strip()`
abbrev pub stripped_or_empty : Option Text → Text
stripped_or_empty none = []
stripped_or_empty (some stored) = strip stored

abbrev pub is_empty : Text → Bool
is_empty [] = true
is_empty (c ∷ s) = false

abbrev pub generation_of : Settings → Text
generation_of row =
    let value = stripped_or_empty row.token_generation in
    if is_empty value then initial_token_generation else value

unfoldable pub token_generation_value : Db → Text
unfolding lowest_row
token_generation_value db = elim (lowest_row db.settings) [
  | none ↦ initial_token_generation
  | some row ↦ generation_of row
]

unfoldable pub token_signing_key : Text → Db → Text
token_signing_key jwt_secret db = jwt_secret ++ token_generation_value db

unfoldable pub credential_is_configured : Db → Bool
unfolding lowest_row
credential_is_configured db = elim (lowest_row db.settings) [
  | none ↦ false
  | some row ↦ not (is_empty (stripped_or_empty row.staff_pin_hash))
]

unfoldable pub pin_matches : Bcrypt → Text → Settings → Bool
pin_matches bcrypt pin row =
    let stored = stripped_or_empty row.staff_pin_hash in
    if is_empty stored then false else bcrypt.checkpw pin stored
