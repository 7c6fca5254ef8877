-- ===== src/Auth/Tokens.antt =====
-- Which tokens open the staff surface, before and after a rotation of the PIN.
use table_queue.Common.{
  ℕ, ◌+◌, ◌*◌, ◌<◌, ◌≤◌, ◌≡◌, ◌≢◌, refl, sym, ap, inl, inr, true, false, Option, none, some, [],
  ◌∷◌, ◌++◌, Text, strip, length, arith, Bool-cases, Option-cases, ==-self, append_left_injective,
  ◌∙◌, if◌then◌else◌,
}
use table_queue.Models.{Settings}
use table_queue.Errors.{ok, err, >>=-eq-ok, app_error, auth_invalid_pin, nothing}
use table_queue.Store.{Db, settings_key, put_row}
use table_queue.Config.{AppSettings, reject_weak_jwt_secret, reject_weak_jwt_secret-keeps}
use table_queue.Schemas.Pin.{
  ChangePinRequest, is_pin, pin_refused, bound_login, bound_change_pin, bound_change_pin-ok,
}
use table_queue.Auth.Crypto.{Bcrypt, Jwt, Claims}
use table_queue.Auth.Credentials.{
  settings_row, lowest_row, pin_matches, token_signing_key, token_generation_value, generation_of,
  credential_is_configured, stripped_or_empty, is_empty,
}
use table_queue.Auth.Routes.{
  login, verify, get_current_staff, change_pin, rotated, staff_claims, token_expired,
  StaffLoginResponse,
}

-- The store has the one settings row that the start of the process leaves.
abbrev pub HasRow : Db → Settings → Type 0
HasRow db row = db.settings ≡ row ∷ []

settings_row-HasRow : (db : Db) (row : Settings) → HasRow db row → settings_row db ≡ ok row
unfolding settings_row
settings_row-HasRow db row h = rw h refl

generation-HasRow :
    (db : Db) (row : Settings) → HasRow db row → token_generation_value db ≡ generation_of row
unfolding token_generation_value
generation-HasRow db row h = rw (h, lowest_row) refl

configured-HasRow :
    (bcrypt : Bcrypt) (db : Db) (row : Settings) (pin : Text)
    → HasRow db row
    → pin_matches bcrypt pin row ≡ true
    → credential_is_configured db ≡ true
unfolding credential_is_configured pin_matches
configured-HasRow bcrypt db row pin h m = rw (h, lowest_row) (ground arith)

-- The row after a rotation carries the new PIN's hash and the new generation.
put-HasRow :
    (db : Db) (row new : Settings)
    → HasRow db row
    → new.id ≡ row.id
    → put_row settings_key new db.settings ≡ new ∷ []
unfolding put_row
put-HasRow db row new h e = rw h (ground (arith, ==-self row.id))

hash_not_empty : (hash : Text) → 0 < length hash → is_empty hash ≡ false
hash_not_empty [] h = absurd (omega arith)
hash_not_empty (c ∷ s) h = refl

module _ (bcrypt : Bcrypt) (jwt : Jwt) (settings : AppSettings) where
  hashed-matches :
      (pin : Text) (salt : ℕ) (row : Settings)
      → row.staff_pin_hash ≡ some (bcrypt.hashpw pin salt)
      → pin_matches bcrypt pin row ≡ true
  unfolding pin_matches
  hashed-matches pin salt row stored =
      rw (stored, bcrypt.strip-hashpw pin salt)
        (rw (hash_not_empty (bcrypt.hashpw pin salt) (bcrypt.hashpw_pos pin salt))
          (bcrypt.checkpw-hashpw pin salt))

  abbrev lifetime : ℕ
  lifetime = settings.jwt_expire_hours * 3600

  abbrev minted : Db → ℕ → StaffLoginResponse
  minted db now = record {
    access_token =
        jwt.encode (staff_claims now lifetime) (token_signing_key settings.jwt_secret db);
    expires_in = lifetime;
  }

  login_parts :
      (db : Db) (row : Settings) (pin : Text) (now : ℕ) (r : StaffLoginResponse)
      → HasRow db row
      → login bcrypt jwt settings db pin now ≡ ok r
      → (pin_matches bcrypt pin row ≡ true) × (minted db now ≡ r)
  unfolding login bound_login
  login_parts db row pin now r h e = ground (arith, settings_row-HasRow db row h)

  login-answers :
      (db : Db) (row : Settings) (pin : Text) (now : ℕ)
      → HasRow db row
      → pin_matches bcrypt pin row ≡ true
      → login bcrypt jwt settings db pin now
        ≡ (if is_pin pin then ok (minted db now) else err pin_refused)
  unfolding login bound_login
  login-answers db row pin now h m = elim (Bool-cases (is_pin pin)) [
    | inl fits ↦ rw (fits, settings_row-HasRow db row h) (rw m refl)
    | inr refused ↦ rw refused refl
  ]

  -- The secret is one that the configuration accepts.
  module _ (given : Text) (accepted : reject_weak_jwt_secret given ≡ some settings.jwt_secret) where
    stripped : strip settings.jwt_secret ≡ settings.jwt_secret
    stripped = (reject_weak_jwt_secret-keeps given settings.jwt_secret accepted).1

    minted-accepted :
        (db : Db) (row : Settings) (pin : Text) (now later : ℕ)
        → HasRow db row
        → pin_matches bcrypt pin row ≡ true
        → later ≤ now + lifetime
        → get_current_staff jwt (some (minted db now).access_token) settings db later
          ≡ ok (staff_claims now lifetime)
    unfolding get_current_staff verify token_signing_key
    minted-accepted db row pin now later h m within = ground (
      arith,
      stripped,
      configured-HasRow bcrypt db row pin h m,
      jwt.decode-encode later (now + lifetime) (staff_claims now lifetime)
          (settings.jwt_secret ++ token_generation_value db) refl within,
    )

    -- With a secret that the configuration accepts and one settings row, the token of a login that
    -- succeeds opens the staff surface, with the claims of that login, until its lifetime ends.
    pub login-get_current_staff :
        (db : Db) (row : Settings) (pin : Text) (now later : ℕ) (r : StaffLoginResponse)
        → HasRow db row
        → login bcrypt jwt settings db pin now ≡ ok r
        → later ≤ now + r.expires_in
        → get_current_staff jwt (some r.access_token) settings db later
          ≡ ok (staff_claims now r.expires_in)
    login-get_current_staff db row pin now later r h e within =
        let parts = login_parts db row pin now r h e in
        rw (← parts.1) (
          minted-accepted db row pin now later h parts.0
            (omega (arith, ap (λ (x : StaffLoginResponse). x.expires_in) parts.1)))

    -- The login's answer to the PIN whose hash is stored; the token it mints opens the surface.
    pub hashed-login :
        (db : Db) (row : Settings) (pin : Text) (salt now later : ℕ)
        → HasRow db row
        → row.staff_pin_hash ≡ some (bcrypt.hashpw pin salt)
        → later ≤ now + settings.jwt_expire_hours * 3600
        → (r : StaffLoginResponse) × (login bcrypt jwt settings db pin now
            ≡ (if is_pin pin then ok r else err pin_refused))
          × (get_current_staff jwt (some r.access_token) settings db later
              ≡ ok (staff_claims now r.expires_in))
    hashed-login db row pin salt now later h stored within =
        let m = hashed-matches pin salt row stored in
        (
          minted db now,
          login-answers db row pin now h m,
          minted-accepted db row pin now later h m within,
        )

    -- A token of another key verifies under no key of this store.
    foreign-refused :
        (db : Db) (claims : Claims) (key : Text) (now : ℕ)
        → key ≢ settings.jwt_secret ++ token_generation_value db
        → get_current_staff jwt (some (jwt.encode claims key)) settings db now ≡ err token_expired
    unfolding get_current_staff verify
    foreign-refused db claims key now other = elim (Bool-cases (credential_is_configured db)) [
      | inr bare ↦ rw bare refl
      | inl set ↦
          rw (set, stripped)
            (elim (Option-cases (
              jwt.decode now (jwt.encode claims key)
                (settings.jwt_secret ++ token_generation_value db))) [
                  | inl refused ↦ rw refused refl
                  | inr found ↦ absurd (other (jwt.decode_key now claims found.0 key _ found.1))
                ])
    ]

    module _ (db : Db) (row : Settings) (one : HasRow db row) where
      change_pin_parts :
          (staff : Claims) (payload : ChangePinRequest) (salt : ℕ) (generation : Text) (db' : Db)
          → change_pin bcrypt db staff payload salt generation ≡ ok db'
          → HasRow db' (rotated bcrypt row payload.new_pin salt generation)
            × (is_pin payload.new_pin ≡ true)
      unfolding change_pin
      change_pin_parts staff payload salt generation db' e =
          let (bound, binds, e1) = >>=-eq-ok (bound_change_pin payload) _ e in
          let (same, fresh) = bound_change_pin-ok payload bound binds in
          (
            ground (
              arith,
              same,
              settings_row-HasRow db row one,
              put-HasRow db row (rotated bcrypt row payload.new_pin salt generation) one refl,
            ),
            fresh,
          )

      -- With a strong secret and one settings row, after a change of the PIN that succeeds and
      -- draws a generation that is not blank and not the one in force, a token that was signed
      -- before it is refused as expired, whatever it claims.
      pub change_pin-revokes :
          (staff claims : Claims) (payload : ChangePinRequest) (salt now : ℕ) (generation : Text)
          (db' : Db)
          → change_pin bcrypt db staff payload salt generation ≡ ok db'
          → is_empty (strip generation) ≡ false
          → strip generation ≢ token_generation_value db
          → get_current_staff jwt
              (some (jwt.encode claims (token_signing_key settings.jwt_secret db)))
              settings
              db'
              now
            ≡ err token_expired
      unfolding token_signing_key
      change_pin-revokes staff claims payload salt now generation db' e drawn fresh =
          let rotated_value =
            generation-HasRow db' (rotated bcrypt row payload.new_pin salt generation)
              (change_pin_parts staff payload salt generation db' e).0
            ∙ rw drawn refl in
          foreign-refused db' claims (settings.jwt_secret ++ token_generation_value db) now (λ same.
            fresh (sym (append_left_injective settings.jwt_secret _ _ same ∙ rotated_value)))

      -- With a strong secret and one settings row, after a change of the PIN that succeeds, a
      -- login with the new PIN succeeds, and its token opens the staff surface until its lifetime
      -- ends.
      pub change_pin-login :
          (staff : Claims) (payload : ChangePinRequest) (salt now later : ℕ) (generation : Text)
          (db' : Db)
          → change_pin bcrypt db staff payload salt generation ≡ ok db'
          → later ≤ now + settings.jwt_expire_hours * 3600
          → (r : StaffLoginResponse) × (login bcrypt jwt settings db' payload.new_pin now ≡ ok r)
            × (get_current_staff jwt (some r.access_token) settings db' later
                ≡ ok (staff_claims now r.expires_in))
      change_pin-login staff payload salt now later generation db' e within =
          let (one_row, fresh) = change_pin_parts staff payload salt generation db' e in
          let (r, answers, opens) =
            hashed-login db' (rotated bcrypt row payload.new_pin salt generation) payload.new_pin
              salt now later one_row refl within in
          (r, answers ∙ rw fresh refl, opens)

-- A row with no hash, or a blank one, accepts no bearer.
pub no_credential-expired :
    (jwt : Jwt) (settings : AppSettings) (db : Db) (row : Settings) (now : ℕ) (bearer : Option Text)
    → HasRow db row
    → stripped_or_empty row.staff_pin_hash ≡ []
    → get_current_staff jwt bearer settings db now ≡ err token_expired
unfolding get_current_staff verify credential_is_configured
no_credential-expired jwt settings db row now none h bare = refl
no_credential-expired jwt settings db row now (some token) h bare =
    rw (h, lowest_row) (rw bare refl)

-- When the one settings row has no hash or a blank one, every PIN is refused at the login and at
-- the change of the PIN, and every bearer is refused as expired.
pub no_credential-refused :
    (bcrypt : Bcrypt) (jwt : Jwt) (settings : AppSettings) (db : Db) (row : Settings) (pin : Text)
    (now : ℕ) (bearer : Option Text) (payload : ChangePinRequest) (salt : ℕ) (generation : Text)
    → HasRow db row
    → is_pin pin ≡ true
    → bound_change_pin payload ≡ ok payload
    → stripped_or_empty row.staff_pin_hash ≡ []
    → (login bcrypt jwt settings db pin now ≡ err (app_error auth_invalid_pin none nothing))
      × (get_current_staff jwt bearer settings db now ≡ err token_expired)
      × (change_pin bcrypt db (staff_claims now now) payload salt generation
          ≡ err (app_error auth_invalid_pin none nothing))
unfolding login bound_login pin_matches change_pin
no_credential-refused bcrypt jwt settings db row pin now bearer payload salt generation h d binds
      bare =
    (
      rw (d, settings_row-HasRow db row h) (rw bare refl),
      no_credential-expired jwt settings db row now bearer h bare,
      rw (binds, settings_row-HasRow db row h) (rw bare refl),
    )
