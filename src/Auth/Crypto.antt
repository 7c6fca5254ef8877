-- ===== src/Auth/Crypto.antt =====
-- What backend/app/routers/auth.py takes from the packages bcrypt and python-jose: hashing of PINs
-- and signed tokens, with the behaviour that they document.
use table_queue.Common.{ℕ, Bool, true, Option, some, Text, ◌≡◌, ◌≤◌, ◌<◌, length, strip}

-- `hashpw pin salt` is the text of `bcrypt.hashpw(pin, gensalt(rounds=12))` for one drawn salt.
pub record Bcrypt : Type 0 where
  pub hashpw : Text → ℕ → Text
  pub checkpw : Text → Text → Bool
  pub checkpw-hashpw : (pin : Text) (salt : ℕ) → checkpw pin (hashpw pin salt) ≡ true
  -- A hash is printable and not empty.
  pub strip-hashpw : (pin : Text) (salt : ℕ) → strip (hashpw pin salt) ≡ hashpw pin salt
  pub hashpw_pos : (pin : Text) (salt : ℕ) → 0 < length (hashpw pin salt)

-- The payload of a token; a decoded one may lack a claim. Times are seconds.
pub record Claims : Type 0 where
  pub sub : Option Text
  pub role : Option Text
  pub iat : Option ℕ
  pub exp : Option ℕ

-- HS256 tokens. `decode` takes the clock, since it refuses a payload that has expired; `none` is
-- a JWTError.
pub record Jwt : Type 0 where
  pub encode : Claims → Text → Text
  pub decode : ℕ → Text → Text → Option Claims
  pub decode-encode :
      (now exp : ℕ) (claims : Claims) (key : Text)
      → claims.exp ≡ some exp
      → now ≤ exp
      → decode now (encode claims key) key ≡ some claims
  -- A token that was signed with one key verifies under that key only.
  pub decode_key :
      (now : ℕ) (claims found : Claims) (key other : Text)
      → decode now (encode claims key) other ≡ some found
      → key ≡ other
