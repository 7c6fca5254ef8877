-- ===== src/Config.antt =====
-- backend/app/config.py: the settings of the process, read from its environment, and the checks
-- that refuse a weak signing secret and an environment that is not named.
use table_queue.Common.{
  ℕ, Bool, true, false, Option, none, some, List, [], ◌∷◌, Text, codes, text_eq, ltb, strip, length,
  any_of, if◌then◌else◌, ◌≡◌, ◌≤◌, ◌<◌, ◌⊎◌, arith, strip-strip,
}

pub data Environment : Type 0 where
  development test production : Environment

-- The fields that the modelled code reads.
pub record AppSettings : Type 0 where
  pub jwt_secret : Text
  pub jwt_expire_hours : ℕ
  pub staff_pin : Text
  pub default_branch_id : ℕ
  pub trusted_proxies : Text
  pub env : Environment
  pub hsts_enabled : Bool

abbrev pub published_jwt_secrets : List Text
published_jwt_secrets = codes "change-me-in-production" ∷ codes "test-secret-key" ∷ []

abbrev pub jwt_secret_min_length : ℕ
jwt_secret_min_length = 32

-- The secret that the settings keep, or a refusal.
unfoldable pub reject_weak_jwt_secret : Text → Option Text
reject_weak_jwt_secret value =
    let secret = strip value in
    if ltb (length secret) 1
    then none
    else if any_of (text_eq secret) published_jwt_secrets
    then none
    else if ltb (length secret) jwt_secret_min_length
    then none
    else some secret

pub reject_weak_jwt_secret-keeps :
    (value secret : Text)
    → reject_weak_jwt_secret value ≡ some secret
    → (strip value ≡ secret)
      × (strip secret ≡ secret)
      × (32 ≤ length secret)
      × (any_of (text_eq secret) published_jwt_secrets ≡ false)
unfolding reject_weak_jwt_secret
reject_weak_jwt_secret-keeps value secret h = ground (arith, strip-strip value)

pub reject_weak_jwt_secret-refuses :
    (value : Text)
    → reject_weak_jwt_secret value ≡ none
    → (length (strip value) < 32) ⊎ (any_of (text_eq (strip value)) published_jwt_secrets ≡ true)
unfolding reject_weak_jwt_secret
reject_weak_jwt_secret-refuses value h = ground arith
