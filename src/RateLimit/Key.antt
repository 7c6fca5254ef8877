-- ===== src/RateLimit/Key.antt =====
-- `get_rate_limit_key`: the client that spends the budget.
use table_queue.Common.{
  ℕ, not, Option, none, some, List, [], ◌∷◌, map, Text, codes, text_eq, ◌==◌, strip, keep, any_of,
  if◌then◌else◌,
}
use table_queue.Config.{AppSettings}
use table_queue.Auth.Credentials.{is_empty}

-- `s.split(sep)` for one character
unfoldable pub split_on : ℕ → Text → List Text
split_on sep [] = [] ∷ []
split_on sep (c ∷ s) = elim (split_on sep s) [
  | [] ↦ []
  | part ∷ parts ↦ if c == sep then [] ∷ part ∷ parts else (c ∷ part) ∷ parts
]

-- The set of the configured proxies.
unfoldable pub trusted_hosts : Text → List Text
trusted_hosts trusted_proxies =
    keep (λ part. not (is_empty part)) (map strip (split_on b',' trusted_proxies))

abbrev first_part : List Text → Text
first_part [] = []
first_part (part ∷ parts) = part

abbrev header_text : Option Text → Text
header_text none = []
header_text (some value) = value

unfoldable pub first_hop : Option Text → Text
first_hop forwarded = strip (first_part (split_on b',' (header_text forwarded)))

-- `request.client.host`
abbrev pub host_of : Option Text → Text
host_of none = codes "unknown"
host_of (some host) = host

unfoldable pub get_rate_limit_key : AppSettings → Option Text → Option Text → Text
unfolding trusted_hosts
get_rate_limit_key settings client forwarded =
    if any_of (text_eq (host_of client)) (trusted_hosts settings.trusted_proxies)
    then if is_empty (first_hop forwarded) then host_of client else first_hop forwarded
    else host_of client
