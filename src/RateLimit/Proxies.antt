-- ===== src/RateLimit/Proxies.antt =====
-- Who decides the key of a request: the connection, or a proxy that the configuration names.
use table_queue.Common.{
  ℕ, ◌≡◌, refl, ap, ◌∙◌, false, not, ◌&&◌, inl, inr, Option, List, [], ◌∷◌, ◌++◌, map, Text,
  text_eq, ◌==◌, strip, keep, any_of, All, arith, Bool-cases, ==-self, if◌then◌else◌,
}
use table_queue.Config.{AppSettings}
use table_queue.Auth.Credentials.{is_empty}
use table_queue.RateLimit.Key.{split_on, trusted_hosts, first_hop, host_of, get_rate_limit_key}

-- `sep.join(parts)`
unfoldable pub join_with : ℕ → List Text → Text
join_with sep [] = []
join_with sep (part ∷ []) = part
join_with sep (part ∷ next ∷ parts) = part ++ sep ∷ join_with sep (next ∷ parts)

-- A host as the setting names it: some characters, no separator, no space around.
abbrev pub IsHost : Text → Type 0
IsHost host = (is_empty host ≡ false) × (any_of (λ c. c == b',') host ≡ false) × (strip host ≡ host)

split_on-parts :
    (sep : ℕ) (s : Text) → (part : Text) × (parts : List Text) × (split_on sep s ≡ part ∷ parts)
unfolding split_on
split_on-parts sep [] = ([], [], refl)
split_on-parts sep (c ∷ s) = elim (Bool-cases (c == sep)) [
  | inl cut ↦ let rest = split_on-parts sep s in ([], rest.0 ∷ rest.1, rw (rest.2, cut) refl)
  | inr other ↦ let rest = split_on-parts sep s in (c ∷ rest.0, rest.1, rw (rest.2, other) refl)
]

split_on-plain : (sep : ℕ) (s : Text) → any_of (λ c. c == sep) s ≡ false → split_on sep s ≡ s ∷ []
unfolding split_on
split_on-plain sep [] h = refl
split_on-plain sep (c ∷ s) h = ground (arith, split_on-plain sep s)

split_on-append :
    (sep : ℕ) (s t : Text)
    → any_of (λ c. c == sep) s ≡ false
    → split_on sep (s ++ sep ∷ t) ≡ s ∷ split_on sep t
unfolding split_on
split_on-append sep [] t h = let parts = split_on-parts sep t in rw (parts.2, ==-self sep) refl
split_on-append sep (c ∷ s) t h = ground (arith, split_on-append sep s t)

split_on-join_with :
    (sep : ℕ) (part : Text) (parts : List Text)
    → All (λ p. any_of (λ c. c == sep) p ≡ false) (part ∷ parts)
    → split_on sep (join_with sep (part ∷ parts)) ≡ part ∷ parts
unfolding join_with
split_on-join_with sep part [] h = split_on-plain sep part h.0
split_on-join_with sep part (next ∷ parts) h =
    split_on-append sep part _ h.0 ∙ ap (◌∷◌ part) (split_on-join_with sep next parts h.1)

hosts-no_separator :
    (hosts : List Text) → All IsHost hosts → All (λ p. any_of (λ c. c == b',') p ≡ false) hosts
hosts-no_separator [] h = tt
hosts-no_separator (host ∷ hosts) h = (h.0.1, hosts-no_separator hosts h.1)

hosts-kept :
    (hosts : List Text)
    → All IsHost hosts
    → keep (λ part. not (is_empty part)) (map strip hosts) ≡ hosts
hosts-kept [] h = refl
hosts-kept (host ∷ hosts) h = rw (h.0.2, h.0.0) (ap (◌∷◌ host) (hosts-kept hosts h.1))

-- The setting that names `hosts` trusts them and no other.
trusted_hosts-join_with :
    (hosts : List Text) → All IsHost hosts → trusted_hosts (join_with b',' hosts) ≡ hosts
unfolding trusted_hosts join_with split_on strip
trusted_hosts-join_with [] h = refl
trusted_hosts-join_with (host ∷ hosts) h =
    rw (split_on-join_with b',' host hosts (hosts-no_separator (host ∷ hosts) h))
      (hosts-kept (host ∷ hosts) h)

-- When the setting joins a list of host names by commas, a request is counted under the first hop
-- of its header exactly if its connection comes from one of those hosts and that hop is not blank,
-- and under its own address otherwise.
pub get_rate_limit_key-named :
    (settings : AppSettings) (hosts : List Text) (client forwarded : Option Text)
    → All IsHost hosts
    → settings.trusted_proxies ≡ join_with b',' hosts
    → get_rate_limit_key settings client forwarded ≡ (
        if any_of (text_eq (host_of client)) hosts && not (is_empty (first_hop forwarded))
        then first_hop forwarded
        else host_of client)
unfolding get_rate_limit_key
get_rate_limit_key-named settings hosts client forwarded h e =
    ground (arith, ap trusted_hosts e, trusted_hosts-join_with hosts h)
