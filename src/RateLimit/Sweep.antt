-- ===== src/RateLimit/Sweep.antt =====
-- What the sweep of closed windows leaves of the counters.
use table_queue.Common.{
  ℕ, ◌≡◌, refl, sym, ap, ◌∙◌, subst, Bool, true, false, not, ◌&&◌, inl, inr, List, [], ◌∷◌, Text,
  text_eq, text_eq_self, leb, keep, any_of, arith, Bool-cases, if◌then◌else◌,
}
use table_queue.RateLimit.Storage.{
  Dict, keys, drop_key, Counters, Unique, IsPaired, without, sweep_counters, sweep, cut_events,
}

-- The dict holds the key with a window that has closed.
abbrev pub is_closed : ℕ → Dict ℕ → Text → Bool
is_closed now expirations key = any_of (λ item. text_eq key item.0 && leb item.1 now) expirations

keep-keep :
    {A : Type 0} (p q : A → Bool) (xs : List A) → keep p (keep q xs) ≡ keep (λ x. q x && p x) xs
keep-keep p q [] = refl
keep-keep p q (x ∷ xs) = ground (arith, keep-keep p q xs)

keep-all :
    {A : Type 0} (p : A → Bool) (xs : List A) → any_of (λ x. not (p x)) xs ≡ false → keep p xs ≡ xs
keep-all p [] h = refl
keep-all p (x ∷ xs) h = ground (arith, keep-all p xs)

-- The items whose key the sweep of `expirations` spares.
abbrev pub live : {V : Type 0} → ℕ → Dict ℕ → Dict V → Dict V
live now expirations = keep (λ item. not (is_closed now expirations item.0))

live-cons :
    {V : Type 0} (now : ℕ) (key : Text) (expiry : ℕ) (rest : Dict ℕ) (d : Dict V)
    → live now rest (if leb expiry now then drop_key key d else d)
      ≡ live now ((key, expiry) ∷ rest) d
unfolding drop_key
live-cons now key expiry rest [] = ground arith
live-cons now key expiry rest (item ∷ d) = ground (arith, live-cons now key expiry rest d)

without_parts :
    (past : Bool) (key : Text) (c : Counters)
    → ((if past then without key c else c).storage
        ≡ (if past then drop_key key c.storage else c.storage))
      × ((if past then without key c else c).expirations
          ≡ (if past then drop_key key c.expirations else c.expirations))
without_parts true key c = (refl, refl)
without_parts false key c = (refl, refl)

sweep_counters-live :
    (now : ℕ) (snapshot : Dict ℕ) (c : Counters)
    → ((sweep_counters now snapshot c).storage ≡ live now snapshot c.storage)
      × ((sweep_counters now snapshot c).expirations ≡ live now snapshot c.expirations)
unfolding sweep_counters
sweep_counters-live now [] c = (
  sym (keep-all (λ _. true) c.storage (none_of c.storage)),
  sym (keep-all (λ _. true) c.expirations (none_of c.expirations)),
)
  where
    none_of : (d : Dict ℕ) → any_of (λ _. false) d ≡ false
    none_of [] = refl
    none_of (x ∷ d) = none_of d
sweep_counters-live now ((key, expiry) ∷ rest) c =
    let past = leb expiry now in
    let ih = sweep_counters-live now rest (if past then without key c else c) in
    (
      ih.0
          ∙ ap (live now rest) (without_parts past key c).0
          ∙ live-cons now key expiry rest c.storage,
      ih.1
          ∙ ap (live now rest) (without_parts past key c).1
          ∙ live-cons now key expiry rest c.expirations,
    )

keys-keep :
    {V : Type 0} (p : Text → Bool) (d : Dict V) → keys (keep (λ item. p item.0) d) ≡ keep p (keys d)
keys-keep p [] = refl
keys-keep p (item ∷ d) = ground (arith, keys-keep p d)

any_of-keep :
    (p q : Text → Bool) (ks : List Text) → any_of q ks ≡ false → any_of q (keep p ks) ≡ false
any_of-keep p q [] h = refl
any_of-keep p q (k ∷ ks) h = ground (arith, any_of-keep p q ks)

keep-Unique : (p : Text → Bool) (ks : List Text) → Unique ks → Unique (keep p ks)
keep-Unique p [] h = tt
keep-Unique p (k ∷ ks) h = elim (Bool-cases (p k)) [
  | inl e ↦ rw e (any_of-keep p _ ks h.0, keep-Unique p ks h.1)
  | inr e ↦ rw e (keep-Unique p ks h.1)
]

-- Both dicts lose the same keys.
pub keep-IsPaired :
    (p : Text → Bool) (c d : Counters)
    → IsPaired c
    → d.storage ≡ keep (λ item. p item.0) c.storage
    → d.expirations ≡ keep (λ item. p item.0) c.expirations
    → IsPaired d
keep-IsPaired p c d h s e = record {
  same_keys =
      ap keys s
      ∙ keys-keep p c.storage
      ∙ ap (keep p) h.same_keys
      ∙ sym (keys-keep p c.expirations)
      ∙ sym (ap keys e);
  unique =
      subst Unique (sym (ap keys e ∙ keys-keep p c.expirations))
        (keep-Unique p (keys c.expirations) h.unique);
}

pub sweep-storage :
    (now : ℕ) (c : Counters) → (sweep now c).storage ≡ live now c.expirations c.storage
unfolding sweep
sweep-storage now c =
    (sweep_counters-live now c.expirations (record c { events = cut_events now c.events })).0

pub sweep-IsPaired : (now : ℕ) (c : Counters) → IsPaired c → IsPaired (sweep now c)
unfolding sweep
sweep-IsPaired now c h =
    let parts =
      sweep_counters-live now c.expirations (record c { events = cut_events now c.events }) in
    keep-IsPaired (λ k. not (is_closed now c.expirations k)) c (sweep now c) h parts.0 parts.1

drop_key-others :
    {V : Type 0} (key : Text) (d : Dict V)
    → any_of (λ other. text_eq other key) (keys d) ≡ false
    → drop_key key d ≡ d
unfolding drop_key
drop_key-others key [] h = refl
drop_key-others key (item ∷ d) h = ground (arith, drop_key-others key d)

pub drop_key-first :
    {V : Type 0} (key : Text) (item : Text × V) (d : Dict V)
    → item.0 ≡ key
    → any_of (λ other. text_eq other key) (keys d) ≡ false
    → drop_key key (item ∷ d) ≡ d
unfolding drop_key
drop_key-first key item d e h = rw (e, text_eq_self key) (drop_key-others key d h)
