-- ===== src/RateLimit/Cap.antt =====
-- The store of counters stays under its cap, and what the cap drops.
use table_queue.Common.{
  ℕ, zero, suc, ◌-◌, ◌≤◌, ◌<◌, ◌≡◌, refl, sym, ap, ◌∙◌, subst, true, false, not, inl, inr, ◌⊎◌,
  List, [], ◌∷◌, Text, text_eq, ltb, length, drop, any_of, arith, Bool-cases,
}
use table_queue.RateLimit.Storage.{
  Dict, keys, drop_key, Counters, Unique, IsPaired, MemoryStorage, sweep, evict, enforce_cap, incr,
  counter_key_cap, Hit, after_hits,
}
use table_queue.RateLimit.Sweep.{live, sweep-storage, sweep-IsPaired, drop_key-first, keep-IsPaired}

drop_none : {A : Type 0} (n : ℕ) (xs : List A) → n ≡ 0 → drop n xs ≡ xs
drop_none n xs e = rw e refl

drop_one_more :
    {A : Type 0} (max_keys : ℕ) (x : A) (xs : List A)
    → max_keys < suc (length xs)
    → drop (length xs - max_keys) xs ≡ drop (suc (length xs) - max_keys) (x ∷ xs)
drop_one_more max_keys x xs h =
    let e : suc (length xs) - max_keys ≡ suc (length xs - max_keys) = omega arith in rw e refl

tail_keys : List Text → List Text
tail_keys [] = []
tail_keys (k ∷ ks) = ks

module _ (parent : MemoryStorage) where
  -- The counter that the loop drops is the first of each dict.
  clear-first :
      (k key : Text) (n expiry : ℕ) (s e : Dict ℕ) (c : Counters)
      → c.storage ≡ (k, n) ∷ s
      → c.expirations ≡ (key, expiry) ∷ e
      → keys ((k, n) ∷ s) ≡ keys ((key, expiry) ∷ e)
      → any_of (λ other. text_eq other key) (keys e) ≡ false
      → ((parent.clear key c).storage ≡ s)
        × ((parent.clear key c).expirations ≡ e)
        × (keys s ≡ keys e)
  unfolding tail_keys
  clear-first k key n expiry s e c cs ce same u =
      let rest : keys s ≡ keys e = ap tail_keys same in
      (
        parent.clear-storage key c
            ∙ ap (drop_key key) cs
            ∙ drop_key-first key (k, n) s (cc)
                (subst (λ ks. any_of (λ other. text_eq other key) ks ≡ false) (sym rest) u),
        parent.clear-expirations key c
            ∙ ap (drop_key key) ce
            ∙ drop_key-first key (key, expiry) e refl u,
        rest,
      )

  evict_over :
      (fuel max_keys : ℕ) (oldest : Text × ℕ) (e : Dict ℕ) (c : Counters)
      → ltb max_keys (length c.storage) ≡ true
      → c.expirations ≡ oldest ∷ e
      → evict parent (suc fuel) max_keys c ≡ evict parent fuel max_keys (parent.clear oldest.0 c)
  unfolding evict
  evict_over fuel max_keys oldest e c over ce = ground arith

  evict_under :
      (fuel max_keys : ℕ) (c : Counters)
      → ltb max_keys (length c.storage) ≡ false
      → evict parent (suc fuel) max_keys c ≡ c
  unfolding evict
  evict_under fuel max_keys c under = ground arith

  evict_lists :
      (fuel max_keys : ℕ) (s e : Dict ℕ) (c : Counters)
      → c.storage ≡ s
      → c.expirations ≡ e
      → keys s ≡ keys e
      → Unique (keys e)
      → length s ≤ fuel
      → (evict parent fuel max_keys c).storage ≡ drop (length s - max_keys) s
  unfolding evict
  evict_lists zero max_keys [] e c cs ce same u enough =
      cs ∙ sym (drop_none (0 - max_keys) [] (omega arith))
  evict_lists zero max_keys (item ∷ s) e c cs ce same u enough = absurd (omega arith)
  evict_lists (suc fuel) max_keys [] e c cs ce same u enough =
      ground (arith, drop_none {A = Text × ℕ} (0 - max_keys) [])
  evict_lists (suc fuel) max_keys (item ∷ s) [] c cs ce same u enough = cc
  evict_lists (suc fuel) max_keys ((k, n) ∷ s) ((key, expiry) ∷ e) c cs ce same u enough =
      let parts = clear-first k key n expiry s e c cs ce same u.0 in
      let ih =
        evict_lists fuel max_keys s e (parent.clear key c) parts.0 parts.1 parts.2 u.1
          (omega arith) in
      elim (Bool-cases (ltb max_keys (length c.storage))) [
        | inl over ↦
            ap (λ d. d.storage) (evict_over fuel max_keys (key, expiry) e c over ce)
            ∙ ih
            ∙ drop_one_more max_keys (k, n) s (ground (arith, ap (length {A = Text × ℕ}) cs))
        | inr under ↦
            ap (λ d. d.storage) (evict_under fuel max_keys c under)
            ∙ cs
            ∙ sym (
                drop_none (suc (length s) - max_keys) ((k, n) ∷ s)
                  (ground (arith, ap (length {A = Text × ℕ}) cs)))
      ]

  -- From paired dicts, the enforcement of the cap keeps exactly the counters whose window is open,
  -- less the oldest of them by which they exceed the cap.
  pub enforce_cap-keeps_newest :
      (now : ℕ) (c : Counters)
      → IsPaired c
      → let kept = live now c.expirations c.storage in
        (enforce_cap parent now c).storage ≡ drop (length kept - counter_key_cap) kept
  unfolding enforce_cap
  enforce_cap-keeps_newest now c h =
      let swept = sweep-IsPaired now c h in
      evict_lists (length (sweep now c).storage) counter_key_cap (sweep now c).storage
        (sweep now c).expirations (sweep now c) refl refl swept.same_keys swept.unique (omega arith)
      ∙ ap (λ kept. drop (length kept - counter_key_cap) kept) (sweep-storage now c)

first-cases :
    (e : Dict ℕ) → (e ≡ []) ⊎ ((oldest : Text × ℕ) × (rest : Dict ℕ) × (e ≡ oldest ∷ rest))
first-cases [] = inl refl
first-cases (oldest ∷ rest) = inr (oldest, rest, refl)

length-drop : {A : Type 0} (n : ℕ) (xs : List A) → length (drop n xs) ≡ length xs - n
length-drop zero xs = omega arith
length-drop (suc n) [] = omega arith
length-drop (suc n) (x ∷ xs) = omega (arith, length-drop n xs)

module _ (parent : MemoryStorage) where
  clear-IsPaired : (key : Text) (c : Counters) → IsPaired c → IsPaired (parent.clear key c)
  unfolding drop_key
  clear-IsPaired key c h =
      keep-IsPaired (λ k. not (text_eq k key)) c (parent.clear key c) h (parent.clear-storage key c)
        (parent.clear-expirations key c)

  evict_bare :
      (fuel max_keys : ℕ) (c : Counters)
      → c.expirations ≡ []
      → evict parent (suc fuel) max_keys c ≡ c
  unfolding evict
  evict_bare fuel max_keys c ends = ground arith

  evict-IsPaired :
      (fuel max_keys : ℕ) (c : Counters) → IsPaired c → IsPaired (evict parent fuel max_keys c)
  unfolding evict
  evict-IsPaired zero max_keys c h = h
  evict-IsPaired (suc fuel) max_keys c h = elim (Bool-cases (ltb max_keys (length c.storage))) [
    | inr under ↦ subst IsPaired (sym (evict_under parent fuel max_keys c under)) h
    | inl over ↦ elim (first-cases c.expirations) [
      | inl ends ↦ subst IsPaired (sym (evict_bare fuel max_keys c ends)) h
      | inr found ↦
          subst IsPaired (sym (evict_over parent fuel max_keys found.0 found.1 c over found.2))
            (evict-IsPaired fuel max_keys (parent.clear found.0.0 c) (clear-IsPaired found.0.0 c h))
    ]
  ]

  incr-IsPaired :
      (now : ℕ) (key : Text) (expiry amount : ℕ) (c : Counters)
      → IsPaired c
      → IsPaired (incr parent now key expiry amount c).0
  unfolding incr enforce_cap
  incr-IsPaired now key expiry amount c h =
      evict-IsPaired _ counter_key_cap _
        (sweep-IsPaired now _ (parent.incr-IsPaired now key expiry amount c h))

  incr-within_cap :
      (now : ℕ) (key : Text) (expiry amount : ℕ) (c : Counters)
      → IsPaired c
      → length (incr parent now key expiry amount c).0.storage ≤ counter_key_cap
  unfolding incr
  incr-within_cap now key expiry amount c h =
      let counted = (parent.incr now key expiry amount c).0 in
      let kept = live now counted.expirations counted.storage in
      omega (
        arith,
        ap length (
            enforce_cap-keeps_newest parent now counted
              (parent.incr-IsPaired now key expiry amount c h)),
        length-drop (length kept - counter_key_cap) kept,
      )

  -- From paired dicts within the cap, the counters are at most 10,000 after any sequence of
  -- increments.
  pub after_hits-within_cap :
      (hits : List Hit) (c : Counters)
      → IsPaired c
      → length c.storage ≤ counter_key_cap
      → length (after_hits parent hits c).storage ≤ counter_key_cap
  unfolding after_hits
  after_hits-within_cap [] c h within = within
  after_hits-within_cap (hit ∷ hits) c h within =
      after_hits-within_cap hits _ (incr-IsPaired hit.now hit.key hit.expiry hit.amount c h)
        (incr-within_cap hit.now hit.key hit.expiry hit.amount c h)
