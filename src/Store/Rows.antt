-- ===== src/Store/Rows.antt =====
-- Rows found and replaced by their primary key, and the laws of both.
use table_queue.Common.{
  ℕ, ◌≡◌, refl, sym, ap, subst, ◌≢◌, ◌⊎◌, inl, inr, Bool, true, false, Option, none, some, List, [],
  ◌∷◌, ◌++◌, map, arith, ◌==◌, if◌then◌else◌, keep, first, All, Bool-cases, ==_iff, ==-self,
}

module _ {A : Type 0} where
  -- Membership, with the place kept.
  abbrev pub In : A → List A → Type 0
  In a [] = ⊥
  In a (x ∷ xs) = (a ≡ x) ⊎ In a xs

  pub first-keep :
      (test : A → Bool) (xs : List A) (a : A)
      → first (keep test xs) ≡ some a
      → In a xs × (test a ≡ true)
  first-keep test [] a h = cc
  first-keep test (x ∷ xs) a h = ground (arith, first-keep test xs a)

  pub first-keep-none :
      (test : A → Bool) (xs : List A) (a : A)
      → first (keep test xs) ≡ none
      → In a xs
      → test a ≡ false
  first-keep-none test [] a h m = absurd m
  first-keep-none test (x ∷ xs) a h (inl e) = ground arith
  first-keep-none test (x ∷ xs) a h (inr m) = ground (arith, first-keep-none test xs a)

  pub In-keep :
      (test : A → Bool) (xs : List A) (a : A) → In a xs → test a ≡ true → In a (keep test xs)
  In-keep test [] a m h = m
  In-keep test (x ∷ xs) a (inl e) h = ground arith
  In-keep test (x ∷ xs) a (inr m) h = ground (arith, In-keep test xs a m h)

  pub In-keep_of :
      (test : A → Bool) (xs : List A) (a : A) → In a (keep test xs) → In a xs × (test a ≡ true)
  In-keep_of test [] a m = absurd m
  In-keep_of test (x ∷ xs) a m = ground (arith, In-keep_of test xs a)

  pub All-In {κ} : (P : A → Type κ) (xs : List A) (a : A) → All P xs → In a xs → P a
  All-In P [] a h m = absurd m
  All-In P (x ∷ xs) a h (inl e) = rw e h.0
  All-In P (x ∷ xs) a h (inr m) = All-In P xs a h.1 m

pub In-map : {A B : Type 0} (f : A → B) (xs : List A) (a : A) → In a xs → In (f a) (map f xs)
In-map f [] a m = absurd m
In-map f (x ∷ xs) a (inl e) = inl (ap f e)
In-map f (x ∷ xs) a (inr m) = inr (In-map f xs a m)

module _ {A : Type 0} (key : A → ℕ) where
  -- `db.get(Model, k)`
  unfoldable pub get_row : ℕ → List A → Option A
  get_row k [] = none
  get_row k (x ∷ xs) = if key x == k then some x else get_row k xs

  -- The row of `a`'s key becomes `a`.
  unfoldable pub put_row : A → List A → List A
  put_row a [] = []
  put_row a (x ∷ xs) = (if key x == key a then a else x) ∷ put_row a xs

  -- The primary key: no two rows share it.
  abbrev pub Distinct : List A → Type 0
  Distinct [] = Unit
  Distinct (x ∷ xs) = (get_row (key x) xs ≡ none) × Distinct xs

  pub key-get_row : (k : ℕ) (xs : List A) (a : A) → get_row k xs ≡ some a → key a ≡ k
  unfolding get_row
  key-get_row k [] a h = cc
  key-get_row k (x ∷ xs) a h = ground (arith, key-get_row k xs a)

  -- A found row is what its own key finds.
  pub get_row_key :
      (k : ℕ) (xs : List A) (a : A) → get_row k xs ≡ some a → get_row (key a) xs ≡ some a
  get_row_key k xs a h = subst (λ i. get_row i xs ≡ some a) (sym (key-get_row k xs a h)) h

  pub get_row-In : (k : ℕ) (xs : List A) (a : A) → get_row k xs ≡ some a → In a xs
  unfolding get_row
  get_row-In k [] a h = cc
  get_row-In k (x ∷ xs) a h = ground (arith, get_row-In k xs a)

  pub get_row-put_row_ne :
      (k : ℕ) (a : A) (xs : List A) → k ≢ key a → get_row k (put_row a xs) ≡ get_row k xs
  unfolding get_row put_row
  get_row-put_row_ne k a [] h = refl
  get_row-put_row_ne k a (x ∷ xs) h = ground (arith, get_row-put_row_ne k a xs)

  pub get_row-put_row_self :
      (a b : A) (xs : List A)
      → get_row (key a) xs ≡ some b
      → get_row (key a) (put_row a xs) ≡ some a
  unfolding get_row put_row
  get_row-put_row_self a b [] h = cc
  get_row-put_row_self a b (x ∷ xs) h = ground (arith, get_row-put_row_self a b xs)

  pub get_row-put_row-none :
      (k : ℕ) (a : A) (xs : List A) → get_row k xs ≡ none → get_row k (put_row a xs) ≡ none
  unfolding get_row put_row
  get_row-put_row-none k a [] h = refl
  get_row-put_row-none k a (x ∷ xs) h = ground (arith, get_row-put_row-none k a xs)

  pub put_row-Distinct : (a : A) (xs : List A) → Distinct xs → Distinct (put_row a xs)
  unfolding put_row
  put_row-Distinct a [] h = tt
  put_row-Distinct a (x ∷ xs) h = ground (
    arith,
    get_row-put_row-none (key x) a xs,
    get_row-put_row-none (key a) a xs,
    put_row-Distinct a xs,
  )

  pub get_row-append_none :
      (k : ℕ) (a : A) (xs : List A)
      → get_row k xs ≡ none
      → k ≢ key a
      → get_row k (xs ++ a ∷ []) ≡ none
  unfolding get_row
  get_row-append_none k a [] h n = ground arith
  get_row-append_none k a (x ∷ xs) h n = ground (arith, get_row-append_none k a xs)

  pub get_row-append_ne :
      (k : ℕ) (a : A) (xs : List A) → k ≢ key a → get_row k (xs ++ a ∷ []) ≡ get_row k xs
  unfolding get_row
  get_row-append_ne k a [] n = ground arith
  get_row-append_ne k a (x ∷ xs) n = ground (arith, get_row-append_ne k a xs)

  pub get_row-append_self :
      (a : A) (xs : List A) → get_row (key a) xs ≡ none → get_row (key a) (xs ++ a ∷ []) ≡ some a
  unfolding get_row
  get_row-append_self a [] h = ground arith
  get_row-append_self a (x ∷ xs) h = ground (arith, get_row-append_self a xs)

  pub append-Distinct :
      (a : A) (xs : List A) → Distinct xs → get_row (key a) xs ≡ none → Distinct (xs ++ a ∷ [])
  unfolding get_row
  append-Distinct a [] h n = (refl, tt)
  append-Distinct a (x ∷ xs) h n =
      ground (arith, get_row-append_none (key x) a xs, append-Distinct a xs)

  In-get_row-none : (a : A) (xs : List A) → get_row (key a) xs ≡ none → In a xs → ⊥
  unfolding get_row
  In-get_row-none a [] h m = m
  In-get_row-none a (x ∷ xs) h (inl e) = ground (arith, ==-self (key a), ap key e)
  In-get_row-none a (x ∷ xs) h (inr m) = ground (arith, In-get_row-none a xs)

  -- Where keys are distinct, a member is what its key finds.
  pub get_row_of_In : (a : A) (xs : List A) → Distinct xs → In a xs → get_row (key a) xs ≡ some a
  unfolding get_row
  get_row_of_In a [] d m = absurd m
  get_row_of_In a (x ∷ xs) d (inl e) = ground (arith, ==-self (key a), ap key e)
  get_row_of_In a (x ∷ xs) d (inr m) = elim (Bool-cases (key x == key a)) [
    | inl e ↦ absurd (In-get_row-none a xs (rw (sym ((==_iff (key x) (key a)).0 e)) d.0) m)
    | inr e ↦ rw e (get_row_of_In a xs d.1 m)
  ]

  pub All-put_row {κ} :
      (P : A → Type κ) (a : A) (xs : List A) → All P xs → P a → All P (put_row a xs)
  unfolding put_row
  All-put_row P a [] h p = tt
  All-put_row P a (x ∷ xs) h p = elim (Bool-cases (key x == key a)) [
    | inl e ↦ rw e (p, All-put_row P a xs h.1 p)
    | inr e ↦ rw e (h.0, All-put_row P a xs h.1 p)
  ]
