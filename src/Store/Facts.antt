-- ===== src/Store/Facts.antt =====
-- Facts of every row, and facts that single out a row, under a write and an insertion.
use table_queue.Common.{ℕ, ◌≡◌, ◌≢◌, ap, ◌⊎◌, inl, inr, refl, List, [], ◌∷◌, ◌++◌, arith}
use table_queue.Store.Rows.{In, put_row}

module _ {A : Type 0} where
  -- A fact of every row.
  abbrev pub Every : (A → Type 0) → List A → Type 0
  Every P xs = (e : A) → In e xs → P e

  pub In-append_one : (a e : A) (xs : List A) → In e (xs ++ a ∷ []) → (e ≡ a) ⊎ In e xs
  In-append_one a e [] (inl p) = inl p
  In-append_one a e [] (inr m) = absurd m
  In-append_one a e (x ∷ xs) (inl p) = inr (inl p)
  In-append_one a e (x ∷ xs) (inr m) = elim (In-append_one a e xs m) [
    | inl p ↦ inl p
    | inr n ↦ inr (inr n)
  ]

  pub In-append_last : (a : A) (xs : List A) → In a (xs ++ a ∷ [])
  In-append_last a [] = inl refl
  In-append_last a (x ∷ xs) = inr (In-append_last a xs)

  pub In-append_left : (a e : A) (xs : List A) → In e xs → In e (xs ++ a ∷ [])
  In-append_left a e [] m = absurd m
  In-append_left a e (x ∷ xs) (inl p) = inl p
  In-append_left a e (x ∷ xs) (inr m) = inr (In-append_left a e xs m)

  pub append-Every :
      (P : A → Type 0) (a : A) (xs : List A) → Every P xs → P a → Every P (xs ++ a ∷ [])
  append-Every P a xs h p e m = elim (In-append_one a e xs m) [ inl q ↦ rw q p | inr n ↦ h e n ]

module _ {A : Type 0} (key : A → ℕ) where
  pub In-put_row :
      (a e : A) (xs : List A) → In e (put_row key a xs) → (e ≡ a) ⊎ (In e xs × (key e ≢ key a))
  unfolding put_row
  In-put_row a e [] m = absurd m
  In-put_row a e (x ∷ xs) (inl p) = ground (arith, ap key p)
  In-put_row a e (x ∷ xs) (inr m) = elim (In-put_row a e xs m) [
    | inl p ↦ inl p
    | inr n ↦ inr (inr n.0, n.1)
  ]

  pub put_row-Every :
      (P : A → Type 0) (a : A) (xs : List A) → Every P xs → P a → Every P (put_row key a xs)
  put_row-Every P a xs h p e m = elim (In-put_row a e xs m) [ inl q ↦ rw q p | inr n ↦ h e n.0 ]

  -- Rows that are related are one row.
  abbrev pub Single : (A → A → Type 0) → List A → Type 0
  Single R xs = (e f : A) → In e xs → In f xs → R e f → key e ≡ key f

  pub put_row-Single :
      (R : A → A → Type 0) (a : A) (xs : List A)
      → Single R xs
      → ((f : A) → In f xs → R a f → key a ≡ key f)
      → ((f : A) → In f xs → R f a → key f ≡ key a)
      → Single R (put_row key a xs)
  put_row-Single R a xs h right left e f m n r = elim (In-put_row a e xs m) [
    | inl p ↦ elim (In-put_row a f xs n) [
      | inl q ↦ rw (p, q) refl
      | inr n' ↦ rw p (right f n'.0 (rw p at r))
    ]
    | inr m' ↦ elim (In-put_row a f xs n) [
      | inl q ↦ rw q (left e m'.0 (rw q at r))
      | inr n' ↦ h e f m'.0 n'.0 r
    ]
  ]

  pub append-Single :
      (R : A → A → Type 0) (a : A) (xs : List A)
      → Single R xs
      → ((f : A) → In f xs → R a f → key a ≡ key f)
      → ((f : A) → In f xs → R f a → key f ≡ key a)
      → Single R (xs ++ a ∷ [])
  append-Single R a xs h right left e f m n r = elim (In-append_one a e xs m) [
    | inl p ↦ elim (In-append_one a f xs n) [
      | inl q ↦ rw (p, q) refl
      | inr n' ↦ rw p (right f n' (rw p at r))
    ]
    | inr m' ↦ elim (In-append_one a f xs n) [
      | inl q ↦ rw q (left e m' (rw q at r))
      | inr n' ↦ h e f m' n' r
    ]
  ]
