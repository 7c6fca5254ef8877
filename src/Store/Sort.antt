-- ===== src/Store/Sort.antt =====
-- `ORDER BY`: a stable insertion sort.
use table_queue.Common.{
  suc, ◌≡◌, refl, ap, ◌∙◌, List, [], ◌∷◌, Bool, true, false, if◌then◌else◌, ◌⊎◌, inl, inr,
  Bool-cases, arith, length,
}
use table_queue.Store.Rows.{In}

module _ {A : Type 0} (before : A → A → Bool) where
  unfoldable pub insert_row : A → List A → List A
  insert_row a [] = a ∷ []
  insert_row a (x ∷ xs) = if before a x then a ∷ x ∷ xs else x ∷ insert_row a xs

  unfoldable pub order_by : List A → List A
  unfolding insert_row
  order_by [] = []
  order_by (x ∷ xs) = insert_row x (order_by xs)

  In-insert_row : (a e : A) (xs : List A) → In e (insert_row a xs) → (e ≡ a) ⊎ In e xs
  unfolding insert_row
  In-insert_row a e [] (inl p) = inl p
  In-insert_row a e [] (inr m) = absurd m
  In-insert_row a e (x ∷ xs) m = ground (arith, In-insert_row a e xs)

  In-insert_row_of : (a e : A) (xs : List A) → (e ≡ a) ⊎ In e xs → In e (insert_row a xs)
  unfolding insert_row
  In-insert_row_of a e [] (inl p) = inl p
  In-insert_row_of a e [] (inr m) = absurd m
  In-insert_row_of a e (x ∷ xs) m = ground (arith, In-insert_row_of a e xs)

  -- A sort keeps the rows.
  pub In-order_by : (e : A) (xs : List A) → In e (order_by xs) → In e xs
  unfolding order_by
  In-order_by e [] m = m
  In-order_by e (x ∷ xs) m = elim (In-insert_row x e (order_by xs) m) [
    | inl p ↦ inl p
    | inr n ↦ inr (In-order_by e xs n)
  ]

  pub In-order_by_of : (e : A) (xs : List A) → In e xs → In e (order_by xs)
  unfolding order_by
  In-order_by_of e [] m = m
  In-order_by_of e (x ∷ xs) (inl p) = In-insert_row_of x e (order_by xs) (inl p)
  In-order_by_of e (x ∷ xs) (inr m) =
      In-insert_row_of x e (order_by xs) (inr (In-order_by_of e xs m))

  length-insert_row : (a : A) (xs : List A) → length (insert_row a xs) ≡ suc (length xs)
  unfolding insert_row
  length-insert_row a [] = refl
  length-insert_row a (x ∷ xs) = ground (arith, length-insert_row a xs)

  pub length-order_by : (xs : List A) → length (order_by xs) ≡ length xs
  unfolding order_by
  length-order_by [] = refl
  length-order_by (x ∷ xs) = length-insert_row x (order_by xs) ∙ ap suc (length-order_by xs)

  -- Each row is in order with every row behind it.
  abbrev pub IsSorted : List A → Type 0
  IsSorted [] = Unit
  IsSorted (x ∷ xs) = ((e : A) → In e xs → before x e ≡ true) × IsSorted xs

  -- A test that never fails both ways, and chains.
  pub record IsOrder : Type 0 where
    pub total : (a b : A) → before a b ≡ false → before b a ≡ true
    pub chain : (a b c : A) → before a b ≡ true → before b c ≡ true → before a c ≡ true

  module _ (o : IsOrder) where
    insert_row-IsSorted : (a : A) (xs : List A) → IsSorted xs → IsSorted (insert_row a xs)
    unfolding insert_row
    insert_row-IsSorted a [] s = (λ e m. absurd m, tt)
    insert_row-IsSorted a (x ∷ xs) s = elim (Bool-cases (before a x)) [
      | inl first_ ↦
          rw (first_, insert_row)
            (λ e m. elim m [ inl p ↦ rw p first_ | inr n ↦ o.chain a x e first_ (s.0 e n) ], s)
      | inr later ↦
          rw (later, insert_row)
            (
              λ e m. elim (In-insert_row a e xs m) [
                | inl p ↦ rw p (o.total a x later)
                | inr n ↦ s.0 e n
              ],
              insert_row-IsSorted a xs s.1,
            )
    ]

    pub order_by-IsSorted : (xs : List A) → IsSorted (order_by xs)
    unfolding order_by
    order_by-IsSorted [] = tt
    order_by-IsSorted (x ∷ xs) = insert_row-IsSorted x (order_by xs) (order_by-IsSorted xs)
