-- ===== src/Store/Ordered.antt =====
-- `ORDER BY` under a change of the rows: it reads no more of a row than its key, a last row stays
-- last, and rows can be taken out before or after.
use table_queue.Common.{
  ◌≡◌, refl, sym, ap, ◌∙◌, List, [], ◌∷◌, ◌++◌, map, Bool, true, false, keep, Bool-cases, inl, inr,
  arith,
}
use table_queue.Store.Rows.{In}
use table_queue.Store.Sort.{insert_row, order_by, IsSorted, IsOrder, order_by-IsSorted}

module _ {A B : Type 0} (f : A → B) (before : A → A → Bool) (key_before : B → B → Bool)
    (agree : (a b : A) → before a b ≡ key_before (f a) (f b)) where
  map-insert_row :
      (a : A) (xs : List A)
      → map f (insert_row before a xs) ≡ insert_row key_before (f a) (map f xs)
  unfolding insert_row
  map-insert_row a [] = refl
  map-insert_row a (x ∷ xs) = elim (Bool-cases (before a x)) [
    | inl first ↦ rw (first, sym (agree a x) ∙ first) refl
    | inr later ↦ rw (later, sym (agree a x) ∙ later) (ap (◌∷◌ (f x)) (map-insert_row a xs))
  ]

  pub map-order_by : (xs : List A) → map f (order_by before xs) ≡ order_by key_before (map f xs)
  unfolding order_by
  map-order_by [] = refl
  map-order_by (x ∷ xs) =
      map-insert_row x (order_by before xs) ∙ ap (insert_row key_before (f x)) (map-order_by xs)

module _ {A : Type 0} (before : A → A → Bool) where
  insert_row-append :
      (a last : A) (xs : List A)
      → before a last ≡ true
      → insert_row before a (xs ++ last ∷ []) ≡ insert_row before a xs ++ last ∷ []
  unfolding insert_row
  insert_row-append a last [] h = rw h refl
  insert_row-append a last (x ∷ xs) h = elim (Bool-cases (before a x)) [
    | inl first ↦ rw first refl
    | inr later ↦ rw later (ap (◌∷◌ x) (insert_row-append a last xs h))
  ]

  pub order_by-append :
      (last : A) (xs : List A)
      → ((a : A) → In a xs → before a last ≡ true)
      → order_by before (xs ++ last ∷ []) ≡ order_by before xs ++ last ∷ []
  unfolding order_by
  order_by-append last [] h = refl
  order_by-append last (x ∷ xs) h =
      ap (insert_row before x) (order_by-append last xs (λ a m. h a (inr m)))
      ∙ insert_row-append x last (order_by before xs) (h x (inl refl))

  module _ (o : IsOrder before) (test : A → Bool) where
    keep-insert_row_out :
        (a : A) (xs : List A) → test a ≡ false → keep test (insert_row before a xs) ≡ keep test xs
    unfolding insert_row
    keep-insert_row_out a [] out = rw out refl
    keep-insert_row_out a (x ∷ xs) out = ground (arith, keep-insert_row_out a xs)

    insert_row-first :
        (a : A) (xs : List A)
        → ((e : A) → In e xs → before a e ≡ true)
        → insert_row before a xs ≡ a ∷ xs
    unfolding insert_row
    insert_row-first a [] h = refl
    insert_row-first a (x ∷ xs) h = rw (h x (inl refl)) refl

    In-keep-In : (e : A) (xs : List A) → In e (keep test xs) → In e xs
    In-keep-In e [] m = m
    In-keep-In e (x ∷ xs) m = ground (arith, In-keep-In e xs)

    keep-insert_row :
        (a : A) (xs : List A)
        → test a ≡ true
        → IsSorted before xs
        → keep test (insert_row before a xs) ≡ insert_row before a (keep test xs)
    unfolding insert_row
    keep-insert_row a [] kept s = rw kept refl
    keep-insert_row a (x ∷ xs) kept s = elim (Bool-cases (before a x)) [
      | inl first ↦
          rw (first, kept)
            (sym (
              insert_row-first a (keep test (x ∷ xs))
                (λ e m. after first e (In-keep-In e (x ∷ xs) m))))
      | inr later ↦ elim (Bool-cases (test x)) [
        | inl stays ↦ rw (later, stays, later) (ap (◌∷◌ x) (keep-insert_row a xs kept s.1))
        | inr out ↦ rw (later, out) (keep-insert_row a xs kept s.1)
      ]
    ]
      where
        after : before a x ≡ true → (e : A) → In e (x ∷ xs) → before a e ≡ true
        after first e (inl p) = rw p first
        after first e (inr m) = o.chain a x e first (s.0 e m)

    pub keep-order_by :
        (xs : List A) → keep test (order_by before xs) ≡ order_by before (keep test xs)
    unfolding order_by
    keep-order_by [] = refl
    keep-order_by (x ∷ xs) = elim (Bool-cases (test x)) [
      | inl stays ↦ rw stays (
          keep-insert_row x (order_by before xs) stays (order_by-IsSorted before o xs)
          ∙ ap (insert_row before x) (keep-order_by xs))
      | inr out ↦ rw out (keep-insert_row_out x (order_by before xs) out ∙ keep-order_by xs)
    ]
