-- ===== src/Store/Maps.antt =====
-- A write to every row: the facts that it keeps, and the loop over the rows of a query that makes
-- it.
use mathlib.Core.List.{append_assoc}
use table_queue.Common.{
  ℕ, ◌≡◌, ◌≢◌, refl, sym, ap, ◌∙◌, subst, inl, inr, Bool, none, List, [], ◌∷◌, ◌++◌, map, arith,
  if◌then◌else◌, keep, Bool-cases, ==-self,
}
use table_queue.Store.Rows.{In, get_row, put_row, Distinct, put_row-Distinct}
use table_queue.Store.Facts.{Every, Single}

pub In-map_of :
    {A B : Type 0} (f : A → B) (xs : List A) (b : B)
    → In b (map f xs)
    → (a : A) × In a xs × (b ≡ f a)
In-map_of f [] b m = absurd m
In-map_of f (x ∷ xs) b (inl p) = (x, inl refl, p)
In-map_of f (x ∷ xs) b (inr m) = let (a, n, p) = In-map_of f xs b m in (a, inr n, p)

module _ {A : Type 0} (key : A → ℕ) where
  module _ (f : A → A) (same : (a : A) → key (f a) ≡ key a) where
    pub get_row-map :
        (k : ℕ) (xs : List A) → get_row key k xs ≡ none → get_row key k (map f xs) ≡ none
    unfolding get_row
    get_row-map k [] h = refl
    get_row-map k (x ∷ xs) h = ground (arith, same x, get_row-map k xs)

    pub map-Distinct : (xs : List A) → Distinct key xs → Distinct key (map f xs)
    map-Distinct [] d = tt
    map-Distinct (x ∷ xs) d = (rw (same x) (get_row-map (key x) xs d.0), map-Distinct xs d.1)

    pub map-Single :
        (R : A → A → Type 0) (xs : List A)
        → ((a b : A) → R (f a) (f b) → R a b)
        → Single key R xs
        → Single key R (map f xs)
    map-Single R xs back h e g m n r =
        let (a, ma, p) = In-map_of f xs e m in
        let (b, nb, q) = In-map_of f xs g n in
        rw (p, q, same a, same b) (h a b ma nb (back a b (rw q at (rw p at r))))

  pub map-Every :
      (f : A → A) (P : A → Type 0) (xs : List A)
      → ((a : A) → P a → P (f a))
      → Every P xs
      → Every P (map f xs)
  map-Every f P xs keeps h e m = let (a, ma, p) = In-map_of f xs e m in rw p (keeps a (h a ma))

  key_ne_absent : (k : ℕ) (xs : List A) (a : A) → get_row key k xs ≡ none → In a xs → key a ≢ k
  unfolding get_row
  key_ne_absent k [] a h m = absurd m
  key_ne_absent k (x ∷ xs) a h (inl p) = ground (arith, ap key p, ==-self k)
  key_ne_absent k (x ∷ xs) a h (inr m) = ground (arith, key_ne_absent k xs a, m)

  put_row_absent : (a : A) (xs : List A) → get_row key (key a) xs ≡ none → put_row key a xs ≡ xs
  unfolding get_row put_row
  put_row_absent a [] h = refl
  put_row_absent a (x ∷ xs) h = ground (arith, put_row_absent a xs)

  In-middle : (pre : List A) (y : A) (ys : List A) → In y (pre ++ y ∷ ys)
  In-middle [] y ys = inl refl
  In-middle (p ∷ pre) y ys = inr (In-middle pre y ys)

  put_row_middle :
      (pre : List A) (a y : A) (ys : List A)
      → Distinct key (pre ++ y ∷ ys)
      → key a ≡ key y
      → put_row key a (pre ++ y ∷ ys) ≡ pre ++ a ∷ ys
  unfolding put_row
  put_row_middle [] a y ys d p = ground (arith, put_row_absent a ys (rw p d.0), ==-self (key y))
  put_row_middle (q ∷ pre) a y ys d p = ground (
    arith,
    key_ne_absent (key q) (pre ++ y ∷ ys) y d.0 (In-middle pre y ys),
    put_row_middle pre a y ys d.1,
  )

  -- `for row in rows: row = g(row)`
  unfoldable pub rewrite_rows : (A → A) → List A → List A → List A
  rewrite_rows g [] xs = xs
  rewrite_rows g (r ∷ rs) xs = rewrite_rows g rs (put_row key (g r) xs)

  -- A row at the end of a prefix is a row in front of the rest.
  shift :
      (g : A → A) (rs zs : List A) (pre : List A) (z : A) (ys : List A)
      → rewrite_rows g rs ((pre ++ z ∷ []) ++ ys) ≡ (pre ++ z ∷ []) ++ zs
      → rewrite_rows g rs (pre ++ z ∷ ys) ≡ pre ++ z ∷ zs
  shift g rs zs pre z ys h =
      ap (rewrite_rows g rs) (sym (append_assoc pre (z ∷ []) ys)) ∙ h ∙ append_assoc pre (z ∷ []) zs

  regrouped :
      (pre : List A) (z : A) (ys : List A)
      → Distinct key (pre ++ z ∷ ys)
      → Distinct key ((pre ++ z ∷ []) ++ ys)
  regrouped pre z ys = subst (Distinct key) (sym (append_assoc pre (z ∷ []) ys))

  -- The loop over the rows of a query rewrites those rows in place.
  pub rewrite_rows-keep :
      (g : A → A) (same : (a : A) → key (g a) ≡ key a) (test : A → Bool) (pre ys : List A)
      → Distinct key (pre ++ ys)
      → rewrite_rows g (keep test ys) (pre ++ ys) ≡ pre ++ map (λ y. if test y then g y else y) ys
  unfolding rewrite_rows
  rewrite_rows-keep g same test pre [] d = refl
  rewrite_rows-keep g same test pre (y ∷ ys) d = elim (Bool-cases (test y)) [
    | inl hit ↦
        let written = put_row_middle pre (g y) y ys d (same y) in
        let d' = subst (Distinct key) written (put_row-Distinct key (g y) (pre ++ y ∷ ys) d) in
        rw hit (
          ap (rewrite_rows g (keep test ys)) written
          ∙ shift g (keep test ys) _ pre (g y) ys
              (rewrite_rows-keep g same test (pre ++ g y ∷ []) ys (regrouped pre (g y) ys d')))
    | inr miss ↦ rw miss (
        shift g (keep test ys) _ pre y ys
          (rewrite_rows-keep g same test (pre ++ y ∷ []) ys (regrouped pre y ys d)))
  ]
