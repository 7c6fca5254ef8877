-- ===== src/Store/Counts.antt =====
-- How many rows pass a test.
use table_queue.Common.{
  ℕ, ◌≤◌, ◌≡◌, refl, ◌∙◌, subst, inl, inr, Bool, none, List, [], ◌∷◌, map, arith, Bool-cases, keep,
  length, ◌==◌, ==_iff,
}
use table_queue.Store.Rows.{Distinct, get_row}
use table_queue.Store.Sort.{order_by, insert_row}

unfoldable pub count : {A : Type 0} → (A → Bool) → List A → ℕ
count p xs = length (keep p xs)

count-insert_row :
    {A : Type 0} (before : A → A → Bool) (p : A → Bool) (a : A) (xs : List A)
    → count p (insert_row before a xs) ≡ count p (a ∷ xs)
unfolding count insert_row
count-insert_row before p a [] = refl
count-insert_row before p a (x ∷ xs) = ground (arith, count-insert_row before p a xs)

-- A sort repeats no row and drops none.
pub count-order_by :
    {A : Type 0} (before : A → A → Bool) (p : A → Bool) (xs : List A)
    → count p (order_by before xs) ≡ count p xs
unfolding count order_by
count-order_by before p [] = refl
count-order_by before p (x ∷ xs) =
    count-insert_row before p x (order_by before xs) ∙ ground (arith, count-order_by before p xs)

pub count-keep : {A : Type 0} (p q : A → Bool) (xs : List A) → count p (keep q xs) ≤ count p xs
unfolding count
count-keep p q [] = ground arith
count-keep p q (x ∷ xs) = ground (arith, count-keep p q xs)

pub count-map :
    {A : Type 0} (f : A → ℕ) (k : ℕ) (xs : List A)
    → count (λ i. i == k) (map f xs) ≡ count (λ a. f a == k) xs
unfolding count
count-map f k [] = refl
count-map f k (x ∷ xs) = ground (arith, count-map f k xs)

count-none :
    {A : Type 0} (key : A → ℕ) (k : ℕ) (xs : List A)
    → get_row key k xs ≡ none
    → count (λ e. key e == k) xs ≡ 0
unfolding count get_row
count-none key k [] h = refl
count-none key k (x ∷ xs) h = ground (arith, count-none key k xs)

pub count-Distinct :
    {A : Type 0} (key : A → ℕ) (k : ℕ) (xs : List A)
    → Distinct key xs
    → count (λ e. key e == k) xs ≤ 1
unfolding count
count-Distinct key k [] d = ground arith
count-Distinct key k (x ∷ xs) d = elim (Bool-cases (key x == k)) [
  | inl hit ↦ rw hit (
      ground (
        arith,
        count-none key k xs (subst (λ i. get_row key i xs ≡ none) ((==_iff (key x) k).0 hit) d.0),
      ))
  | inr miss ↦ rw miss (count-Distinct key k xs d.1)
]
