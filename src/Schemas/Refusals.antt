-- ===== src/Schemas/Refusals.antt =====
-- The names of the fields that a request model refuses, gathered from its validators in order.
use table_queue.Common.{◌≡◌, refl, List, [], ◌∷◌, ◌++◌, Text, All, ◌⊎◌, inl, inr}

abbrev pub joined : List (List Text) → List Text
joined [] = []
joined (names ∷ rest) = names ++ joined rest

append-nil_left : {A : Type 0} (xs ys : List A) → xs ++ ys ≡ [] → (xs ≡ []) × (ys ≡ [])
append-nil_left [] ys h = (refl, h)
append-nil_left (x ∷ xs) ys h = cc

pub joined-nil : (lists : List (List Text)) → joined lists ≡ [] → All (λ names. names ≡ []) lists
joined-nil [] h = tt
joined-nil (names ∷ lists) h =
    let parts = append-nil_left names (joined lists) h in (parts.0, joined-nil lists parts.1)

pub first-name :
    (names : List Text)
    → (names ≡ []) ⊎ ((name : Text) × (rest : List Text) × (names ≡ name ∷ rest))
first-name [] = inl refl
first-name (name ∷ rest) = inr (name, rest, refl)
