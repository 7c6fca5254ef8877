-- ===== src/Common/Strips.antt =====
-- White space around a text holds no digit.
use mathlib.Core.List.{reverse, reverse_aux, reverse-reverse, reverse-append, reverse-cons}
use table_queue.Common.Tests.{Bool-cases}
use mathlib.Core.Path.{◌≡◌, refl, sym, ap, subst, ◌∙◌}
use mathlib.Core.Logic.{inl, inr}
use mathlib.Core.List.{[], ◌∷◌, ◌++◌}
use mathlib.Core.Bool.{true, false}
use table_queue.Common.Digits.{is_decimal, is_decimal-clear}
use table_queue.Common.Texts.{Text, digits_of, is_space, lstrip, strip}
use native.Mathlib.Omega.{arith}
use Prim.Native.Nat.{ℕ}

space_is_no_digit : (c : ℕ) → is_space c ≡ true → is_decimal c ≡ false
unfolding is_space
space_is_no_digit c h = ground (
  arith,
  is_decimal-clear 0 32 c refl,
  is_decimal-clear 133 160 c refl,
  is_decimal-clear 5760 5760 c refl,
  is_decimal-clear 8192 12288 c refl,
)

digits_of-lstrip : (s : Text) → digits_of (lstrip s) ≡ digits_of s
unfolding digits_of lstrip
digits_of-lstrip [] = refl
digits_of-lstrip (c ∷ s) = elim (Bool-cases (is_space c)) [
  | inl space ↦ rw (space, lstrip) (rw (space_is_no_digit c space) (digits_of-lstrip s))
  | inr black ↦ rw (black, lstrip) refl
]

digits_of-reverse_aux :
    (s t : Text) → digits_of (reverse_aux s t) ≡ reverse_aux (digits_of s) (digits_of t)
unfolding digits_of
digits_of-reverse_aux [] t = refl
digits_of-reverse_aux (c ∷ s) t = elim (Bool-cases (is_decimal c)) [
  | inl digit ↦ digits_of-reverse_aux s (c ∷ t) ∙ rw digit refl
  | inr other ↦ digits_of-reverse_aux s (c ∷ t) ∙ rw other refl
]

pub digits_of-strip : (s : Text) → digits_of (strip s) ≡ digits_of s
unfolding strip digits_of
digits_of-strip s =
    let t = lstrip s in
    digits_of-reverse_aux (lstrip (reverse_aux t [])) []
    ∙ ap (λ d. reverse_aux d []) (digits_of-lstrip (reverse_aux t []) ∙ digits_of-reverse_aux t [])
    ∙ reverse-reverse (digits_of t)
    ∙ digits_of-lstrip s

lstrip-lstrip : (s : Text) → lstrip (lstrip s) ≡ lstrip s
unfolding lstrip
lstrip-lstrip [] = refl
lstrip-lstrip (c ∷ s) = elim (Bool-cases (is_space c)) [
  | inl space ↦ rw space (lstrip-lstrip s)
  | inr black ↦ rw (black, lstrip) (rw black refl)
]

lstrip-concat : (s : Text) (c : ℕ) → is_space c ≡ false → lstrip (s ++ c ∷ []) ≡ lstrip s ++ c ∷ []
unfolding lstrip
lstrip-concat [] c black = rw black refl
lstrip-concat (d ∷ s) c black = elim (Bool-cases (is_space d)) [
  | inl space ↦ rw space (lstrip-concat s c black)
  | inr other ↦ rw other refl
]

-- A text that starts with no space still does after its end is stripped.
lstrip-rstrip :
    (s : Text)
    → lstrip (reverse (lstrip (reverse (lstrip s)))) ≡ reverse (lstrip (reverse (lstrip s)))
unfolding lstrip
lstrip-rstrip [] = refl
lstrip-rstrip (c ∷ s) = elim (Bool-cases (is_space c)) [
  | inl space ↦ rw (space, lstrip) (lstrip-rstrip s)
  | inr black ↦
      rw (black, lstrip)
        (subst (λ t. lstrip (reverse t) ≡ reverse t) (sym (shape black)) (black_first black))
]
  where
    shape : is_space c ≡ false → lstrip (reverse (c ∷ s)) ≡ lstrip (reverse s) ++ c ∷ []
    shape black = ap lstrip (reverse-cons c s) ∙ lstrip-concat (reverse s) c black

    black_first :
        is_space c ≡ false
        → lstrip (reverse (lstrip (reverse s) ++ c ∷ [])) ≡ reverse (lstrip (reverse s) ++ c ∷ [])
    black_first black = rw (reverse-append (lstrip (reverse s)) (c ∷ [])) (rw black refl)

pub strip-strip : (s : Text) → strip (strip s) ≡ strip s
unfolding strip
strip-strip s = rw (lstrip-rstrip s) (
    rw (reverse-reverse (lstrip (reverse (lstrip s))))
      (rw (lstrip-lstrip (reverse (lstrip s))) refl))
