-- ===== src/Common/Digits.antt =====
-- The decimal digits of Unicode, ten code points from each of these zeros: the class `\d` of `re`
-- and of pydantic on `str`, and `int` of such digits.
use Prim.Native.Nat.{ℕ, ◌+◌, ◌-◌, ◌*◌, ◌≤◌}
use mathlib.Core.Path.{◌≡◌, refl}
use mathlib.Core.Bool.{Bool, true, false, ◌&&◌, ◌||◌}
use mathlib.Core.Option.{Option, none, some}
use mathlib.Core.List.{List, [], ◌∷◌}
use native.Mathlib.Omega.{arith}
use table_queue.Common.Lists.{all_of}
use table_queue.Common.Tests.{if◌then◌else◌, leb, ltb, is_some}

abbrev pub decimal_zeros : List ℕ
decimal_zeros =
    48 ∷ 1632 ∷ 1776 ∷ 1984 ∷ 2406 ∷ 2534 ∷ 2662 ∷ 2790 ∷ 2918 ∷ 3046 ∷ 3174 ∷ 3302 ∷ 3430 ∷ 3558
    ∷ 3664 ∷ 3792 ∷ 3872 ∷ 4160 ∷ 4240 ∷ 6112 ∷ 6160 ∷ 6470 ∷ 6608 ∷ 6784 ∷ 6800 ∷ 6992 ∷ 7088
    ∷ 7232 ∷ 7248 ∷ 42528 ∷ 43216 ∷ 43264 ∷ 43472 ∷ 43504 ∷ 43600 ∷ 44016 ∷ 65296 ∷ 66720 ∷ 68912
    ∷ 69734 ∷ 69872 ∷ 69942 ∷ 70096 ∷ 70384 ∷ 70736 ∷ 70864 ∷ 71248 ∷ 71360 ∷ 71472 ∷ 71904 ∷ 72016
    ∷ 72784 ∷ 73040 ∷ 73120 ∷ 73552 ∷ 92768 ∷ 92864 ∷ 93008 ∷ 120782 ∷ 120792 ∷ 120802 ∷ 120812
    ∷ 120822 ∷ 123200 ∷ 123632 ∷ 124144 ∷ 125264 ∷ 130032 ∷ []

digit_after : List ℕ → ℕ → Option ℕ
digit_after [] c = none
digit_after (z ∷ zs) c = if leb z c && leb c (z + 9) then some (c - z) else digit_after zs c

-- The value of a digit.
unfoldable pub digit_value : ℕ → Option ℕ
unfolding digit_after
digit_value c = digit_after decimal_zeros c

unfoldable pub is_decimal : ℕ → Bool
is_decimal c = is_some (digit_value c)

-- `int` of two characters
unfoldable pub two_digits : ℕ → ℕ → Option ℕ
two_digits a b = elim (digit_value a) [
  | none ↦ none
  | some tens ↦ elim (digit_value b) [ none ↦ none | some units ↦ some (tens * 10 + units) ]
]

-- No zero is in or right below the interval.
abbrev is_clear : ℕ → ℕ → List ℕ → Bool
is_clear low high zeros = all_of (λ z. ltb high z || ltb (z + 9) low) zeros

digit_after-clear :
    (zeros : List ℕ) (low high c : ℕ)
    → is_clear low high zeros ≡ true
    → low ≤ c
    → c ≤ high
    → digit_after zeros c ≡ none
unfolding digit_after
digit_after-clear [] low high c h l u = refl
digit_after-clear (z ∷ zs) low high c h l u = ground (arith, digit_after-clear zs low high c)

-- An interval that meets no ten digits has none.
pub is_decimal-clear :
    (low high c : ℕ)
    → is_clear low high decimal_zeros ≡ true
    → low ≤ c
    → c ≤ high
    → is_decimal c ≡ false
unfolding is_decimal digit_value
is_decimal-clear low high c h l u = rw (digit_after-clear decimal_zeros low high c h l u) refl
