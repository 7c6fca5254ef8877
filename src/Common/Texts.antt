-- ===== src/Common/Texts.antt =====
-- Python's `str` as its code points: equality, digits, `strip`, `zfill` and substrings.
use Prim.Native.Nat.{ℕ, zero, suc, ◌+◌, ◌-◌, ◌*◌, ◌/◌, ◌%◌, ◌≤◌}
use Prim.Native.Char.{code}
use Prim.Native.String.{String}
use mathlib.Core.Path.{◌≡◌, refl, ap, subst, sym, ◌∙◌}
use mathlib.Core.Logic.{◌↔◌, inl, inr}
use mathlib.Core.List.{List, [], ◌∷◌, ◌++◌, reverse}
use mathlib.Core.Bool.{Bool, true, false, ◌&&◌, ◌||◌}
use native.Mathlib.Omega.{arith}
use table_queue.Common.Digits.{is_decimal, digit_value}
use table_queue.Common.Lists.{length, drop, All}
use table_queue.Common.Tests.{if◌then◌else◌, ltb, leb, ◌==◌, Bool-cases}

abbrev pub Text : Type 0
Text = List ℕ

abbrev pub codes : String → Text
codes String.[] = []
codes (String.◌∷◌ c s) = code c ∷ codes s

abbrev pub text_eq : Text → Text → Bool
text_eq [] [] = true
text_eq (a ∷ s) (b ∷ t) = (a == b) && text_eq s t
text_eq _ _ = false

pub text_eq→eq : (s t : Text) → text_eq s t ≡ true → s ≡ t
text_eq→eq [] [] h = refl
text_eq→eq [] (b ∷ t) h = ground arith
text_eq→eq (a ∷ s) [] h = ground arith
text_eq→eq (a ∷ s) (b ∷ t) h = ground (arith, text_eq→eq s t)

pub text_eq_self : (s : Text) → text_eq s s ≡ true
text_eq_self [] = refl
text_eq_self (a ∷ s) = ground (arith, text_eq_self s)

-- The test decides equality.
pub text_eq_iff : (s t : Text) → (text_eq s t ≡ true) ↔ (s ≡ t)
text_eq_iff s t = (text_eq→eq s t, λ e. subst (λ u. text_eq s u ≡ true) e (text_eq_self s))

pub text_eq_comm : (s t : Text) → text_eq s t ≡ text_eq t s
text_eq_comm [] [] = refl
text_eq_comm [] (b ∷ t) = refl
text_eq_comm (a ∷ s) [] = refl
text_eq_comm (a ∷ s) (b ∷ t) = ground (arith, text_eq_comm s t)

-- `s <= t` on strings, the order of a text column.
abbrev pub text_leb : Text → Text → Bool
text_leb [] t = true
text_leb (a ∷ s) [] = false
text_leb (a ∷ s) (b ∷ t) = if a == b then text_leb s t else ltb a b

-- `re.sub(r"\D", "", s)`
unfoldable pub digits_of : Text → Text
digits_of [] = []
digits_of (c ∷ s) = if is_decimal c then c ∷ digits_of s else digits_of s

pub digits_of-digits_of : (s : Text) → digits_of (digits_of s) ≡ digits_of s
unfolding digits_of
digits_of-digits_of [] = refl
digits_of-digits_of (c ∷ s) = elim (Bool-cases (is_decimal c)) [
  | inl e ↦ rw (e, digits_of) (rw e (ap (◌∷◌ c) (digits_of-digits_of s)))
  | inr e ↦ rw e (digits_of-digits_of s)
]

pub digits_of-stars : (s : Text) → digits_of (codes "***" ++ s) ≡ digits_of s
unfolding digits_of is_decimal digit_value
digits_of-stars s = refl

-- `s[-n:]` for a positive n
unfoldable pub last_of : ℕ → Text → Text
last_of n s = drop (length s - n) s

-- Only digits.
abbrev AllDigits : Text → Type 0
AllDigits = All (λ c. is_decimal c ≡ true)

digits_of-AllDigits : (s : Text) → AllDigits (digits_of s)
unfolding digits_of
digits_of-AllDigits [] = tt
digits_of-AllDigits (c ∷ s) = elim (Bool-cases (is_decimal c)) [
  | inl e ↦ rw e (e, digits_of-AllDigits s)
  | inr e ↦ rw e (digits_of-AllDigits s)
]

drop-AllDigits : (n : ℕ) (s : Text) → AllDigits s → AllDigits (drop n s)
drop-AllDigits zero s h = h
drop-AllDigits (suc n) [] h = tt
drop-AllDigits (suc n) (c ∷ s) h = drop-AllDigits n s h.1

AllDigits-fixed : (s : Text) → AllDigits s → digits_of s ≡ s
unfolding digits_of
AllDigits-fixed [] h = refl
AllDigits-fixed (c ∷ s) h = rw h.0 (ap (◌∷◌ c) (AllDigits-fixed s h.1))

pub digits_of-last_of :
    (n : ℕ) (s : Text) → digits_of (last_of n (digits_of s)) ≡ last_of n (digits_of s)
unfolding last_of
digits_of-last_of n s =
    AllDigits-fixed _ (drop-AllDigits (length (digits_of s) - n) _ (digits_of-AllDigits s))

-- White space: the code points that `str.strip` removes.
unfoldable pub is_space : ℕ → Bool
is_space c =
    (leb 9 c && leb c 13)
    || (leb 28 c && leb c 32)
    || c == 133
    || c == 160
    || c == 5760
    || (leb 8192 c && leb c 8202)
    || c == 8232
    || c == 8233
    || c == 8239
    || c == 8287
    || c == 12288

unfoldable pub lstrip : Text → Text
unfolding is_space
lstrip [] = []
lstrip (c ∷ s) = if is_space c then lstrip s else c ∷ s

-- `s.strip()`
unfoldable pub strip : Text → Text
unfolding lstrip
strip s = reverse (lstrip (reverse (lstrip s)))

-- `str(n)` for a positive n, in front of `out`, by one digit for each unit of fuel.
digits_from : ℕ → ℕ → Text → Text
digits_from zero n out = out
digits_from (suc fuel) n out =
    let rest = digits_from fuel (n / 10) ((b'0' + n % 10) ∷ out) in if n == 0 then out else rest

-- `str(n)`
unfoldable pub decimal : ℕ → Text
unfolding digits_from
decimal n = if n == 0 then b'0' ∷ [] else digits_from n n []

-- `s.rjust(width, "0")`, with `short` the zeros that are missing.
abbrev zeros : ℕ → Text → Text
zeros zero s = s
zeros (suc short) s = b'0' ∷ zeros short s

-- `f"{n:0{width}d}"`
unfoldable pub zero_padded : ℕ → ℕ → Text
unfolding decimal
zero_padded width n = zeros (width - length (decimal n)) (decimal n)

-- `int(s)` on a run of digits, read after `acc`.
unfoldable pub number_from : ℕ → Text → ℕ
number_from acc [] = acc
number_from acc (c ∷ s) = number_from (acc * 10 + (c - b'0')) s

number_from-digits_from :
    (fuel n : ℕ) (out : Text)
    → n ≤ fuel
    → number_from 0 (digits_from fuel n out) ≡ number_from n out
unfolding digits_from number_from
number_from-digits_from zero n out h = let e : n ≡ 0 = omega arith in rw e
number_from-digits_from (suc fuel) n out h =
    ground (arith, number_from-digits_from fuel (n / 10) ((48 + n % 10) ∷ out), back)
  where
    back : n / 10 * 10 + (48 + n % 10 - 48) ≡ n
    back = omega arith

number_from-decimal : (n : ℕ) → number_from 0 (decimal n) ≡ n
unfolding decimal number_from
number_from-decimal n = ground (arith, number_from-digits_from n n [])

number_from-zeros : (short : ℕ) (s : Text) → number_from 0 (zeros short s) ≡ number_from 0 s
unfolding number_from
number_from-zeros zero s = refl
number_from-zeros (suc short) s = number_from-zeros short s

-- A padded number reads back as itself.
pub number_from-zero_padded : (width n : ℕ) → number_from 0 (zero_padded width n) ≡ n
unfolding zero_padded
number_from-zero_padded width n =
    number_from-zeros (width - length (decimal n)) (decimal n) ∙ number_from-decimal n

pub zero_padded-injective : (width m n : ℕ) → zero_padded width m ≡ zero_padded width n → m ≡ n
zero_padded-injective width m n e =
    sym (number_from-zero_padded width m) ∙ ap (number_from 0) e ∙ number_from-zero_padded width n

tail : Text → Text
tail [] = []
tail (c ∷ s) = s

pub append_left_injective : (p s t : Text) → p ++ s ≡ p ++ t → s ≡ t
unfolding tail
append_left_injective [] s t e = e
append_left_injective (c ∷ p) s t e = append_left_injective p s t (ap tail e)

padded : zero_padded 3 7 ≡ codes "007"
unfolding zero_padded
padded = refl

stripped : strip (codes "  Ann  ") ≡ codes "Ann"
unfolding strip
stripped = refl
