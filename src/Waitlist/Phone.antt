-- ===== src/Waitlist/Phone.antt =====
-- The phone helpers of backend/app/services/waitlist.py and the mask of backend/app/schemas.py.
use table_queue.Common.{
  ℕ, zero, suc, ◌-◌, ◌≡◌, refl, ap, ◌<◌, ◌⊎◌, inl, inr, Bool, true, false, Option, none, some, List,
  [], ◌∷◌, ◌++◌, arith, Text, codes, ltb, leb, ◌==◌, if◌then◌else◌, Bool-cases, length, take, drop,
  any_of, is_decimal, digit_value, digits_of, last_of, digits_of-last_of, digits_of-stars, ◌∙◌,
}

unfoldable pub normalize_phone : Text → Text
normalize_phone phone = digits_of phone

unfoldable pub phone_last3 : Text → Text
unfolding normalize_phone
phone_last3 phone = last_of 3 (normalize_phone phone)

unfoldable pub mask_last3 : Text → Text
mask_last3 phone = codes "***" ++ last_of 3 (digits_of phone)

-- The places of the runs of digits, `re.finditer(r"\d+", raw)`, each a start and an end. `start` is
-- the place where the run that is being read began.
digit_groups_from : ℕ → Option ℕ → Text → List (ℕ × ℕ)
digit_groups_from i none [] = []
digit_groups_from i (some start) [] = (start, i) ∷ []
digit_groups_from i none (c ∷ s) =
    digit_groups_from (suc i) (if is_decimal c then some i else none) s
digit_groups_from i (some start) (c ∷ s) = elim (is_decimal c) [
  | true ↦ digit_groups_from (suc i) (some start) s
  | false ↦ (start, i) ∷ digit_groups_from (suc i) none s
]

abbrev stars : ℕ → Text
stars zero = []
stars (suc n) = b'*' ∷ stars n

abbrev is_star : ℕ → Bool
is_star c = c == b'*'

-- The start of the second group, and the end of the last group but one.
second_start : List (ℕ × ℕ) → ℕ
second_start (g ∷ (start, end) ∷ gs) = start
second_start _ = 0

last_but_one_end : List (ℕ × ℕ) → ℕ
last_but_one_end (g ∷ h ∷ []) = g.1
last_but_one_end (g ∷ h ∷ i ∷ gs) = last_but_one_end (h ∷ i ∷ gs)
last_but_one_end _ = 0

-- `schemas.mask_phone`
unfoldable pub mask_phone : Text → Text
unfolding digit_groups_from second_start last_but_one_end
mask_phone raw =
    let groups = digit_groups_from 0 none raw in
    let number = digits_of raw in
    if ltb (length number) 7
    then raw
    else if any_of is_star raw
    then raw
    else if leb 3 (length groups)
    then take (second_start groups) raw ++ (codes "***" ++ drop (last_but_one_end groups) raw)
    else stars (length number - 3) ++ last_of 3 number

mask_contract_form : mask_phone (codes "0900-000-001") ≡ codes "0900-***-001"
unfolding mask_phone digits_of is_decimal digit_value last_of
mask_contract_form = refl

mask_compact_form : mask_phone (codes "0900000001") ≡ codes "*******001"
unfolding mask_phone digits_of is_decimal digit_value last_of
mask_compact_form = refl

any_of-append_right : (s t : Text) → any_of is_star t ≡ true → any_of is_star (s ++ t) ≡ true
any_of-append_right [] t h = h
any_of-append_right (c ∷ s) t h = ground (arith, any_of-append_right s t h)

mask_kept : (s : Text) → any_of is_star s ≡ true → mask_phone s ≡ s
unfolding mask_phone
mask_kept s h = ground arith

any_star-stars : (n : ℕ) (s : Text) → 0 < n → any_of is_star (stars n ++ s) ≡ true
any_star-stars zero s h = absurd (omega arith)
any_star-stars (suc n) s h = refl

-- The mask leaves a phone alone or marks it.
mask_phone_cases : (raw : Text) → (mask_phone raw ≡ raw) ⊎ (any_of is_star (mask_phone raw) ≡ true)
unfolding mask_phone
mask_phone_cases raw = elim (Bool-cases (ltb (length (digits_of raw)) 7)) [
  | inl short ↦ inl (ground arith)
  | inr long ↦ elim (Bool-cases (any_of is_star raw)) [
    | inl marked ↦ inl (ground arith)
    | inr plain ↦ elim (Bool-cases (leb 3 (length (digit_groups_from 0 none raw)))) [
      | inl blocks ↦
          rw (long, plain, blocks)
            (inr (
              any_of-append_right (take (second_start (digit_groups_from 0 none raw)) raw)
                (codes "***" ++ drop (last_but_one_end (digit_groups_from 0 none raw)) raw) refl))
      | inr few ↦
          rw (long, plain, few)
            (inr (
              any_star-stars (length (digits_of raw) - 3) (last_of 3 (digits_of raw))
                (ground arith)))
    ]
  ]
]

-- Masking a masked phone changes nothing.
pub mask_phone-mask_phone : (raw : Text) → mask_phone (mask_phone raw) ≡ mask_phone raw
mask_phone-mask_phone raw = elim (mask_phone_cases raw) [
  | inl same ↦ ap mask_phone same
  | inr marked ↦ mask_kept _ marked
]

-- The digits of the compact mask are the last three digits of the phone.
pub digits_of-mask_last3 : (phone : Text) → digits_of (mask_last3 phone) ≡ phone_last3 phone
unfolding mask_last3 phone_last3
digits_of-mask_last3 phone =
    digits_of-stars (last_of 3 (digits_of phone)) ∙ digits_of-last_of 3 phone
