-- ===== src/Schemas/Guest.antt =====
-- `JoinWaitlistRequest` of backend/app/schemas.py.
use table_queue.Common.{
  is_decimal, digit_value, ℕ, zero, suc, ◌+◌, ◌≡◌, refl, Bool, true, false, ◌&&◌, ◌||◌, Option,
  none, some, List, [], ◌∷◌, Text, ◌==◌, leb, length, strip, keep, if◌then◌else◌, arith, Bool-cases,
  inl, inr, &&-eq-true, ==_iff,
}
use table_queue.Schemas.Settings.{within}
use table_queue.Schemas.Refusals.{joined}
use table_queue.Errors.{Result, ok, err, app_error, validation_error, rejected}
use table_queue.Common.{codes}

-- The parts of the phone patterns: a character, `\d`, and `-?`.
pub data Piece : Type 0 where
  one : ℕ → Piece
  digit dash : Piece

-- `$` of `re` also stands before a line feed that ends the text.
abbrev is_end : Text → Bool
is_end [] = true
is_end (c ∷ []) = c == 10
is_end (c ∷ d ∷ s) = false

-- `re.compile(pattern).match(s)`; what follows a `-?` begins with no dash, so it takes one that is
-- there.
unfoldable pub matches : List Piece → Text → Bool
matches [] s = is_end s
matches (one c ∷ pieces) [] = false
matches (one c ∷ pieces) (d ∷ s) = d == c && matches pieces s
matches (digit ∷ pieces) [] = false
matches (digit ∷ pieces) (d ∷ s) = is_decimal d && matches pieces s
matches (dash ∷ pieces) [] = matches pieces []
matches (dash ∷ pieces) (d ∷ s) =
    let taken = matches pieces s in
    let left = matches pieces (d ∷ s) in if d == b'-' then taken else left

abbrev digits : ℕ → List Piece → List Piece
digits zero pieces = pieces
digits (suc n) pieces = digit ∷ digits n pieces

-- `^09\d{2}-?\d{3}-?\d{3}$` and `^02-?\d{4}-?\d{4}$`
abbrev pub mobile_pattern : List Piece
mobile_pattern = one b'0' ∷ one b'9' ∷ digits 2 (dash ∷ digits 3 (dash ∷ digits 3 []))

abbrev pub landline_pattern : List Piece
landline_pattern = one b'0' ∷ one b'2' ∷ dash ∷ digits 4 (dash ∷ digits 4 [])

unfoldable pub is_phone : Text → Bool
unfolding matches
is_phone v = matches mobile_pattern v || matches landline_pattern v

-- The digits that a text matching the pieces has.
abbrev digit_count : List Piece → ℕ
digit_count [] = 0
digit_count (one c ∷ pieces) = (if is_decimal c then 1 else 0) + digit_count pieces
digit_count (digit ∷ pieces) = suc (digit_count pieces)
digit_count (dash ∷ pieces) = digit_count pieces

line_feed_is_no_digit : is_decimal 10 ≡ false
unfolding is_decimal digit_value
line_feed_is_no_digit = refl

dash_is_no_digit : is_decimal b'-' ≡ false
unfolding is_decimal digit_value
dash_is_no_digit = refl

counted :
    (c : ℕ) (s : Text) (n : ℕ)
    → length (keep is_decimal s) ≡ n
    → length (keep is_decimal (c ∷ s)) ≡ (if is_decimal c then 1 else 0) + n
counted c s n h = ground arith

matches-digits :
    (pieces : List Piece) (s : Text)
    → matches pieces s ≡ true
    → length (keep is_decimal s) ≡ digit_count pieces
unfolding matches
matches-digits [] [] h = refl
matches-digits [] (c ∷ []) h =
    let e : c ≡ 10 = (==_iff c 10).0 h in rw (e, line_feed_is_no_digit) refl
matches-digits [] (c ∷ d ∷ s) h = cc
matches-digits (one c ∷ pieces) [] h = cc
matches-digits (one c ∷ pieces) (d ∷ s) h =
    let (same, rest) = &&-eq-true h in
    rw ((==_iff d c).0 same) (counted c s (digit_count pieces) (matches-digits pieces s rest))
matches-digits (digit ∷ pieces) [] h = cc
matches-digits (digit ∷ pieces) (d ∷ s) h = ground (arith, matches-digits pieces s)
matches-digits (dash ∷ pieces) [] h = matches-digits pieces [] h
matches-digits (dash ∷ pieces) (d ∷ s) h = elim (Bool-cases (d == b'-')) [
  | inl taken ↦
      rw ((==_iff d b'-').0 taken, dash_is_no_digit) (matches-digits pieces s (with_dash taken))
  | inr left ↦ matches-digits pieces (d ∷ s) (without_dash left)
]
  where
    with_dash : (d == b'-') ≡ true → matches pieces s ≡ true
    with_dash taken = ground arith

    without_dash : (d == b'-') ≡ false → matches pieces (d ∷ s) ≡ true
    without_dash left = ground arith

-- A phone that the schema accepts has ten digits.
pub is_phone-digits : (v : Text) → is_phone v ≡ true → length (keep is_decimal v) ≡ 10
unfolding is_phone is_decimal digit_value
is_phone-digits v h = elim (Bool-cases (matches mobile_pattern v)) [
  | inl mobile ↦ matches-digits mobile_pattern v mobile
  | inr other ↦ matches-digits landline_pattern v (landline other)
]
  where
    landline : matches mobile_pattern v ≡ false → matches landline_pattern v ≡ true
    landline other = ground arith

pub record JoinWaitlistRequest : Type 0 where
  pub name : Text
  pub phone : Text
  pub party_size : ℕ
  pub note : Option Text

abbrev pub is_note : Option Text → Bool
is_note none = true
is_note (some note) = leb (length note) 200

abbrev pub refused_if_not : Text → Bool → List Text
refused_if_not field accepted = if accepted then [] else field ∷ []

abbrev pub join_refusals : JoinWaitlistRequest → List (List Text)
join_refusals body =
    refused_if_not (codes "name") (within 1 50 (length body.name))
    ∷ refused_if_not (codes "phone") (within 9 15 (length body.phone) && is_phone body.phone)
    ∷ refused_if_not (codes "party_size") (within 1 20 body.party_size)
    ∷ refused_if_not (codes "note") (is_note body.note)
    ∷ []

-- The name is trimmed after its length is checked.
unfoldable pub bound_join : JoinWaitlistRequest → Result JoinWaitlistRequest
bound_join body = elim (joined (join_refusals body)) [
  | [] ↦ ok (record body { name = strip body.name })
  | field ∷ fields ↦ err (app_error validation_error (some 422) (rejected (field ∷ fields)))
]
