-- ===== src/Waitlist/Dates.antt =====
-- The business date of backend/app/services/waitlist.py. The time zone database (`zoneinfo`) is a
-- parameter; the calendar is that of Python's `datetime.date`.
use table_queue.Common.{
  ℕ, ◌+◌, ◌-◌, ◌*◌, ◌/◌, ◌%◌, ◌≡◌, refl, Bool, ◌&&◌, ◌||◌, not, Option, none, some, List, [], ◌∷◌,
  ◌++◌, Text, codes, ltb, ◌==◌, if◌then◌else◌, zero_padded,
}
use table_queue.Models.{Branch, Instant}

-- What the deployment fixes: the configured branch, and the local wall clock of each zone name that
-- `ZoneInfo` accepts, in microseconds since year 1. `taipei` is that of "Asia/Taipei".
pub record Env : Type 0 where
  pub default_branch_id : ℕ
  pub zone_info : Text → Option (Instant → ℕ)
  pub taipei : Instant → ℕ

abbrev pub second : ℕ
second = 1000000

abbrev pub minute : ℕ
minute = 60 * second

abbrev pub hour : ℕ
hour = 60 * minute

abbrev pub day : ℕ
day = 24 * hour

unfoldable pub branch_zone : Env → Branch → Instant → ℕ
branch_zone env branch = elim (env.zone_info branch.timezone) [
  | none ↦ env.taipei
  | some zone ↦ zone
]

-- The month that holds the n-th day, counted from 0, of the months left; and the day in it.
month_of : ℕ → ℕ → List ℕ → ℕ × ℕ
month_of month n [] = (month, n + 1)
month_of month n (days ∷ months) =
    let later = month_of (month + 1) (n - days) months in
    if ltb n days then (month, n + 1) else later

-- The lengths of the months.
month_days : Bool → List ℕ
month_days leap =
    31 ∷ (if leap then 29 else 28) ∷ 31 ∷ 30 ∷ 31 ∷ 30 ∷ 31 ∷ 31 ∷ 30 ∷ 31 ∷ 30 ∷ 31 ∷ []

-- Year, month and day of the n-th day since 0001-01-01, counted from 0.
date_of : ℕ → ℕ × ℕ × ℕ
unfolding month_of month_days
date_of n =
    let n400 = n / 146097 in
    let a = n % 146097 in
    let n100 = a / 36524 in
    let b = a % 36524 in
    let n4 = b / 1461 in
    let c = b % 1461 in
    let n1 = c / 365 in
    let d = c % 365 in
    let year = n400 * 400 + n100 * 100 + n4 * 4 + n1 + 1 in
    let leap = n1 == 3 && (not (n4 == 24) || n100 == 3) in
    if n1 == 4 || n100 == 4
    then (year - 1, 12, 31)
    else let (m, k) = month_of 1 d (month_days leap) in (year, m, k)

-- `date.isoformat()` of the n-th day.
unfoldable pub isoformat : ℕ → Text
unfolding date_of
isoformat n =
    let (y, m, d) = date_of n in
    zero_padded 4 y ++ codes "-" ++ zero_padded 2 m ++ codes "-" ++ zero_padded 2 d

unfoldable pub business_date_for : Env → Branch → Instant → Text
unfolding branch_zone
business_date_for env branch now =
    isoformat ((branch_zone env branch now - branch.business_day_cutoff_hour * hour) / day)

iso_leap_day : isoformat 739675 ≡ codes "2026-03-01"
unfolding isoformat zero_padded
iso_leap_day = refl
