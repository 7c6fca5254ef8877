-- ===== src/StaffWaitlist/Filter.antt =====
-- The status filter, the search and the status sets of backend/app/services/staff_waitlist.py.
-- A letter is an ASCII letter.
use table_queue.Common.{
  ℕ, ◌+◌, ◌-◌, ◌≡◌, refl, Bool, true, false, ◌&&◌, ◌||◌, not, Option, none, some, List, [], ◌∷◌,
  ◌++◌, Text, codes, leb, ◌==◌, text_eq, if◌then◌else◌, length, digits_of, strip,
}
use table_queue.Models.{
  WaitlistEntry, WaitlistStatus, waiting, called, seated, done, no_show, cancelled, status_in,
}
use table_queue.Errors.{Result, ok, err, ◌>>=◌, app_error, validation_error, field}
use table_queue.Waitlist.Statuses.{active_statuses}
use table_queue.Waitlist.Phone.{phone_last3}

abbrev pub closed_statuses : List WaitlistStatus
closed_statuses = no_show ∷ cancelled ∷ done ∷ []

abbrev pub all_statuses : List WaitlistStatus
all_statuses = waiting ∷ called ∷ seated ∷ done ∷ no_show ∷ cancelled ∷ []

abbrev pub editable_statuses : List WaitlistStatus
editable_statuses = waiting ∷ called ∷ []

abbrev pub seatable_statuses : List WaitlistStatus
seatable_statuses = waiting ∷ called ∷ []

abbrev pub callable_statuses : List WaitlistStatus
callable_statuses = waiting ∷ []

abbrev pub no_show_statuses : List WaitlistStatus
no_show_statuses = waiting ∷ called ∷ seated ∷ []

abbrev pub cancellable_by_staff_statuses : List WaitlistStatus
cancellable_by_staff_statuses = waiting ∷ called ∷ seated ∷ []

-- `STATUS_GROUPS.get(name)`
unfoldable pub status_group : Text → Option (List WaitlistStatus)
status_group name =
    if text_eq name (codes "ACTIVE")
    then some active_statuses
    else if text_eq name (codes "CLOSED")
    then some closed_statuses
    else if text_eq name (codes "ALL")
    then some all_statuses
    else none

-- `WaitlistStatus[name]`
unfoldable pub status_named : Text → Option WaitlistStatus
status_named name =
    if text_eq name (codes "WAITING")
    then some waiting
    else if text_eq name (codes "CALLED")
    then some called
    else if text_eq name (codes "SEATED")
    then some seated
    else if text_eq name (codes "DONE")
    then some done
    else if text_eq name (codes "NO_SHOW")
    then some no_show
    else if text_eq name (codes "CANCELLED")
    then some cancelled
    else none

abbrev upper_letter : ℕ → ℕ
upper_letter c = if leb b'a' c && leb c b'z' then c - 32 else c

abbrev lower_letter : ℕ → ℕ
lower_letter c = if leb b'A' c && leb c b'Z' then c + 32 else c

-- `s.upper()`
unfoldable pub upper : Text → Text
upper [] = []
upper (c ∷ s) = upper_letter c ∷ upper s

-- `s.lower()`
unfoldable pub lower : Text → Text
lower [] = []
lower (c ∷ s) = lower_letter c ∷ lower s

-- `s.split(",")`, with `part` the letters of the part that is being read.
unfoldable pub split_from : Text → Text → List Text
split_from part [] = part ∷ []
split_from part (c ∷ s) = elim (c == b',') [
  | true ↦ part ∷ split_from [] s
  | false ↦ split_from (part ++ c ∷ []) s
]

-- `[str(part).strip().upper() for part in parts]`
unfoldable pub tidied : List Text → List Text
tidied [] = []
tidied (p ∷ ps) = upper (strip p) ∷ tidied ps

-- `dict.fromkeys(resolved)`: the first of each.
unfoldable pub deduplicated : List WaitlistStatus → List WaitlistStatus → List WaitlistStatus
deduplicated seen [] = []
deduplicated seen (s ∷ ss) =
    let rest = deduplicated (s ∷ seen) ss in
    let repeated = deduplicated seen ss in if status_in s seen then repeated else s ∷ rest

unfoldable pub resolved_statuses : List Text → Result (List WaitlistStatus)
resolved_statuses [] = ok []
resolved_statuses (part ∷ parts) = elim (status_named part) [
  | none ↦ err (app_error validation_error (some 422) (field (codes "status")))
  | some s ↦ resolved_statuses parts >>= λ ss. ok (s ∷ ss)
]

-- One part may name a group; else each part names a status.
abbrev group_or_statuses : Option (List WaitlistStatus) → List Text → Result (List WaitlistStatus)
group_or_statuses (some group) parts = ok group
group_or_statuses none parts = resolved_statuses parts >>= λ ss. ok (deduplicated [] ss)

abbrev group_of : List Text → Option (List WaitlistStatus)
group_of (part ∷ []) = status_group part
group_of _ = none

unfoldable pub status_filter : Text → Result (List WaitlistStatus)
unfolding split_from tidied
status_filter status =
    let parts = tidied (split_from [] status) in group_or_statuses (group_of parts) parts

abbrev starts_with : Text → Text → Bool
starts_with [] s = true
starts_with (a ∷ p) [] = false
starts_with (a ∷ p) (c ∷ s) = a == c && starts_with p s

-- `needle in s`
unfoldable pub contains : Text → Text → Bool
contains needle [] = starts_with needle []
contains needle (c ∷ s) = starts_with needle (c ∷ s) || contains needle s

abbrev pub is_empty : Text → Bool
is_empty [] = true
is_empty (c ∷ s) = false

unfoldable pub matches_search : WaitlistEntry → Text → Bool
matches_search entry needle =
    let tail = digits_of needle in
    let needle_text = lower (strip needle) in
    if length tail == 3 && text_eq tail (phone_last3 entry.phone)
    then true
    else if not (is_empty tail)
    then false
    else not (is_empty needle_text) && contains needle_text (lower entry.name)

group_by_name : status_filter (codes " active") ≡ ok active_statuses
unfolding status_filter status_group upper strip
group_by_name = refl

listed_statuses : status_filter (codes "waiting,DONE,WAITING") ≡ ok (waiting ∷ done ∷ [])
unfolding status_filter status_group resolved_statuses status_named deduplicated upper strip
listed_statuses = refl
