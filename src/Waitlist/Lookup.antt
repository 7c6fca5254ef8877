-- ===== src/Waitlist/Lookup.antt =====
-- Branch, settings and entry lookups of backend/app/services/waitlist.py.
use table_queue.Common.{
  ℕ, Bool, false, ◌&&◌, Option, none, some, ◌++◌, Text, codes, leb, ◌==◌, text_eq, keep, first,
}
use table_queue.Models.{Branch, Settings, WaitlistEntry, Instant}
use table_queue.Errors.{
  Result, or_raise, app_error, branch_not_found, internal_error, waitlist_not_found, nothing,
}
use table_queue.Store.{Db, find_branch, order_by}
use table_queue.Waitlist.Phone.{phone_last3}
use table_queue.Waitlist.Dates.{Env, business_date_for}

unfoldable pub status_url : WaitlistEntry → Text
status_url e = codes "/status/" ++ e.queue_number

unfoldable pub get_branch_or_404 : Db → ℕ → Result Branch
get_branch_or_404 db branch_id =
    or_raise (find_branch branch_id db) (app_error branch_not_found none nothing)

unfoldable pub get_settings_or_500 : Db → ℕ → Result Settings
get_settings_or_500 db branch_id =
    or_raise (first (keep (λ s. s.branch_id == branch_id) db.settings))
      (app_error internal_error none nothing)

-- `column == value` where the column may be NULL.
abbrev holds_text : Option Text → Text → Bool
holds_text none t = false
holds_text (some s) t = text_eq s t

abbrev pub has_token : Text → Text → WaitlistEntry → Bool
has_token queue_number token e =
    text_eq e.queue_number queue_number && holds_text e.status_token token

unfoldable pub find_entry_by_token : Db → Text → Text → Result WaitlistEntry
find_entry_by_token db queue_number token =
    or_raise (first (keep (has_token queue_number token) db.entries))
      (app_error waitlist_not_found none nothing)

-- The row is of its branch's current business date.
unfoldable pub is_of_today : Env → Db → Instant → WaitlistEntry → Bool
is_of_today env db now e = elim (find_branch e.branch_id db) [
  | none ↦ false
  | some branch ↦ text_eq e.business_date (business_date_for env branch now)
]

abbrev pub newest_first : WaitlistEntry → WaitlistEntry → Bool
newest_first a b = leb b.created_at a.created_at

abbrev pub answers_tail : Env → Db → Text → Instant → WaitlistEntry → Bool
answers_tail env db last3 now e = text_eq (phone_last3 e.phone) last3 && is_of_today env db now e

unfoldable pub find_entry_by_tail : Env → Db → Text → Text → Instant → Result WaitlistEntry
find_entry_by_tail env db queue_number last3 now =
    or_raise
      (first (
        keep (answers_tail env db last3 now)
          (order_by newest_first (keep (λ e. text_eq e.queue_number queue_number) db.entries))))
      (app_error waitlist_not_found none nothing)
