-- ===== src/Waitlist/Join.antt =====
-- `join_waitlist` of backend/app/services/waitlist.py.
use table_queue.Common.{
  ℕ, Bool, ◌&&◌, Option, none, some, [], ◌∷◌, ◌++◌, Text, leb, ◌==◌, text_eq, keep, first, strip,
}
use table_queue.Models.{WaitlistEntry, Instant, waiting, status_in, WaitlistSource}
use table_queue.Errors.{
  Result, ok, err, ◌>>=◌, ◌>>◌, ensure, app_error, waitlist_closed, waitlist_duplicate_phone,
  nothing, duplicate_of,
}
use table_queue.Store.{Db, order_by}
use table_queue.Waitlist.Statuses.{active_statuses}
use table_queue.Waitlist.Phone.{normalize_phone}
use table_queue.Waitlist.Dates.{Env, business_date_for}
use table_queue.Waitlist.Numbers.{
  next_seq, next_sort_order, queue_number_for, full_queue_number_for,
}
use table_queue.Waitlist.Lookup.{get_branch_or_404, get_settings_or_500}

abbrev pub oldest_first : WaitlistEntry → WaitlistEntry → Bool
oldest_first a b = leb a.created_at b.created_at

-- A live row of the branch and business date.
abbrev pub is_live : ℕ → Text → WaitlistEntry → Bool
is_live branch_id business_date e =
    e.branch_id == branch_id
    && text_eq e.business_date business_date
    && status_in e.status active_statuses

unfoldable pub active_entry_for_phone : Db → ℕ → Text → Text → Option WaitlistEntry
active_entry_for_phone db branch_id business_date normalized_phone = first (
    keep (λ e. text_eq (normalize_phone e.phone) normalized_phone)
      (order_by oldest_first (keep (is_live branch_id business_date) db.entries)))

-- `text or other`
unfoldable pub or_else : Text → Text → Text
or_else [] other = other
or_else (c ∷ s) other = c ∷ s

-- `(note or "").strip() or None`
unfoldable pub stripped_note : Option Text → Option Text
stripped_note none = none
stripped_note (some note) = elim (strip note) [ [] ↦ none | c ∷ s ↦ some (c ∷ s) ]

-- The body of a join, with what the process draws from the OS for it: the row's id (`uuid4`) and
-- the status token (`secrets.token_hex`).
pub record JoinRequest : Type 0 where
  pub name : Text
  pub phone : Text
  pub party_size : ℕ
  pub note : Option Text
  pub new_id : ℕ
  pub new_token : Text

unfoldable pub joining_entry : Db → ℕ → Text → Text → JoinRequest → Instant → WaitlistEntry
joining_entry db branch_id day prefix request now =
    let seq = next_seq db branch_id day prefix in
    record {
      id = request.new_id;
      branch_id = branch_id;
      queue_number = queue_number_for prefix seq;
      full_queue_number = full_queue_number_for prefix day seq;
      queue_prefix = prefix;
      seq = seq;
      business_date = day;
      name = strip request.name;
      phone = or_else (strip request.phone) (normalize_phone request.phone);
      party_size = request.party_size;
      note = stripped_note request.note;
      status = waiting;
      sort_order = next_sort_order db branch_id;
      source = WaitlistSource.customer;
      hold_minutes_snapshot = none;
      cancelled_reason = none;
      table_id = none;
      status_token = some request.new_token;
      created_at = now;
      updated_at = now;
      called_at = none;
      seated_at = none;
      closed_at = none;
    }

-- `if live is not None: raise`
abbrev pub ensure_free : Option WaitlistEntry → Result (Unit {0})
ensure_free none = ok tt
ensure_free (some live) =
    err (app_error waitlist_duplicate_phone none (duplicate_of live.queue_number))

unfoldable pub join_waitlist : Env → Db → ℕ → JoinRequest → Instant → Result (Db × WaitlistEntry)
join_waitlist env db branch_id request now = do
  branch ← get_branch_or_404 db branch_id
  settings ← get_settings_or_500 db branch_id
  ensure settings.is_waitlist_open (app_error waitlist_closed none nothing)
  let day = business_date_for env branch now
  ensure_free (active_entry_for_phone db branch_id day (normalize_phone request.phone))
  let entry = joining_entry db branch_id day settings.queue_prefix request now
  ok (record db { entries = db.entries ++ entry ∷ [] }, entry)
