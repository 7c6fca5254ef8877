-- ===== src/Public.antt =====
-- The guest endpoints of backend/app/routers/public.py. An absent credential is `none`, and an
-- empty one counts as absent.
use table_queue.Common.{ℕ, Bool, true, false, Option, none, some, [], ◌∷◌, Text, if◌then◌else◌}
use table_queue.Models.{WaitlistEntry, WaitlistStatus, WaitlistSource, CancelledReason, Instant}
use table_queue.Errors.{Result, ok, err, ◌>>=◌, app_error, waitlist_not_found, nothing}
use table_queue.Store.{Db}
use table_queue.Waitlist.Phone.{mask_phone, mask_last3}
use table_queue.Waitlist.Dates.{Env}
use table_queue.Waitlist.Lookup.{find_entry_by_token, find_entry_by_tail, status_url}
use table_queue.Waitlist.Join
use table_queue.Waitlist.Join.{JoinRequest}
use table_queue.Waitlist.Status.{StatusPayload, build_status_payload}
use table_queue.Waitlist.Cancel.{cancel_entry}

abbrev unauthorised : Result WaitlistEntry
unauthorised = err (app_error waitlist_not_found none nothing)

-- The lookup by a phone tail, where one is given.
abbrev pub by_tail : Env → Db → Text → Option Text → Instant → Result WaitlistEntry
by_tail env db queue_number none now = unauthorised
by_tail env db queue_number (some []) now = unauthorised
by_tail env db queue_number (some (c ∷ tail)) now =
    find_entry_by_tail env db queue_number (c ∷ tail) now

unfoldable pub resolve_entry :
    Env → Db → Text → Option Text → Option Text → Bool → Instant → Result WaitlistEntry
resolve_entry env db queue_number (some (c ∷ token)) phone_tail for_cancel now =
    find_entry_by_token db queue_number (c ∷ token)
resolve_entry env db queue_number (some []) phone_tail for_cancel now =
    if for_cancel then unauthorised else by_tail env db queue_number phone_tail now
resolve_entry env db queue_number none phone_tail for_cancel now =
    if for_cancel then unauthorised else by_tail env db queue_number phone_tail now

-- `WaitlistEntryResponse` as the guest sees it.
pub record GuestPayload : Type 0 where
  pub id : ℕ
  pub queue_number : Text
  pub full_queue_number : Text
  pub status : WaitlistStatus
  pub party_size : ℕ
  pub created_at : Instant
  pub updated_at : Instant
  pub name : Text
  pub phone_masked : Text
  pub note : Option Text
  pub source : WaitlistSource
  pub cancelled_reason : Option CancelledReason
  pub called_at : Option Instant
  pub seated_at : Option Instant
  pub hold_minutes_snapshot : Option ℕ
  pub table_id : Option ℕ
  pub status_token : Option Text
  pub status_url : Text

unfoldable pub build_entry_response : WaitlistEntry → GuestPayload
build_entry_response entry = record {
  id = entry.id;
  queue_number = entry.queue_number;
  full_queue_number = entry.full_queue_number;
  status = entry.status;
  party_size = entry.party_size;
  created_at = entry.created_at;
  updated_at = entry.updated_at;
  name = entry.name;
  phone_masked = mask_phone entry.phone;
  note = entry.note;
  source = entry.source;
  cancelled_reason = entry.cancelled_reason;
  called_at = entry.called_at;
  seated_at = entry.seated_at;
  hold_minutes_snapshot = entry.hold_minutes_snapshot;
  table_id = entry.table_id;
  status_token = entry.status_token;
  status_url = status_url entry;
}

unfoldable pub join_waitlist : Env → Db → ℕ → JoinRequest → Instant → Result (Db × GuestPayload)
join_waitlist env db branch_id request now = do
  (db', entry) ← Join.join_waitlist env db branch_id request now
  ok (db', build_entry_response entry)

-- The status answer, with the compact mask of the phone.
abbrev StatusAnswer : Type 0
StatusAnswer = StatusPayload × Text

-- The store comes back also where the read raises: the lazy no-show is committed before.
unfoldable pub get_waitlist_status :
    Env → Db → Text → Option Text → Option Text → Instant → Db × Result StatusAnswer
get_waitlist_status env db queue_number token phone_last3 now =
    elim (resolve_entry env db queue_number token phone_last3 false now) [
      | err e ↦ (db, err e)
      | ok entry ↦
          let (db', payload) = build_status_payload db entry now in
          (db', payload >>= λ p. ok (p, mask_last3 entry.phone))
    ]

unfoldable pub cancel_waitlist :
    Env → Db → Text → Option Text → Option Text → Instant → Result (Db × GuestPayload)
cancel_waitlist env db queue_number token phone_last3 now = do
  entry ← resolve_entry env db queue_number token phone_last3 true now
  (db', row) ← cancel_entry db entry now
  ok (db', build_entry_response row)
