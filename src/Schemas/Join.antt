-- ===== src/Schemas/Join.antt =====
-- `join_waitlist` of backend/app/routers/public.py, with the checks that FastAPI makes before it.
use table_queue.Common.{
  is_decimal, ℕ, ◌≡◌, ◌≤◌, sym, ap, subst, ◌∙◌, Bool, true, ◌&&◌, none, some, List, [], ◌∷◌, ◌++◌,
  Text, codes, length, strip, strip-strip, keep, leb→le, arith, inl, inr, &&-eq-true, if◌then◌else◌,
}
use table_queue.Models.{WaitlistEntry, Instant}
use table_queue.Errors.{
  Result, ok, err, ◌>>=◌, >>=-eq-ok, ensure, nothing, waitlist_closed, app_error, validation_error,
  rejected,
}
use table_queue.Store.{Db}
use table_queue.Waitlist.Dates.{Env, business_date_for}
use table_queue.Waitlist.Phone.{normalize_phone}
use table_queue.Waitlist.Join
use table_queue.Waitlist.Join.{JoinRequest, joining_entry, ensure_free, active_entry_for_phone}
use table_queue.Waitlist.Lookup.{get_branch_or_404, get_settings_or_500}
use table_queue.Public
use table_queue.Public.{GuestPayload, build_entry_response}
use table_queue.Schemas.Settings.{within}
use table_queue.Schemas.Refusals.{joined, joined-nil, first-name}
use table_queue.Schemas.Guest.{
  JoinWaitlistRequest, bound_join, join_refusals, is_phone, is_phone-digits, refused_if_not,
}

abbrev pub path_int_max : ℕ
path_int_max = 9223372036854775807

-- `Annotated[int, Path(ge=1, le=...)]`
abbrev is_branch_id : ℕ → Bool
is_branch_id = within 1 path_int_max

-- What the checked body hands to the service, with the draws of the process.
abbrev pub join_request : JoinWaitlistRequest → ℕ → Text → JoinRequest
join_request body new_id new_token = record {
  name = body.name;
  phone = body.phone;
  party_size = body.party_size;
  note = body.note;
  new_id = new_id;
  new_token = new_token;
}

abbrev path_error : JoinWaitlistRequest → Result JoinWaitlistRequest
path_error body = err (
    app_error validation_error (some 422)
      (rejected (codes "path.branch_id" ∷ joined (join_refusals body))))

unfoldable pub post_join :
    Env → Db → ℕ → JoinWaitlistRequest → ℕ → Text → Instant → Result (Db × GuestPayload)
post_join env db branch_id body new_id new_token now = do
  bound ← if is_branch_id branch_id then bound_join body else path_error body
  Public.join_waitlist env db branch_id (join_request bound new_id new_token) now

accepted : (field : Text) (passes : Bool) → refused_if_not field passes ≡ [] → passes ≡ true
accepted field passes h = ground arith

-- A body that passes, and what it hands on.
bound_join-ok :
    (body bound : JoinWaitlistRequest)
    → bound_join body ≡ ok bound
    → (bound ≡ record body { name = strip body.name })
      × (is_phone body.phone ≡ true)
      × (within 1 20 body.party_size ≡ true)
unfolding bound_join
bound_join-ok body bound h = elim (first-name (joined (join_refusals body))) [
  | inl none_refused ↦
      let (named, (phoned, (sized, rest))) = joined-nil (join_refusals body) none_refused in
      (
        trimmed none_refused,
        (&&-eq-true (
            accepted (codes "phone") (within 9 15 (length body.phone) && is_phone body.phone)
              phoned)).1,
        accepted (codes "party_size") (within 1 20 body.party_size) sized,
      )
  | inr (field, fields, some_refused) ↦ absurd (refuses field fields some_refused)
]
  where
    refuses : (field : Text) (fields : List Text) → joined (join_refusals body) ≡ field ∷ fields → ⊥
    refuses field fields e = ground arith

    trimmed : joined (join_refusals body) ≡ [] → bound ≡ record body { name = strip body.name }
    trimmed e = ground arith

-- A join that answers appends the row that it builds.
join_waitlist-appends :
    (env : Env) (db : Db) (branch_id : ℕ) (request : JoinRequest) (now : Instant) (db' : Db)
    (entry : WaitlistEntry)
    → Join.join_waitlist env db branch_id request now ≡ ok (db', entry)
    → (entry.name ≡ strip request.name)
      × (entry.party_size ≡ request.party_size)
      × (db'.entries ≡ db.entries ++ entry ∷ [])
unfolding Join.join_waitlist joining_entry
join_waitlist-appends env db branch_id request now db' entry h =
    let (branch, b, h1) = >>=-eq-ok (get_branch_or_404 db branch_id) _ h in
    let (settings, s, h2) = >>=-eq-ok (get_settings_or_500 db branch_id) _ h1 in
    let (u, o, h3) =
      >>=-eq-ok (ensure settings.is_waitlist_open (app_error waitlist_closed none nothing)) _ h2 in
    let day = business_date_for env branch now in
    let (v, f, h4) =
      >>=-eq-ok
        (ensure_free (active_entry_for_phone db branch_id day (normalize_phone request.phone))) _
        h3 in
    let built = joining_entry db branch_id day settings.queue_prefix request now in
    let same : built ≡ entry = cc in
    let rows : db.entries ++ built ∷ [] ≡ db'.entries = cc in
    (
      ap (λ (e : WaitlistEntry). e.name) (sym same),
      ap (λ (e : WaitlistEntry). e.party_size) (sym same),
      sym rows ∙ ap (λ (e : WaitlistEntry). db.entries ++ e ∷ []) same,
    )

-- A join over HTTP that succeeds appends one entry and answers with it; the entry has the trimmed
-- name and the party size of the body, which is from 1 to 20, and the phone of the body has ten
-- digits.
pub post_join-stores :
    (env : Env) (db db' : Db) (branch_id : ℕ) (body : JoinWaitlistRequest) (new_id : ℕ)
    (new_token : Text) (now : Instant) (payload : GuestPayload)
    → post_join env db branch_id body new_id new_token now ≡ ok (db', payload)
    → (entry : WaitlistEntry) × (db'.entries ≡ db.entries ++ entry ∷ [])
      × (payload ≡ build_entry_response entry)
      × (entry.name ≡ strip body.name)
      × (entry.party_size ≡ body.party_size)
      × (1 ≤ body.party_size)
      × (body.party_size ≤ 20)
      × (length (keep is_decimal body.phone) ≡ 10)
unfolding post_join Public.join_waitlist Join.join_waitlist joining_entry
post_join-stores env db db' branch_id body new_id new_token now payload h =
    let (bound, passed, h1) =
      >>=-eq-ok (if is_branch_id branch_id then bound_join body else path_error body) _ h in
    let (same, phone, party) = bound_join-ok body bound (checked passed) in
    let request = join_request bound new_id new_token in
    let ((joined_db, entry), joins, h2) =
      >>=-eq-ok (Join.join_waitlist env db branch_id request now) _ h1 in
    let (name, size, rows) =
      join_waitlist-appends env db branch_id request now joined_db entry joins in
    let at : joined_db ≡ db' = cc in
    let shown : build_entry_response entry ≡ payload = cc in
    (
      entry,
      subst (λ d. d.entries ≡ db.entries ++ entry ∷ []) at rows,
      sym shown,
      name ∙ ap strip (ap (λ b. b.name) same) ∙ strip-strip body.name,
      size ∙ ap (λ b. b.party_size) same,
      leb→le 1 body.party_size (&&-eq-true party).0,
      leb→le body.party_size 20 (&&-eq-true party).1,
      is_phone-digits body.phone phone,
    )
  where
    checked :
        {bound : JoinWaitlistRequest}
        → (if is_branch_id branch_id then bound_join body else path_error body) ≡ ok bound
        → bound_join body ≡ ok bound
    checked passed = ground arith
