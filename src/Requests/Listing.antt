-- ===== src/Requests/Listing.antt =====
-- What the staff list and the public board show: pages, orders and calls that have run out.
use table_queue.Common.{
  ℕ, zero, suc, ◌≤◌, ◌≡◌, refl, sym, ap, inl, inr, true, false, Option, none, some, List, [], ◌∷◌,
  map, arith, keep, take, drop, length, Text, subst,
}
use table_queue.Models.{WaitlistEntry, WaitlistStatus, Instant}
use table_queue.Errors.{Result, ok, >>=-eq-ok}
use table_queue.Store.{
  Db, In, order_by, In-order_by, In-keep_of, In-map_of, IsSorted, IsOrder, order_by-IsSorted,
}
use table_queue.Waitlist.Dates.{Env}
use table_queue.Waitlist.Board.{recent_calls, called_later}
use table_queue.StaffWaitlist.Filter.{status_filter, matches_search}
use table_queue.StaffWaitlist.Payload.{entry_payload, EntryPayload}
use table_queue.StaffWaitlist.Listing.{
  ListQuery, ListPayload, list_waitlist, sweep_expired, queue_rows, queue_day, filtered_rows,
  is_listed, search_in, in_queue_order,
}
use table_queue.StaffWaitlist.Listing.Sweep.{is_swept}
use table_queue.Invariant.Defs.{IsSound}
use table_queue.Invariant.Day.{sweep_expired-none_left}

In-take : {A : Type 0} (n : ℕ) (xs : List A) (a : A) → In a (take n xs) → In a xs
In-take zero xs a m = absurd m
In-take (suc n) [] a m = m
In-take (suc n) (x ∷ xs) a (inl p) = inl p
In-take (suc n) (x ∷ xs) a (inr m) = inr (In-take n xs a m)

In-drop : {A : Type 0} (n : ℕ) (xs : List A) (a : A) → In a (drop n xs) → In a xs
In-drop zero xs a m = m
In-drop (suc n) [] a m = m
In-drop (suc n) (x ∷ xs) a m = inr (In-drop n xs a m)

length-take :
    {A : Type 0} (n : ℕ) (xs : List A) → (length (take n xs) ≤ n) × (length (take n xs) ≤ length xs)
length-take zero xs = ground arith
length-take (suc n) [] = ground arith
length-take (suc n) (x ∷ xs) = ground (arith, length-take n xs)

length-drop : {A : Type 0} (n : ℕ) (xs : List A) → length (drop n xs) ≤ length xs
length-drop zero xs = ground arith
length-drop (suc n) [] = ground arith
length-drop (suc n) (x ∷ xs) = ground (arith, length-drop n xs)

length-map : {A B : Type 0} (f : A → B) (xs : List A) → length (map f xs) ≡ length xs
length-map f [] = refl
length-map f (x ∷ xs) = ap suc (length-map f xs)

In-search_in :
    (search : Option Text) (rows : List WaitlistEntry) (e : WaitlistEntry)
    → In e (search_in search rows)
    → In e rows
In-search_in none rows e m = m
In-search_in (some []) rows e m = m
In-search_in (some (c ∷ s)) rows e m = (In-keep_of (λ r. matches_search r (c ∷ s)) rows e m).0

-- A listed row is a row of the store that the filter admits.
pub In-queue_rows :
    (env : Env) (db : Db) (statuses : List WaitlistStatus) (day : Text) (search : Option Text)
    (party_size : Option ℕ) (e : WaitlistEntry)
    → In e (queue_rows env db statuses day search party_size)
    → In e db.entries × (is_listed env statuses day party_size e ≡ true)
unfolding queue_rows filtered_rows
In-queue_rows env db statuses day search party_size e m =
    let rows = keep (is_listed env statuses day party_size) db.entries in
    let n = In-search_in search (order_by in_queue_order rows) e m in
    In-keep_of (is_listed env statuses day party_size) db.entries e
      (In-order_by in_queue_order e rows n)

-- Where an item of a page comes from.
abbrev pub Shown : Env → Db → ListQuery → Instant → EntryPayload → Type 0
Shown env db query now item =
    (e : WaitlistEntry) × (statuses : List WaitlistStatus) × In e db.entries
    × (item ≡ entry_payload db e now)
    × (status_filter query.status ≡ ok statuses)
    × (is_listed env statuses (queue_day env db now) query.party_size e ≡ true)
    × (is_swept env now e ≡ false)

parts :
    {A B : Type 0} (a c : A) (b d : B)
    → ◌≡◌ {A = Result (A × B)} (ok (a, b)) (ok (c, d))
    → (a ≡ c) × (b ≡ d)
parts a c b d h = (cc, cc)

page_bounds :
    {A B : Type 0} (f : A → B) (limit offset : ℕ) (rows : List A)
    → (length (map f (take limit (drop offset rows))) ≤ limit)
      × (length (map f (take limit (drop offset rows))) ≤ length rows)
page_bounds f limit offset rows = ground (
  arith,
  length-map f (take limit (drop offset rows)),
  length-take limit (drop offset rows),
  length-drop offset rows,
)

abbrev pub IsPage : Env → Db → ListQuery → Instant → ListPayload → Type 0
IsPage env db query now page =
    (length page.items ≤ query.limit)
    × (length page.items ≤ page.total)
    × ((item : EntryPayload) → In item page.items → Shown env db query now item)

-- From sound rows, a page of the staff list has at most `limit` and at most `total` items; each
-- shows a row of the branch and the queue's day that passes the status and party size filters, and
-- none is a call of the branch whose hold has run out.
pub list_waitlist-IsPage :
    (env : Env) (db db' : Db) (query : ListQuery) (now : Instant) (page : ListPayload)
    → IsSound db
    → list_waitlist env db query now ≡ ok (db', page)
    → IsPage env db' query now page
unfolding list_waitlist
list_waitlist-IsPage env db db' query now page s h =
    let (statuses, named, h') = >>=-eq-ok (status_filter query.status) _ h in
    let swept = sweep_expired env db now in
    let day = queue_day env swept now in
    let rows = queue_rows env swept statuses day query.search query.party_size in
    let (same_db, same_page) = parts swept db' _ page h' in
    let bounds = page_bounds (λ e. entry_payload swept e now) query.limit query.offset rows in
    (
      subst (λ p. length p.items ≤ query.limit) same_page bounds.0,
      subst (λ p. length p.items ≤ p.total) same_page bounds.1,
      λ item m.
          let m' = subst (λ p. In item p.items) (sym same_page) m in
          let (e, n, is_its) =
            In-map_of (λ r. entry_payload swept r now) (take query.limit (drop query.offset rows))
              item m' in
          let n' = In-drop query.offset rows e (In-take query.limit (drop query.offset rows) e n) in
          let (stored, listed) =
            In-queue_rows env swept statuses day query.search query.party_size e n' in
          subst (λ d. Shown env d query now item) same_db
            (
              e,
              statuses,
              stored,
              is_its,
              named,
              listed,
              sweep_expired-none_left env db now s e stored,
            ),
    )

called_later-IsOrder : IsOrder called_later
unfolding called_later
called_later-IsOrder = record { total = λ a b h. ground arith; chain = λ a b c h k. ground arith }

in_queue_order-IsOrder : IsOrder in_queue_order
in_queue_order-IsOrder = record { total = λ a b h. ground arith; chain = λ a b c h k. ground arith }

-- The rows of the queue stand in the order of position, then of the time of joining.
pub filtered_rows-IsSorted :
    (env : Env) (db : Db) (statuses : List WaitlistStatus) (day : Text) (party_size : Option ℕ)
    → IsSorted in_queue_order (filtered_rows env db statuses day party_size)
unfolding filtered_rows
filtered_rows-IsSorted env db statuses day party_size =
    order_by-IsSorted in_queue_order in_queue_order-IsOrder
      (keep (is_listed env statuses day party_size) db.entries)

IsSorted-take :
    (n : ℕ) (xs : List WaitlistEntry) → IsSorted called_later xs → IsSorted called_later (take n xs)
IsSorted-take zero xs s = tt
IsSorted-take (suc n) [] s = tt
IsSorted-take (suc n) (x ∷ xs) s = (λ e m. s.0 e (In-take n xs e m), IsSorted-take n xs s.1)

-- The latest call first, at most `limit` of them, and each one of the rows.
abbrev pub AreRecent : List WaitlistEntry → ℕ → List WaitlistEntry → Type 0
AreRecent rows limit calls =
    IsSorted called_later calls
    × (length calls ≤ limit)
    × ((e : WaitlistEntry) → In e calls → In e rows)

-- The recent calls of the board are at most `limit` of the given rows, and stand with the latest
-- call first.
pub recent_calls-AreRecent :
    (rows : List WaitlistEntry) (limit : ℕ) → AreRecent rows limit (recent_calls rows limit)
unfolding recent_calls
recent_calls-AreRecent rows limit = (
  IsSorted-take limit (order_by called_later rows)
      (order_by-IsSorted called_later called_later-IsOrder rows),
  (length-take limit (order_by called_later rows)).0,
  λ e m. In-order_by called_later e rows (In-take limit (order_by called_later rows) e m),
)
