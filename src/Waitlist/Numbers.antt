-- ===== src/Waitlist/Numbers.antt =====
-- The numbers that a join allocates: `next_seq`, the queue numbers, and `next_sort_order`.
use table_queue.Common.{
  ℕ, ◌+◌, ◌<◌, ◌≡◌, inl, inr, Bool, true, false, ◌&&◌, Option, none, some, List, [], ◌∷◌, ◌++◌, map,
  arith, Text, codes, ◌==◌, text_eq, if◌then◌else◌, keep, top, zero_padded, zero_padded-injective,
  append_left_injective,
}
use table_queue.Models.{WaitlistEntry}
use table_queue.Store.{Db, In, In-map, In-keep}

-- The rows of one branch, business date and prefix.
abbrev pub numbered : ℕ → Text → Text → WaitlistEntry → Bool
numbered branch_id business_date queue_prefix e =
    e.branch_id == branch_id
    && text_eq e.business_date business_date
    && text_eq e.queue_prefix queue_prefix

-- One past the highest, starting at 1.
unfoldable pub one_past : Option ℕ → ℕ
one_past none = 1
one_past (some top) = top + 1

unfoldable pub next_seq : Db → ℕ → Text → Text → ℕ
unfolding one_past
next_seq db branch_id business_date queue_prefix =
    one_past
      (top (map (λ e. e.seq) (keep (numbered branch_id business_date queue_prefix) db.entries)))

unfoldable pub next_sort_order : Db → ℕ → ℕ
unfolding one_past
next_sort_order db branch_id =
    one_past (top (map (λ e. e.sort_order) (keep (λ e. e.branch_id == branch_id) db.entries)))

unfoldable pub queue_number_for : Text → ℕ → Text
queue_number_for prefix seq = prefix ++ zero_padded 3 seq

-- `business_date.replace("-", "")`
unfoldable pub undashed : Text → Text
undashed s = keep (λ c. if c == b'-' then false else true) s

unfoldable pub full_queue_number_for : Text → Text → ℕ → Text
unfolding undashed
full_queue_number_for prefix business_date seq =
    prefix ++ codes "-" ++ undashed business_date ++ codes "-" ++ zero_padded 3 seq

-- Under one prefix, two sequence numbers with the same queue number are the same.
pub queue_number_for-injective :
    (prefix : Text) (m n : ℕ) → queue_number_for prefix m ≡ queue_number_for prefix n → m ≡ n
unfolding queue_number_for
queue_number_for-injective prefix m n e =
    zero_padded-injective 3 m n (append_left_injective prefix _ _ e)

-- A number of a list stays below one past its highest.
lt-one_past-top : (xs : List ℕ) (x : ℕ) → In x xs → x < one_past (top xs)
unfolding one_past
lt-one_past-top [] x m = absurd m
lt-one_past-top (y ∷ ys) x (inl e) = ground (arith, lt-one_past-top ys)
lt-one_past-top (y ∷ ys) x (inr m) = ground (arith, lt-one_past-top ys x m)

-- A row of the triple has a sequence number below the next.
pub lt-next_seq :
    (db : Db) (branch_id : ℕ) (business_date queue_prefix : Text) (e : WaitlistEntry)
    → In e db.entries
    → numbered branch_id business_date queue_prefix e ≡ true
    → e.seq < next_seq db branch_id business_date queue_prefix
unfolding next_seq
lt-next_seq db b d p e m h =
    lt-one_past-top _ e.seq (In-map (λ r. r.seq) _ e (In-keep (numbered b d p) db.entries e m h))

-- A row of the branch stands before the next position.
pub lt-next_sort_order :
    (db : Db) (branch_id : ℕ) (e : WaitlistEntry)
    → In e db.entries
    → e.branch_id ≡ branch_id
    → e.sort_order < next_sort_order db branch_id
unfolding next_sort_order
lt-next_sort_order db b e m h =
    lt-one_past-top _ e.sort_order (
      In-map (λ r. r.sort_order) _ e
        (In-keep (λ r. r.branch_id == b) db.entries e m (ground arith)))
