-- ===== src/Waitlist/Board.antt =====
-- The public board of backend/app/services/waitlist.py.
use table_queue.Common.{
  ℕ, suc, Bool, ◌&&◌, Option, none, some, List, [], ◌∷◌, ◌++◌, map, Text, codes, ltb, leb, ◌==◌,
  text_eq, if◌then◌else◌, keep, first, take, length,
}
use table_queue.Models.{
  Branch, WaitlistStatus, WaitlistEntry, Instant, waiting, called, status_is, status_in,
}
use table_queue.Errors.{Result, ok, ◌>>=◌}
use table_queue.Store.{Db, order_by, restaurant_name}
use table_queue.Waitlist.Statuses.{left_waiting_statuses, call_recency}
use table_queue.Waitlist.Dates.{Env, business_date_for}
use table_queue.Waitlist.Lookup.{get_branch_or_404, get_settings_or_500}

unfoldable pub hours_for : Branch → Text
hours_for branch = branch.open_time ++ codes "-" ++ branch.close_time

pub record BoardItem : Type 0 where
  pub queue_number : Text
  pub party_size : ℕ

abbrev pub board_item : WaitlistEntry → BoardItem
board_item e = record { queue_number = e.queue_number; party_size = e.party_size }

-- `statuses.index(status)`; a status that is not there, which `index` would refuse, counts past the
-- end.
abbrev index_of : WaitlistStatus → List WaitlistStatus → ℕ
index_of s [] = 0
index_of s (t ∷ ts) = if status_is s t then 0 else suc (index_of s ts)

unfoldable pub recency : WaitlistEntry → ℕ
recency e = index_of e.status call_recency

-- Newest call first: by the rank of the status, then by `seq`, both descending.
unfoldable pub called_later : WaitlistEntry → WaitlistEntry → Bool
unfolding recency
called_later a b = if recency a == recency b then leb b.seq a.seq else ltb (recency b) (recency a)

unfoldable pub recent_calls : List WaitlistEntry → ℕ → List WaitlistEntry
recent_calls rows limit = take limit (order_by called_later rows)

pub record BoardPayload : Type 0 where
  pub restaurant_name : Text
  pub branch_name : Text
  pub hours : Text
  pub is_waitlist_open : Bool
  pub waiting_count : ℕ
  pub current_called : Option BoardItem
  pub next_up : Option BoardItem
  pub recent_calls : List BoardItem

abbrev pub by_sort_order : WaitlistEntry → WaitlistEntry → Bool
by_sort_order a b = leb a.sort_order b.sort_order

abbrev pub is_of_day : ℕ → Text → WaitlistEntry → Bool
is_of_day branch_id day e = e.branch_id == branch_id && text_eq e.business_date day

abbrev item_of : Option WaitlistEntry → Option BoardItem
item_of none = none
item_of (some e) = some (board_item e)

unfoldable pub board : Env → Db → ℕ → Instant → Result BoardPayload
board env db branch_id now = do
  branch ← get_branch_or_404 db branch_id
  settings ← get_settings_or_500 db branch_id
  let day = business_date_for env branch now
  let rows = order_by by_sort_order (keep (is_of_day branch_id day) db.entries)
  let waiting_rows = keep (λ e. status_is e.status waiting) rows
  let called_rows = keep (λ e. status_is e.status called) rows
  let left_rows = keep (λ e. status_in e.status left_waiting_statuses) rows
  ok (record {
    restaurant_name = restaurant_name db branch;
    branch_name = branch.name;
    hours = hours_for branch;
    is_waitlist_open = settings.is_waitlist_open;
    waiting_count = length waiting_rows;
    current_called = item_of (first called_rows);
    next_up = item_of (first waiting_rows);
    recent_calls = map board_item (recent_calls left_rows 3);
  })

pub record BranchPayload : Type 0 where
  pub restaurant_name : Text
  pub branch_name : Text
  pub address : Text
  pub phone : Text
  pub open_time : Text
  pub close_time : Text
  pub hours : Text
  pub is_waitlist_open : Bool
  pub timezone : Text

unfoldable pub branch_info : Db → ℕ → Result BranchPayload
branch_info db branch_id = do
  branch ← get_branch_or_404 db branch_id
  settings ← get_settings_or_500 db branch_id
  ok (record {
    restaurant_name = restaurant_name db branch;
    branch_name = branch.name;
    address = branch.address;
    phone = branch.phone;
    open_time = branch.open_time;
    close_time = branch.close_time;
    hours = hours_for branch;
    is_waitlist_open = settings.is_waitlist_open;
    timezone = branch.timezone;
  })
