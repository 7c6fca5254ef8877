-- ===== src/Models/Tests.antt =====
-- `is`, `==` and `in` on the enums.
use table_queue.Common.{Bool, true, false, ◌≡◌, List, any_of, arith}
use table_queue.Models.Defs.{
  WaitlistStatus, waiting, called, seated, done, no_show, cancelled, TableStatus, available,
  occupied, cleaning,
}

-- `a is b`
abbrev pub status_is : WaitlistStatus → WaitlistStatus → Bool
status_is waiting waiting = true
status_is called called = true
status_is seated seated = true
status_is done done = true
status_is no_show no_show = true
status_is cancelled cancelled = true
status_is _ _ = false

-- `status in statuses`
abbrev pub status_in : WaitlistStatus → List WaitlistStatus → Bool
status_in s statuses = any_of (status_is s) statuses

abbrev pub table_status_is : TableStatus → TableStatus → Bool
table_status_is available available = true
table_status_is occupied occupied = true
table_status_is cleaning cleaning = true
table_status_is _ _ = false

pub status_is→eq : (a b : WaitlistStatus) → status_is a b ≡ true → a ≡ b
status_is→eq a b h = ground arith

pub status_is_self : (a : WaitlistStatus) → status_is a a ≡ true
status_is_self a = ground arith

pub table_status_is→eq : (a b : TableStatus) → table_status_is a b ≡ true → a ≡ b
table_status_is→eq a b h = ground arith
