-- ===== src/Waitlist/Statuses.antt =====
-- The status sets of backend/app/services/waitlist.py.
use table_queue.Common.{List, [], ◌∷◌}
use table_queue.Models.{WaitlistStatus, waiting, called, seated, done, no_show, cancelled}

abbrev pub active_statuses : List WaitlistStatus
active_statuses = waiting ∷ called ∷ seated ∷ []

abbrev pub left_waiting_statuses : List WaitlistStatus
left_waiting_statuses = seated ∷ done ∷ no_show ∷ cancelled ∷ []

abbrev pub call_recency : List WaitlistStatus
call_recency = cancelled ∷ seated ∷ done ∷ no_show ∷ called ∷ []

abbrev pub cancelable_statuses : List WaitlistStatus
cancelable_statuses = waiting ∷ called ∷ []
