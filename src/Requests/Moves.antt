-- ===== src/Requests/Moves.antt =====
-- The moves of an abstract queue, a list of ids, that requests ask for.
use table_queue.Common.{ℕ, ◌≡◌, ◌⊎◌, none, some, List, [], ◌∷◌, ◌++◌}
use table_queue.Models.{no_show}
use table_queue.StaffWaitlist.Payload.{RawId}
use table_queue.Requests.Line.{without_id}
use table_queue.Requests.Steps.{
  Request, join, read_status, guest_cancel, list, dashboard, call, no_show, restore, revert, cancel,
  seat, edit, reorder_queue, close, create, update, delete, set_status, release,
}

-- The id of the request is taken out, or the request is refused.
abbrev pub TakesOut : RawId → List ℕ → List ℕ → Type 0
TakesOut none old new = new ≡ old
TakesOut (some k) old new = (new ≡ old) ⊎ (new ≡ without_id k old)

-- One id is taken out, or none.
abbrev pub LosesOne : List ℕ → List ℕ → Type 0
LosesOne old new = (new ≡ old) ⊎ ((k : ℕ) × (new ≡ without_id k old))

-- The move of the abstract queue that the request asks for. The requests that move many parties, or
-- bring one back into the middle, are not among them.
abbrev pub Moves : Request → List ℕ → List ℕ → Type 0
Moves (join branch_id request) old new = (new ≡ old) ⊎ (new ≡ old ++ request.new_id ∷ [])
Moves (guest_cancel number token tail) old new = LosesOne old new
Moves (call e) old new = new ≡ old
Moves (seat e t) old new = new ≡ old
Moves (revert e) old new = new ≡ old
Moves (edit e fields) old new = new ≡ old
Moves (no_show e) old new = TakesOut e old new
Moves (cancel e) old new = TakesOut e old new
Moves (read_status number token tail) old new = LosesOne old new
Moves (list query) old new = ⊥
Moves dashboard old new = ⊥
Moves (restore e) old new = ⊥
Moves (reorder_queue ids wall) old new = ⊥
Moves (close wall) old new = ⊥
Moves (create payload new_id) old new = new ≡ old
Moves (update t payload) old new = new ≡ old
Moves (delete t) old new = new ≡ old
Moves (set_status t status) old new = new ≡ old
Moves (release t) old new = LosesOne old new

abbrev pub IsMove : Request → Type 0
IsMove (join branch_id request) = Unit
IsMove (guest_cancel number token tail) = Unit
IsMove (call e) = Unit
IsMove (seat e t) = Unit
IsMove (revert e) = Unit
IsMove (edit e fields) = Unit
IsMove (no_show e) = Unit
IsMove (cancel e) = Unit
IsMove (read_status number token tail) = Unit
IsMove (list query) = ⊥
IsMove dashboard = ⊥
IsMove (restore e) = ⊥
IsMove (reorder_queue ids wall) = ⊥
IsMove (close wall) = ⊥
IsMove (create payload new_id) = Unit
IsMove (update t payload) = Unit
IsMove (delete t) = Unit
IsMove (set_status t status) = Unit
IsMove (release t) = Unit
