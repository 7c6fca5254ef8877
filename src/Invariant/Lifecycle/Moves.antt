-- ===== src/Invariant/Lifecycle/Moves.antt =====
-- The moves of one entry, and what a store looks like after them. Section 5 of _docs/specs.md has
-- every edge but the last two, which `no_show_entry` of backend/app/services/staff_waitlist.py adds.
use table_queue.Common.{Bool, true, ◌≡◌, ◌⊎◌, none}
use table_queue.Models.{
  WaitlistEntry, WaitlistStatus, waiting, called, seated, done, no_show, cancelled,
}
use table_queue.Store.{Db, In, find_entry}

-- `true` where the request is the no-show of the staff.
pub data Moves : Bool → WaitlistStatus → WaitlistStatus → Type 0 where
  stays : {m : Bool} {s : WaitlistStatus} → Moves m s s
  calls : {m : Bool} → Moves m waiting called
  seats_waiting : {m : Bool} → Moves m waiting seated
  seats_called : {m : Bool} → Moves m called seated
  finishes : {m : Bool} → Moves m seated done
  loses_called : {m : Bool} → Moves m called no_show
  drops_waiting : {m : Bool} → Moves m waiting cancelled
  drops_called : {m : Bool} → Moves m called cancelled
  drops_seated : {m : Bool} → Moves m seated cancelled
  restores : {m : Bool} → Moves m no_show waiting
  reverts : {m : Bool} → Moves m called waiting
  loses_waiting : Moves true waiting no_show
  loses_seated : Moves true seated no_show

-- The row moved on from the row of its id, or joined.
abbrev pub CameFrom : Bool → Db → WaitlistEntry → Type 0
CameFrom m db e' =
    ((e : WaitlistEntry) × In e db.entries × (e.id ≡ e'.id) × Moves m e.status e'.status)
    ⊎ ((e'.status ≡ waiting) × (find_entry e'.id db ≡ none))

-- The row is still there, under its id.
abbrev pub Remains : Db → WaitlistEntry → Type 0
Remains db' e = (e' : WaitlistEntry) × In e' db'.entries × (e'.id ≡ e.id)

-- Every row moved on or joined, and none is gone.
abbrev pub Follows : Bool → Db → Db → Type 0
Follows m db db' =
    ((e' : WaitlistEntry) → In e' db'.entries → CameFrom m db e')
    × ((e : WaitlistEntry) → In e db.entries → Remains db' e)

-- DONE and CANCELLED are final.
abbrev pub IsFinal : WaitlistStatus → Type 0
IsFinal s = (s ≡ done) ⊎ (s ≡ cancelled)
