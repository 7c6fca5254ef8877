-- ===== src/Examples/Staff.antt =====
-- The theorems of the staff's side, and of runs, at the stores of the fixture.
use table_queue.Common.{false, zero_padded, strip, ◌≡◌, refl, none, some, [], ◌∷◌, codes, inl}
use table_queue.Models.{done}
use table_queue.Errors.{ok}
use table_queue.Store.{entry_key, Distinct, Db, In, get_row, order_by, insert_row}
use table_queue.Waitlist.Dates.{business_date_for, isoformat}
use table_queue.StaffWaitlist.Filter.{status_filter, status_group, upper}
use table_queue.StaffWaitlist.Actions.{seat_entry, seated_entry, call_entry}
use table_queue.StaffWaitlist.Payload.{answered, entry_payload, get_entry, get_table_for_seat}
use table_queue.StaffWaitlist.Listing.{
  ListQuery, ListPayload, list_waitlist, queue_day, queue_rows, filtered_rows, day_for, latest_day,
  has_rows_on, is_listed, newest_or,
}
use table_queue.StaffWaitlist.Reorder.{reorder, active_rows, same_ids}
use table_queue.StaffWaitlist.CloseDay.{close_day}
use table_queue.Waitlist.Status.{is_lapsed, hold_deadline, lapsed_entry}
use table_queue.Dashboard.{apply_lazy_no_show_for_branch, branch_for_read, collect}
use table_queue.Dashboard.Counts.{apply_lazy_no_show_for_branch-exact, Counts, collect-Counts}
use table_queue.Requests.After.{store_after}
use table_queue.Requests.Seat.{Seated, SeatCases, seat_entry-ok, seat_entry-cases, seated_store}
use table_queue.Requests.Listing.{IsPage, list_waitlist-IsPage}
use table_queue.Requests.Reorder.{Renumbered, reorder-places}
use table_queue.Requests.Day.{close_day-again}
use table_queue.Requests.Steps.{Request, handle, IsSeating, here, then, seat, call}
use table_queue.Requests.Line.{line}
use table_queue.Requests.Moves.{Moves}
use table_queue.Requests.Refinement.{handle-Moves}
use table_queue.Invariant.Defs.{IsSound, IsSeated}
use table_queue.Invariant.Steps.{run-IsSound, run-IsSeated}
use table_queue.Invariant.Lifecycle.Moves.{Follows}
use table_queue.Invariant.Lifecycle.Runs.{handle-Follows, run-keeps_final}
use table_queue.Examples.Fixture.{
  called_ann, here_env, noon, later, table_one, ann, done_ann, store_with, one_entry-IsSound,
  one_entry-IsSeated, answer_of,
}

abbrev queue : Db
queue = store_with (ann ∷ []) table_one

queue-IsSound : IsSound queue
queue-IsSound = one_entry-IsSound ann table_one (refl, refl, refl, refl, refl)

queue-IsSeated : IsSeated queue
queue-IsSeated = one_entry-IsSeated ann table_one (λ h. cc)

-- Ann is seated at table 100.
abbrev seating : Request
seating = seat (some 7) (some 100)

run-IsSound_example : IsSound (handle here_env queue seating noon)
run-IsSound_example =
    run-IsSound here_env IsSeating queue (handle here_env queue seating noon)
      (then queue (handle here_env queue seating noon) seating noon tt tt
        (here (handle here_env queue seating noon)))
      queue-IsSound

run-IsSeated_example : IsSeated (handle here_env queue seating noon)
run-IsSeated_example =
    run-IsSeated here_env queue (handle here_env queue seating noon)
      (then queue (handle here_env queue seating noon) seating noon tt tt
        (here (handle here_env queue seating noon)))
      queue-IsSound queue-IsSeated

handle-Follows_example : Follows false queue (handle here_env queue seating noon)
handle-Follows_example = handle-Follows here_env queue seating noon tt queue-IsSound

abbrev finished : Db
finished = store_with (done_ann ∷ []) table_one

finished-IsSound : IsSound finished
finished-IsSound = one_entry-IsSound done_ann table_one (refl, refl, refl, refl)

-- A call of a DONE entry is refused.
still_there : In done_ann (handle here_env finished (call (some 7)) noon).entries
unfolding handle call_entry get_entry get_row
still_there = inl refl

run-keeps_final_example : done ≡ done
run-keeps_final_example =
    run-keeps_final here_env IsSeating finished (handle here_env finished (call (some 7)) noon)
      done_ann done_ann
      (then finished (handle here_env finished (call (some 7)) noon) (call (some 7)) noon tt tt
        (here (handle here_env finished (call (some 7)) noon)))
      finished-IsSound (inl refl) (inl refl) still_there refl

seated_run :
    seat_entry queue (some 7) (some 100) noon
    ≡ ok (answered (seated_store queue ann table_one noon) (seated_entry ann table_one noon) noon)
unfolding seat_entry get_entry get_table_for_seat get_row
seated_run = refl

seat_entry-ok_example :
    Seated queue (seated_store queue ann table_one noon) (some 7) (some 100) noon
seat_entry-ok_example =
    seat_entry-ok queue (seated_store queue ann table_one noon) (some 7) (some 100) noon
      (entry_payload (seated_store queue ann table_one noon) (seated_entry ann table_one noon) noon)
      seated_run

seat_entry-cases_example : SeatCases queue 7 100 noon
seat_entry-cases_example = seat_entry-cases queue 7 100 noon

close_day-again_example :
    (close_day here_env (close_day here_env queue noon noon).0 noon later).1
    ≡ record { cancelled = 0; done = 0; tables_cleaning = 0 }
close_day-again_example = close_day-again here_env queue noon noon later

abbrev no_page : ListPayload
no_page = record { items = []; total = 0 }

reordered_run :
    reorder here_env queue (7 ∷ []) noon noon
    ≡ ok (
      store_after queue (reorder here_env queue (7 ∷ []) noon noon),
      answer_of no_page (reorder here_env queue (7 ∷ []) noon noon),
    )
unfolding reorder active_rows queue_rows filtered_rows queue_day day_for newest_or latest_day
    has_rows_on order_by insert_row same_ids business_date_for isoformat is_listed get_row
    zero_padded
reordered_run = refl

reorder-places_example :
    Renumbered here_env queue
      (store_after queue (reorder here_env queue (7 ∷ []) noon noon))
      (7 ∷ [])
      noon
reorder-places_example =
    reorder-places here_env queue (store_after queue (reorder here_env queue (7 ∷ []) noon noon))
      (7 ∷ []) noon noon (answer_of no_page (reorder here_env queue (7 ∷ []) noon noon))
      (queue-IsSound.entry_ids) reordered_run

abbrev active_query : ListQuery
active_query = record {
  status = codes "ACTIVE";
  search = none;
  party_size = none;
  limit = 100;
  offset = 0;
}

listed_run :
    list_waitlist here_env queue active_query noon
    ≡ ok (
      store_after queue (list_waitlist here_env queue active_query noon),
      answer_of no_page (list_waitlist here_env queue active_query noon),
    )
unfolding list_waitlist status_filter status_group upper strip
listed_run = refl

list_waitlist-IsPage_example :
    IsPage here_env
      (store_after queue (list_waitlist here_env queue active_query noon))
      active_query
      noon
      (answer_of no_page (list_waitlist here_env queue active_query noon))
list_waitlist-IsPage_example =
    list_waitlist-IsPage here_env queue
      (store_after queue (list_waitlist here_env queue active_query noon)) active_query noon
      (answer_of no_page (list_waitlist here_env queue active_query noon)) queue-IsSound listed_run

abbrev calling : Db
calling = store_with (called_ann ∷ []) table_one

calling_ids : Distinct entry_key calling.entries
unfolding get_row
calling_ids = (refl, tt)

apply_lazy_no_show_for_branch-exact_example :
    apply_lazy_no_show_for_branch calling 1 (codes "2026-03-01") later
    ≡ store_with (lapsed_entry called_ann later ∷ []) table_one
unfolding is_lapsed hold_deadline
apply_lazy_no_show_for_branch-exact_example =
    apply_lazy_no_show_for_branch-exact calling 1 (codes "2026-03-01") later calling_ids

collect-Counts_example :
    Counts here_env calling later
      (branch_for_read here_env calling)
      (collect here_env calling later).1
collect-Counts_example = collect-Counts here_env calling later calling_ids

handle-Moves_example :
    Moves
      (call (some 7))
      (line here_env queue (codes "2026-03-01"))
      (line here_env (handle here_env queue (call (some 7)) noon) (codes "2026-03-01"))
unfolding get_row
handle-Moves_example =
    handle-Moves here_env (codes "2026-03-01") queue noon (refl, tt) (call (some 7)) tt
