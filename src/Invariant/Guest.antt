-- ===== src/Invariant/Guest.antt =====
-- The guest's requests keep the invariants.
use table_queue.Common.{ℕ, ◌≡◌, ◌≢◌, refl, sym, none, arith, ==_iff, text_eq_iff, Text}
use table_queue.Models.{WaitlistEntry, Instant, waiting, seated}
use table_queue.Store.{Db, In, entry_key, find_entry, append-Distinct, append-Single, append-Every}
use table_queue.Requests.After.{store_after}
use table_queue.Requests.Guest.{join_cases, lazy_no_show_cases, guest_cancel_cases}
use table_queue.Waitlist.Dates.{Env, business_date_for}
use table_queue.Waitlist.Numbers.{next_seq, lt-next_seq}
use table_queue.Waitlist.Join.{JoinRequest, joining_entry, join_waitlist}
use table_queue.Waitlist.Status.{apply_lazy_no_show, lapsed_entry, is_lapsed}
use table_queue.Waitlist.Cancel.{cancel_entry, guest_cancelled_entry}
use table_queue.Invariant.Defs.{IsConsistent, IsSound, SameNumber, IsSeated, SeatHeld, SharesTable}
use table_queue.Invariant.Saves.{save_entry-IsSound, save_entry-IsSeated}

-- The sequence number of a joining row is taken by nobody.
number_is_new :
    (db : Db) (branch_id : ℕ) (day prefix : Text) (f : WaitlistEntry)
    → In f db.entries
    → f.branch_id ≡ branch_id
    → f.business_date ≡ day
    → f.queue_prefix ≡ prefix
    → f.seq ≢ next_seq db branch_id day prefix
number_is_new db b d p f m same_branch same_day same_prefix same_seq =
    let below = lt-next_seq db b d p f m (
      ground (
        arith,
        (==_iff f.branch_id b).1,
        (text_eq_iff f.business_date d).1,
        (text_eq_iff f.queue_prefix p).1,
      )) in
    omega arith

module _ (env : Env) (db : Db) (now : Instant) (s : IsSound db) where
  pub join-IsSound :
      (branch_id : ℕ) (request : JoinRequest)
      → find_entry request.new_id db ≡ none
      → IsSound (store_after db (join_waitlist env db branch_id request now))
  unfolding joining_entry
  join-IsSound branch_id request fresh =
      join_cases IsSound env db now branch_id request s λ branch settings found free.
        let day = business_date_for env branch now in
        let e = joining_entry db branch_id day settings.queue_prefix request now in
        record {
          entry_ids = append-Distinct entry_key e db.entries s.entry_ids fresh;
          table_ids = s.table_ids;
          numbers =
              append-Single entry_key SameNumber e db.entries s.numbers
                (λ f n r. absurd (
                  number_is_new db branch_id day settings.queue_prefix f n (sym r.0) (sym r.1)
                    (sym r.2) (sym r.3)))
                (λ f n r.
                  absurd
                    (number_is_new db branch_id day settings.queue_prefix f n r.0 r.1 r.2 r.3));
          rows = append-Every IsConsistent e db.entries s.rows (refl, refl, refl, refl, refl);
        }

  pub lazy_no_show-IsSound :
      (e : WaitlistEntry) → In e db.entries → IsSound (apply_lazy_no_show db e now).0
  unfolding is_lapsed
  lazy_no_show-IsSound e m = lazy_no_show_cases IsSound env db now e s λ lapsed.
      let fits = s.rows e m in
      save_entry-IsSound db e (lapsed_entry e now) s m refl (refl, refl, refl, refl) (ground arith)

  pub guest_cancel-IsSound :
      (e : WaitlistEntry) → In e db.entries → IsSound (store_after db (cancel_entry db e now))
  guest_cancel-IsSound e m = guest_cancel_cases IsSound env db now e s λ was.
      let fits = s.rows e m in
      save_entry-IsSound db e (guest_cancelled_entry e now) s m refl (refl, refl, refl, refl)
        (ground arith)

module _ (env : Env) (db : Db) (now : Instant) (p : IsSeated db) where
  pub join-IsSeated :
      (branch_id : ℕ) (request : JoinRequest)
      → IsSeated (store_after db (join_waitlist env db branch_id request now))
  unfolding joining_entry
  join-IsSeated branch_id request =
      join_cases IsSeated env db now branch_id request p λ branch settings found free.
        let day = business_date_for env branch now in
        let e = joining_entry db branch_id day settings.queue_prefix request now in
        record {
          seats = append-Every (SeatHeld db.tables) e db.entries p.seats (λ sits. cc);
          alone =
              append-Single entry_key SharesTable e db.entries p.alone
                (λ f n r. absurd (the_waiting r.0)) (λ f n r. absurd (the_waiting r.1));
        }
    where
      the_waiting : waiting ≢ seated
      the_waiting h = cc

  pub lazy_no_show-IsSeated : (e : WaitlistEntry) → IsSeated (apply_lazy_no_show db e now).0
  lazy_no_show-IsSeated e =
      lazy_no_show_cases IsSeated env db now e p
        λ lapsed. save_entry-IsSeated db (lapsed_entry e now) p (λ h. cc)

  pub guest_cancel-IsSeated :
      (e : WaitlistEntry) → IsSeated (store_after db (cancel_entry db e now))
  guest_cancel-IsSeated e =
      guest_cancel_cases IsSeated env db now e p
        λ was. save_entry-IsSeated db (guest_cancelled_entry e now) p (λ h. cc)
