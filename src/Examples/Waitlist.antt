-- ===== src/Examples/Waitlist.antt =====
-- The theorems of the guest's side at the stores of the fixture.
use table_queue.Common.{digits_of, ◌≡◌, ◌≢◌, refl, true, none, some, [], ◌∷◌, codes}
use table_queue.Errors.{ok}
use table_queue.Store.{In, Single, entry_key, get_row}
use table_queue.Waitlist.Dates.{business_date_for}
use table_queue.Waitlist.Phone.{phone_last3, mask_last3, digits_of-mask_last3}
use table_queue.Waitlist.Lookup.{find_entry_by_token}
use table_queue.Waitlist.Join.{join_waitlist, joining_entry}
use table_queue.Waitlist.Status.{is_lapsed, hold_deadline, waiting_ahead, lapsed_entry}
use table_queue.Public.{resolve_entry}
use table_queue.StaffWaitlist.Listing.{sweep_expired}
use table_queue.StaffWaitlist.Listing.Sweep.{sweep_expired-exact}
use table_queue.Requests.After.{store_after}
use table_queue.Requests.Seating.{cancel-needs_token}
use table_queue.Requests.Join.{
  JoinCases, join_waitlist-cases, SharesPhone, join-phones, waiting_ahead-joined,
}
use table_queue.Examples.Fixture.{
  here_env, noon, later, table_one, ann, called_ann, store_with, bob, branch_one, settings_one,
  only,
}

branch_found : get_row (λ b. b.id) 1 (store_with (ann ∷ []) table_one).branches ≡ some branch_one
unfolding get_row
branch_found = refl

join_waitlist-cases_example :
    JoinCases here_env
      (store_with (ann ∷ []) table_one)
      1
      bob
      noon
      (business_date_for here_env branch_one noon)
      (codes "A")
join_waitlist-cases_example =
    join_waitlist-cases here_env (store_with (ann ∷ []) table_one) 1 bob noon branch_one
      settings_one branch_found refl refl

one_phone : Single entry_key SharesPhone (ann ∷ [])
one_phone a b m n r = rw (only ann a m, only ann b n) refl

join-phones_example :
    Single entry_key SharesPhone
      (store_after
        (store_with (ann ∷ []) table_one)
        (join_waitlist here_env (store_with (ann ∷ []) table_one) 1 bob noon)).entries
join-phones_example = join-phones here_env (store_with (ann ∷ []) table_one) 1 bob noon one_phone

waiting_ahead-joined_example :
    waiting_ahead
      (record (store_with (ann ∷ []) table_one) {
        entries =
            ann
            ∷ joining_entry
                (store_with (ann ∷ []) table_one)
                1
                (codes "2026-03-01")
                (codes "A")
                bob
                noon
            ∷ [];
      })
      (joining_entry (store_with (ann ∷ []) table_one) 1 (codes "2026-03-01") (codes "A") bob noon)
    ≡ 1
waiting_ahead-joined_example =
    waiting_ahead-joined (store_with (ann ∷ []) table_one) 1 (codes "2026-03-01") (codes "A") bob
      noon

sweep_expired-exact_example :
    sweep_expired here_env (store_with (called_ann ∷ []) table_one) later
    ≡ store_with (lapsed_entry called_ann later ∷ []) table_one
unfolding is_lapsed hold_deadline get_row
sweep_expired-exact_example =
    sweep_expired-exact here_env (store_with (called_ann ∷ []) table_one) later (refl, tt)

resolved :
    resolve_entry here_env
      (store_with (ann ∷ []) table_one)
      (codes "A001")
      (some (codes "abcd"))
      none
      true
      noon
    ≡ ok ann
unfolding resolve_entry find_entry_by_token
resolved = refl

cancel-needs_token_example :
    In ann (ann ∷ [])
    × (codes "A001" ≡ codes "A001")
    × (some (codes "abcd") ≡ some (codes "abcd"))
    × (some (codes "abcd") ≢ none)
cancel-needs_token_example =
    cancel-needs_token here_env (store_with (ann ∷ []) table_one) (codes "A001")
      (some (codes "abcd")) none noon ann resolved

digits_of-mask_last3_example :
    digits_of (mask_last3 (codes "0912-345-678")) ≡ phone_last3 (codes "0912-345-678")
digits_of-mask_last3_example = digits_of-mask_last3 (codes "0912-345-678")
