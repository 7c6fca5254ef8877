-- ===== src/Requests/Line.antt =====
-- The line: the ids of the queue's rows in their order, as the staff list of
-- backend/app/services/staff_waitlist.py shows them, under a write of a row.
use table_queue.Common.{
  ℕ, ◌<◌, ◌≡◌, refl, sym, ap, ◌∙◌, subst, List, [], ◌∷◌, ◌++◌, map, Bool, true, false, not,
  if◌then◌else◌, keep, Bool-cases, inl, inr, arith, ◌==◌, leb, ltb, none, some, Text, ==_iff,
}
use mathlib.Core.List.{append-nil}
use table_queue.Models.{WaitlistEntry}
use table_queue.Store.{
  Db, In, Distinct, entry_key, find_entry, get_row, put_row, save_entry, order_by, map-order_by,
  order_by-append, keep-order_by, IsOrder, In-keep_of, Every, get_row_of_In, key-get_row,
}
use table_queue.Waitlist.Dates.{Env}
use table_queue.Waitlist.Statuses.{active_statuses}
use table_queue.StaffWaitlist.Listing.{filtered_rows, in_queue_order, is_listed}

unfoldable pub line : Env → Db → Text → List ℕ
line env db d = map (λ e. e.id) (filtered_rows env db active_statuses d none)

-- The line without an id.
abbrev pub without_id : ℕ → List ℕ → List ℕ
without_id k = keep (λ i. not (i == k))

-- What the order reads of a row, with its id.
abbrev Key : Type 0
Key = ℕ × ℕ × ℕ

abbrev keyed : WaitlistEntry → Key
keyed e = (e.id, e.sort_order, e.created_at)

abbrev key_before : Key → Key → Bool
key_before a b = if a.1 == b.1 then leb a.2 b.2 else ltb a.1 b.1

key_before-IsOrder : IsOrder key_before
key_before-IsOrder = record { total = λ a b h. ground arith; chain = λ a b c h k. ground arith }

ids-keyed : (rows : List WaitlistEntry) → map (λ e. e.id) rows ≡ map (λ k. k.0) (map keyed rows)
ids-keyed [] = refl
ids-keyed (e ∷ rows) = ap (◌∷◌ e.id) (ids-keyed rows)

not_id : ℕ → Key → Bool
not_id k x = not (x.0 == k)

ids-keep :
    (k : ℕ) (keys : List Key)
    → map (λ x. x.0) (keep (not_id k) keys) ≡ without_id k (map (λ x. x.0) keys)
unfolding not_id
ids-keep k [] = refl
ids-keep k (x ∷ keys) = ground (arith, ids-keep k keys)

ids-append :
    (rows : List WaitlistEntry) (e : WaitlistEntry)
    → map (λ e. e.id) (rows ++ e ∷ []) ≡ map (λ e. e.id) rows ++ e.id ∷ []
ids-append [] e = refl
ids-append (x ∷ rows) e = ap (◌∷◌ x.id) (ids-append rows e)

keep-append :
    {A : Type 0} (test : A → Bool) (xs : List A) (a : A)
    → keep test (xs ++ a ∷ []) ≡ keep test xs ++ (if test a then a ∷ [] else [])
keep-append test [] a = refl
keep-append test (x ∷ xs) a = ground (arith, keep-append test xs a)

module _ (env : Env) (d : Text) where
  listed : WaitlistEntry → Bool
  listed = is_listed env active_statuses d none

  line-keys :
      (db : Db)
      → line env db d ≡ map (λ k. k.0) (order_by key_before (map keyed (keep listed db.entries)))
  unfolding line filtered_rows listed
  line-keys db =
      ids-keyed (filtered_rows env db active_statuses d none)
      ∙ ap (map (λ k. k.0))
          (map-order_by keyed in_queue_order key_before (λ a b. refl) (keep listed db.entries))

  -- The row may take the place of every row with its id.
  abbrev Replaces : WaitlistEntry → WaitlistEntry → Type 0
  Replaces new x = x.id ≡ new.id → (keyed new ≡ keyed x) × (listed new ≡ listed x)

  keys_same :
      (new : WaitlistEntry) (rows : List WaitlistEntry)
      → Every (Replaces new) rows
      → map keyed (keep listed (put_row entry_key new rows)) ≡ map keyed (keep listed rows)
  unfolding put_row
  keys_same new [] every = refl
  keys_same new (x ∷ rows) every =
      let rest = keys_same new rows (λ e m. every e (inr m)) in
      elim (Bool-cases (x.id == new.id)) [
        | inr other ↦ elim (Bool-cases (listed x)) [
          | inl stays ↦ rw (other, stays) (ap (◌∷◌ (keyed x)) rest)
          | inr out ↦ rw (other, out) rest
        ]
        | inl same ↦
            let r = every x (inl refl) ((==_iff x.id new.id).0 same) in
            elim (Bool-cases (listed x)) [
              | inl stays ↦ rw (same, r.1, stays) (rw r.0 (ap (◌∷◌ (keyed x)) rest))
              | inr out ↦ rw (same, r.1, out) rest
            ]
      ]

  keys_gone :
      (new : WaitlistEntry) (rows : List WaitlistEntry)
      → listed new ≡ false
      → map keyed (keep listed (put_row entry_key new rows))
        ≡ keep (not_id new.id) (map keyed (keep listed rows))
  unfolding put_row not_id
  keys_gone new [] out = refl
  keys_gone new (x ∷ rows) out =
      let rest = keys_gone new rows out in
      elim (Bool-cases (x.id == new.id)) [
        | inr other ↦ elim (Bool-cases (listed x)) [
          | inl stays ↦ rw (other, stays) (rw other (ap (◌∷◌ (keyed x)) rest))
          | inr off ↦ rw (other, off) rest
        ]
        | inl same ↦ elim (Bool-cases (listed x)) [
          | inl stays ↦ rw (same, out, stays) (rw same rest)
          | inr off ↦ rw (same, out, off) rest
        ]
      ]

  -- A write that leaves the key of a row and its place on the queue leaves the line.
  pub line-save_same :
      (db : Db) (k : ℕ) (e new : WaitlistEntry)
      → Distinct entry_key db.entries
      → find_entry k db ≡ some e
      → keyed new ≡ keyed e
      → is_listed env active_statuses d none new ≡ is_listed env active_statuses d none e
      → line env (save_entry new db) d ≡ line env db d
  unfolding listed
  line-save_same db k e new distinct found same at =
      line-keys (save_entry new db)
      ∙ ap (λ keys. map (λ x. x.0) (order_by key_before keys)) (keys_same new db.entries every)
      ∙ sym (line-keys db)
    where
      every : Every (Replaces new) db.entries
      every x m p =
          let at_x = get_row_of_In entry_key x db.entries distinct m in
          let k_is = key-get_row entry_key k db.entries e found in
          let at_k : get_row entry_key k db.entries ≡ some x =
            subst (λ i. get_row entry_key i db.entries ≡ some x) (p ∙ ap (λ y. y.0) same ∙ k_is)
              at_x in
          let both : some x ≡ some e = sym at_k ∙ found in
          let x_is : x ≡ e = cc in (same ∙ ap keyed (sym x_is), at ∙ ap listed (sym x_is))

  -- A write that takes a row off the queue takes its id out of the line.
  pub line-save_gone :
      (db : Db) (new : WaitlistEntry)
      → is_listed env active_statuses d none new ≡ false
      → line env (save_entry new db) d ≡ without_id new.id (line env db d)
  unfolding listed
  line-save_gone db new out =
      line-keys (save_entry new db)
      ∙ ap (λ keys. map (λ x. x.0) (order_by key_before keys)) (keys_gone new db.entries out)
      ∙ ap (map (λ x. x.0)) (
          sym (
            keep-order_by key_before key_before-IsOrder (not_id new.id)
              (map keyed (keep listed db.entries))))
      ∙ ids-keep new.id (order_by key_before (map keyed (keep listed db.entries)))
      ∙ ap (without_id new.id) (sym (line-keys db))

  -- A row of the queue that stands behind all others of its branch.
  pub line-append :
      (db : Db) (new : WaitlistEntry)
      → ((e : WaitlistEntry)
          → In e db.entries
          → e.branch_id ≡ new.branch_id
          → e.sort_order < new.sort_order)
      → line env (record db { entries = db.entries ++ new ∷ [] }) d ≡ (
          if is_listed env active_statuses d none new
          then line env db d ++ new.id ∷ []
          else line env db d)
  unfolding line filtered_rows listed is_listed
  line-append db new last = elim (Bool-cases (listed new)) [
    | inr out ↦
        rw (keep-append listed db.entries new, out)
          (ap (λ rows. map (λ e. e.id) (order_by in_queue_order rows))
            (append-nil (keep listed db.entries)))
    | inl stays ↦
        rw (keep-append listed db.entries new, stays)
          (ap (map (λ e. e.id))
              (order_by-append in_queue_order new (keep listed db.entries) (behind stays))
            ∙ ids-append (order_by in_queue_order (keep listed db.entries)) new)
  ]
    where
      same_branch :
          (e : WaitlistEntry) → listed e ≡ true → listed new ≡ true → e.branch_id ≡ new.branch_id
      same_branch e here stays = ground arith

      behind :
          listed new ≡ true
          → (e : WaitlistEntry) → In e (keep listed db.entries)
          → in_queue_order e new ≡ true
      behind stays e m =
          let (inside, here) = In-keep_of listed db.entries e m in
          let less : e.sort_order < new.sort_order = last e inside (same_branch e here stays) in
          ground (arith, less)

  -- The line is of the entries.
  pub line-entries : (a b : Db) → a.entries ≡ b.entries → line env a d ≡ line env b d
  unfolding line filtered_rows
  line-entries a b e =
      ap
        (λ rows.
          map (λ r. r.id)
            (order_by in_queue_order (keep (is_listed env active_statuses d none) rows)))
        e
