-- ===== src/RateLimit/Storage.antt =====
-- `BoundedFrozenClockMemoryStorage`. The class that it extends, `MemoryStorage` of the package
-- limits, is a parameter with what it does to the two dicts of the fixed-window counters. A dict is
-- its items in insertion order. The locks of threads are left out: a worker counts one request at a
-- time.
use table_queue.Common.{
  ℕ, zero, suc, true, false, not, ◌≡◌, none, some, List, [], ◌∷◌, map, Text, text_eq, ltb, leb,
  keep, length, first, any_of, if◌then◌else◌,
}

abbrev pub counter_key_cap : ℕ
counter_key_cap = 10000

abbrev pub Dict : Type 0 → Type 0
Dict V = List (Text × V)

abbrev pub keys : {V : Type 0} → Dict V → List Text
keys = map (λ item. item.0)

-- `d.pop(key, None)`
unfoldable pub drop_key : {V : Type 0} → Text → Dict V → Dict V
drop_key key = keep (λ item. not (text_eq item.0 key))

pub record Counters : Type 0 where
  pub storage : Dict ℕ
  pub expirations : Dict ℕ
  pub events : Dict (List ℕ)

abbrev pub no_counters : Counters
no_counters = record { storage = []; expirations = []; events = [] }

abbrev pub Unique : List Text → Type 0
Unique [] = Unit
Unique (key ∷ rest) = (any_of (λ other. text_eq other key) rest ≡ false) × Unique rest

-- The two dicts have the same keys, in the order in which they were first counted.
pub record IsPaired (c : Counters) : Type 0 where
  pub same_keys : keys c.storage ≡ keys c.expirations
  pub unique : Unique (keys c.expirations)

pub record MemoryStorage : Type 0 where
  -- The clock, the key, the seconds of the window and the amount.
  pub incr : ℕ → Text → ℕ → ℕ → Counters → Counters × ℕ
  pub clear : Text → Counters → Counters
  pub incr-IsPaired :
      (now : ℕ) (key : Text) (expiry amount : ℕ) (c : Counters)
      → IsPaired c
      → IsPaired (incr now key expiry amount c).0
  pub clear-storage : (key : Text) (c : Counters) → (clear key c).storage ≡ drop_key key c.storage
  pub clear-expirations :
      (key : Text) (c : Counters) → (clear key c).expirations ≡ drop_key key c.expirations

-- `events[:cut]`: the events of a key are kept latest first.
unfoldable pub unexpired : ℕ → List ℕ → List ℕ
unexpired now [] = []
unexpired now (expiry ∷ rest) = if ltb now expiry then expiry ∷ unexpired now rest else []

abbrev pub cut_events : ℕ → Dict (List ℕ) → Dict (List ℕ)
cut_events now = map (λ item. (item.0, unexpired now item.1))

abbrev pub without : Text → Counters → Counters
without key c = record c {
  storage = drop_key key c.storage;
  expirations = drop_key key c.expirations;
}

-- The loop over `list(self.expirations.keys())`.
unfoldable pub sweep_counters : ℕ → Dict ℕ → Counters → Counters
sweep_counters now [] c = c
sweep_counters now ((key, expiry) ∷ rest) c =
    sweep_counters now rest (if leb expiry now then without key c else c)

unfoldable pub sweep : ℕ → Counters → Counters
sweep now c = sweep_counters now c.expirations (record c { events = cut_events now c.events })

module _ (parent : MemoryStorage) where
  -- The `while` loop of `_enforce_cap`, by one counter for each unit of fuel.
  unfoldable pub evict : ℕ → ℕ → Counters → Counters
  evict zero max_keys c = c
  evict (suc fuel) max_keys c = elim (ltb max_keys (length c.storage)) [
    | false ↦ c
    | true ↦ elim (first c.expirations) [
      | none ↦ c
      | some oldest ↦ evict fuel max_keys (parent.clear oldest.0 c)
    ]
  ]

  unfoldable pub enforce_cap : ℕ → Counters → Counters
  enforce_cap now c = let swept = sweep now c in evict (length swept.storage) counter_key_cap swept

  unfoldable pub incr : ℕ → Text → ℕ → ℕ → Counters → Counters × ℕ
  incr now key expiry amount c =
      let (counted, result) = parent.incr now key expiry amount c in
      (enforce_cap now counted, result)

-- The increments that a process makes, in order.
pub record Hit : Type 0 where
  pub now : ℕ
  pub key : Text
  pub expiry : ℕ
  pub amount : ℕ

unfoldable pub after_hits : MemoryStorage → List Hit → Counters → Counters
after_hits parent [] c = c
after_hits parent (hit ∷ hits) c =
    after_hits parent hits (incr parent hit.now hit.key hit.expiry hit.amount c).0
