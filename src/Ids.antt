-- ===== src/Ids.antt =====
-- include/utility1.h: the pool of numbers `AvailableIDs<T>`. The arithmetic is that of
-- `AvailableIDs<uint32_t>`, from which the control server takes server ids. The gateway's pool is an
-- `AvailableIDs<int>`, whose operations are the same as long as no number passes the largest int;
-- Gateway has no result where one would.
use lalune_server.Base.{
  ℕ, ◌+◌, ◌≤◌, ◌<◌, ◌≡◌, refl, List, [], ◌∷◌, arith, if◌then◌else◌, ◌==◌, leb, u32, count, elem,
  remove, count-remove, count-pos_of_elem, nat_key, Bool-cases, inl, inr, length, ◌<◌,
}

-- The head of the list is the back of the vector.
pub record Ids : Type 0 where
  pub next_id : ℕ
  pub available_ids : List ℕ

unfoldable pub init : Ids
init = record { next_id = 1; available_ids = [] }

take_id : List ℕ → Ids → ℕ × Ids
take_id [] s = (s.next_id, record s { next_id = u32 (s.next_id + 1) })
take_id (i ∷ rest) s = (i, record s { available_ids = rest })

unfoldable pub get_id : Ids → ℕ × Ids
unfolding take_id
get_id s = take_id s.available_ids s

unfoldable pub release_id : ℕ → Ids → Ids
release_id i s =
    if u32 (i + 1) == s.next_id
    then record s { next_id = u32 (s.next_id + 4294967295) }
    else record s { available_ids = i ∷ s.available_ids }

-- The clients' side: which ids are out, as a list that each call updates.
pub data Call : Type 0 where
  get : Call
  release : ℕ → Call

pub record System : Type 0 where
  pub ids : Ids
  pub held : List ℕ

-- A client releases only what it holds.
pub step : System → Call → System
unfolding get_id release_id
step s get = let (i, ids') = get_id s.ids in record { ids = ids'; held = i ∷ s.held }
step s (release i) =
    if elem i s.held then record { ids = release_id i s.ids; held = remove i s.held } else s

pub run : System → List Call → System
run s [] = s
run s (c ∷ cs) = run (step s c) cs

abbrev pub start : System
unfolding init
start = record { ids = init; held = [] }

-- Each id from 1 on is out, or waits in the pool, or was never given out: exactly one of these.
pub record Partitions (s : System) : Type 0 where
  pub once :
      (x : ℕ)
      → 1 ≤ x
      → count x s.held + count x s.ids.available_ids + (if leb s.ids.next_id x then 1 else 0) ≡ 1
  pub no_zero : (count 0 s.held ≡ 0) × (count 0 s.ids.available_ids ≡ 0)
  pub next_pos : 1 ≤ s.ids.next_id

start-Partitions : Partitions start
unfolding init
start-Partitions = record {
  once = λ x h. ground arith;
  no_zero = (refl, refl);
  next_pos = omega arith;
}

get-Partitions :
    (s : System) → Partitions s → s.ids.next_id + 1 < 4294967296 → Partitions (step s get)
unfolding step get_id
get-Partitions s p h = take_cases s.ids.available_ids refl
  where
    take_cases : (free : List ℕ) → s.ids.available_ids ≡ free → Partitions (step s get)
    take_cases [] e = record {
      once = λ x pos. ground (arith, p.once x pos);
      no_zero = ground arith;
      next_pos = ground arith;
    }
    take_cases (i ∷ rest) e = record {
      once = λ x pos. ground (arith, p.once x pos);
      no_zero = ground arith;
      next_pos = ground arith;
    }

release-Partitions :
    (s : System) (i : ℕ)
    → Partitions s
    → s.ids.next_id < 4294967296
    → Partitions (step s (release i))
unfolding step release_id
release-Partitions s i p h = elim (Bool-cases (elem i s.held)) [
  | inl out ↦ record {
    once = λ x pos. ground (
      arith,
      p.once x pos,
      p.once i,
      count-remove i x s.held,
      count-remove i 0 s.held,
      count-pos_of_elem i s.held,
    );
    no_zero = ground (arith, p.once i, count-remove i 0 s.held, count-pos_of_elem i s.held);
    next_pos = ground (arith, p.once i, count-pos_of_elem i s.held);
  }
  | inr other ↦ rw other p
]

step-next :
    (s : System) (c : Call)
    → Partitions s
    → s.ids.next_id + 1 < 4294967296
    → (step s c).ids.next_id ≤ s.ids.next_id + 1
unfolding step get_id release_id
step-next s get p h = take_next s.ids.available_ids refl
  where
    take_next :
        (free : List ℕ) → s.ids.available_ids ≡ free → (step s get).ids.next_id ≤ s.ids.next_id + 1
    take_next [] e = ground arith
    take_next (i ∷ rest) e = ground arith
step-next s (release i) p h = ground (arith, p.next_pos)

step-Partitions :
    (s : System) (c : Call) → Partitions s → s.ids.next_id + 1 < 4294967296 → Partitions (step s c)
step-Partitions s get p h = get-Partitions s p h
step-Partitions s (release i) p h = release-Partitions s i p (omega arith)

run-Partitions :
    (s : System) (cs : List Call)
    → Partitions s
    → s.ids.next_id + length cs < 4294967296
    → Partitions (run s cs)
unfolding run
run-Partitions s [] p h = p
run-Partitions s (c ∷ cs) p h =
    run-Partitions (step s c) cs (step-Partitions s c p (omega arith))
      (omega (arith, step-next s c p (omega arith)))

-- After fewer than 2 ^ 32 - 1 calls, each id from 1 on is out, or waits in the pool, or was never
-- given out: exactly one of these; and 0 is neither out nor in the pool.
pub run-start-Partitions : (cs : List Call) → length cs < 4294967295 → Partitions (run start cs)
unfolding init
run-start-Partitions cs h = run-Partitions start cs start-Partitions (omega arith)

-- After fewer than 2 ^ 32 - 1 calls, the id that is given out next is at least 1, and no client holds
-- it.
pub get_id-fresh :
    (cs : List Call)
    → length cs < 4294967295
    → let s = run start cs in (1 ≤ (get_id s.ids).0) × (count (get_id s.ids).0 s.held ≡ 0)
get_id-fresh cs h = fresh_of (run start cs) (run-start-Partitions cs h)
  where
    by_pool :
        (s : System) (free : List ℕ)
        → s.ids.available_ids ≡ free
        → Partitions s
        → (1 ≤ (get_id s.ids).0) × (count (get_id s.ids).0 s.held ≡ 0)
    by_pool s [] e p = unfold get_id in ground (arith, p.once s.ids.next_id, p.next_pos)
    by_pool s (i ∷ rest) e p = unfold get_id in ground (arith, p.once i, p.no_zero)

    fresh_of :
        (s : System) → Partitions s → (1 ≤ (get_id s.ids).0) × (count (get_id s.ids).0 s.held ≡ 0)
    fresh_of s p = by_pool s s.ids.available_ids refl p
