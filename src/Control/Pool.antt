-- ===== src/Control/Pool.antt =====
-- One call of the pool of ids, for a client that keeps apart what it holds.
use lalune_server.Base.{ℕ, ◌+◌, ◌≤◌, ◌<◌, ◌≡◌, ◌≢◌, refl, List, [], ◌∷◌, nat_key, count, arith}
use lalune_server.Ids.{Ids, get_id, release_id}

-- The pool's own part.
pub record IsPool (ids : Ids) : Type 0 where
  pub once : (x : ℕ) → count x ids.available_ids ≤ 1
  pub given : (x : ℕ) → 1 ≤ count x ids.available_ids → (1 ≤ x) × (x < ids.next_id)
  pub pos : 1 ≤ ids.next_id

-- An id that is taken is new or was in the pool.
pub record IsTaken (id : ℕ) (ids ids' : Ids) : Type 0 where
  pub pool : IsPool ids'
  pub id_pos : 1 ≤ id
  pub id_given : id < ids'.next_id
  pub id_out : count id ids'.available_ids ≡ 0
  pub others_out : (x : ℕ) → count x ids.available_ids ≡ 0 → count x ids'.available_ids ≡ 0
  pub grows : ids.next_id ≤ ids'.next_id
  pub grows_by_one : ids'.next_id ≤ ids.next_id + 1
  pub is_fresh : (x : ℕ) → x < ids.next_id → count x ids.available_ids ≡ 0 → x ≢ id

pub get_id-IsTaken :
    (ids : Ids)
    → IsPool ids
    → ids.next_id + 1 < 4294967296
    → IsTaken (get_id ids).0 ids (get_id ids).1
unfolding get_id
get_id-IsTaken ids p h = by_pool ids.available_ids refl
  where
    by_pool : (free : List ℕ) → ids.available_ids ≡ free → IsTaken (get_id ids).0 ids (get_id ids).1
    by_pool [] e = record {
      pool = record {
        once = λ x. ground (arith, p.once x);
        given = λ x k. ground (arith, p.given x);
        pos = ground (arith, p.pos);
      };
      id_pos = ground (arith, p.pos);
      id_given = ground arith;
      id_out = ground arith;
      others_out = λ x k. ground arith;
      grows = ground arith;
      grows_by_one = ground arith;
      is_fresh = λ x k l. ground arith;
    }
    by_pool (i ∷ rest) e = record {
      pool = record {
        once = λ x. ground (arith, p.once x);
        given = λ x k. ground (arith, p.given x);
        pos = ground (arith, p.pos);
      };
      id_pos = ground (arith, p.given i);
      id_given = ground (arith, p.given i);
      id_out = ground (arith, p.once i);
      others_out = λ x k. ground arith;
      grows = ground arith;
      grows_by_one = ground arith;
      is_fresh = λ x k l. ground arith;
    }

pub record IsReleased (id : ℕ) (ids ids' : Ids) : Type 0 where
  pub pool : IsPool ids'
  pub others_out : (x : ℕ) → x ≢ id → count x ids.available_ids ≡ 0 → count x ids'.available_ids ≡ 0
  pub others_given : (x : ℕ) → x ≢ id → x < ids.next_id → x < ids'.next_id
  pub next_le : ids'.next_id ≤ ids.next_id

pub release_id-IsReleased :
    (id : ℕ) (ids : Ids)
    → IsPool ids
    → 1 ≤ id
    → id < ids.next_id
    → count id ids.available_ids ≡ 0
    → ids.next_id < 4294967296
    → IsReleased id ids (release_id id ids)
unfolding release_id
release_id-IsReleased id ids p pos given out h = record {
  pool = record {
    once = λ x. ground (arith, p.once x);
    given = λ x k. ground (arith, p.given x);
    pos = ground (arith, p.pos);
  };
  others_out = λ x off k. ground arith;
  others_given = λ x off k. ground arith;
  next_le = ground arith;
}
