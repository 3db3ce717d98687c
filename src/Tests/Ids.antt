-- ===== src/Tests/Ids.antt =====
-- include/utility1.h: `AvailableIDs`.
use lalune_server.Base.{◌≤◌, ◌≡◌, List, [], ◌∷◌, arith, count, nat_key}
use lalune_server.Ids.{
  Call, get, release, start, run, get_id, Partitions, run-start-Partitions, get_id-fresh,
}

-- Two ids are taken, the first comes back, and two more are taken.
abbrev calls : List Call
calls = get ∷ get ∷ release 1 ∷ get ∷ get ∷ []

run-start-Partitions_example : Partitions (run start calls)
run-start-Partitions_example = run-start-Partitions calls (omega arith)

get_id-fresh_example :
    (1 ≤ (get_id (run start calls).ids).0)
    × (count (get_id (run start calls).ids).0 (run start calls).held ≡ 0)
get_id-fresh_example = get_id-fresh calls (omega arith)
