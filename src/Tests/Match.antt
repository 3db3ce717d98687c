-- ===== src/Tests/Match.antt =====
-- IntegretedServer/AutomatchServer.cpp.
use lalune_server.Base.{
  ℕ, ◌≤◌, ◌≡◌, ◌≢◌, refl, List, [], ◌∷◌, ◌++◌, arith, nat_key, bytes_key, pair_key, Bool, true,
  Option, none, some, inl,
}
use mathlib.Core.Option.{none-ne-some}
use lalune_server.Base.Maps.{lookup}
use lalune_server.Match.Heroes.{UnitData, add_force, add_force_lem, pick, sort, limit, ◌>>=◌}
use lalune_server.Match.Servers.{
  PvPServerInfo, IpPort, times, IsSorted, register_in, register_in_lem,
}
use lalune_server.Match.Waiting.{IsCancellable, match_request-IsCancellable, match_cancel_lem}
use lalune_server.Match.Games.{match_request-create_game_response, requests}
use lalune_server.Match.{
  AutoMatchServer, MatchKey, WaitingUser, Output, GameInitData, match_request, match_cancel,
  create_game_response_got, to_both, success, servers_of,
}

add_force_lem_example :
    (x y z : UnitData) × (add_force (7 ∷ 2 ∷ 9 ∷ []) (65 ∷ []) []
      ≡ some ([] ++ (record { user_id = 65 ∷ []; force_id = 1; units = x ∷ y ∷ z ∷ [] } ∷ [])))
    × (x.unit_name ≢ y.unit_name)
    × (y.unit_name ≢ z.unit_name)
    × (x.unit_name ≢ z.unit_name)
add_force_lem_example = add_force_lem 7 2 9 (65 ∷ []) []

abbrev server : ℕ → ℕ → ℕ → PvPServerInfo
server port session priority = record {
  id = (1 ∷ [], port);
  session = session;
  region = 0;
  priority = priority;
  deadline = 90;
}

abbrev one_server : List PvPServerInfo
one_server = server 5 50 2 ∷ []

one_server_once : (id : IpPort) → times id one_server ≤ 1
one_server_once id = ground arith

register_in_lem_example :
    IsSorted (register_in (server 6 60 1) one_server)
    × ((id : IpPort) → times id (register_in (server 6 60 1) one_server) ≤ 1)
    × (times (1 ∷ [], 6) (register_in (server 6 60 1) one_server) ≡ 1)
register_in_lem_example = register_in_lem (server 6 60 1) one_server one_server_once

abbrev all_up : ℕ → Bool
all_up n = true

abbrev nobody : AutoMatchServer
nobody = record {
  servers_by_region = (0, server 5 50 2 ∷ server 6 60 3 ∷ []) ∷ [];
  waiting_users = [];
  session2matchkey = [];
  games = [];
}

abbrev first_of : Option (AutoMatchServer × List Output) → AutoMatchServer
first_of none = nobody
first_of (some r) = r.0

-- The session 10 waits for the map 8.
abbrev one_waits : AutoMatchServer
unfolding match_request
one_waits = first_of (match_request all_up [] [] [] 10 (8 ∷ []) (65 ∷ []) nobody)

abbrev rolls : List ℕ
rolls = 7 ∷ 2 ∷ 9 ∷ []

nobody-IsCancellable : IsCancellable nobody
nobody-IsCancellable key user h = absurd (none-ne-some user h)

match_request-IsCancellable_example : IsCancellable one_waits
unfolding match_request one_waits
match_request-IsCancellable_example =
    match_request-IsCancellable all_up [] [] [] 10 (8 ∷ []) (65 ∷ []) nobody one_waits []
      nobody-IsCancellable (inl refl) refl

match_cancel_lem_example :
    IsCancellable (match_cancel 10 one_waits)
    × ((key : MatchKey) (user : WaitingUser)
        → lookup key (match_cancel 10 one_waits).waiting_users ≡ some user
        → user.0 ≢ 10)
unfolding match_request one_waits
match_cancel_lem_example = match_cancel_lem 10 one_waits (
    match_request-IsCancellable all_up [] [] [] 10 (8 ∷ []) (65 ∷ []) nobody one_waits []
      nobody-IsCancellable (inl refl) refl)

abbrev forces : GameInitData
unfolding add_force
forces = elim (add_force rolls (65 ∷ []) [] >>= λ one. add_force rolls (66 ∷ []) one) [
  | none ↦ []
  | some l ↦ l
]

match_request-create_game_response_example :
    (s' : AutoMatchServer) × (match_request all_up
        (3 ∷ [])
        rolls
        rolls
        11
        (8 ∷ [])
        (66 ∷ [])
        one_waits
      ≡ some (s', requests all_up (3 ∷ []) forces (servers_of one_waits 0)))
    × ((create_game_response_got (3 ∷ []) 0 s').1
        ≡ to_both 10 11 (success (3 ∷ []) (1 ∷ [], 5) forces))
    × ((create_game_response_got (3 ∷ []) 4 (create_game_response_got (3 ∷ []) 0 s').0).1 ≡ [])
unfolding match_request one_waits add_force forces pick sort limit
match_request-create_game_response_example =
    match_request-create_game_response all_up (3 ∷ []) rolls rolls 11 (8 ∷ []) (66 ∷ []) one_waits
      (10, 65 ∷ []) forces (server 5 50 2) 4 refl refl refl refl refl
