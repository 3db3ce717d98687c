-- ===== src/Match.antt =====
-- IntegretedServer/AutoMatchServer.h and AutomatchServer.cpp: pairing users into games, and the list
-- of battle servers. A session pointer is a number; `connected` tells which sessions are connected.
-- Time is in seconds. Regions, priorities and return values are taken to be at least 0.
pub mod Heroes
pub mod Servers
pub mod Waiting
pub mod Games
use lalune_server.Base.{
  ℕ, ◌+◌, Bool, true, false, List, [], ◌∷◌, ◌++◌, Option, none, some, if◌then◌else◌, ◌==◌, nat_key,
  bytes_key, pair_key, Bytes, is_empty,
}
use lalune_server.Base.Maps.{lookup, insert, erase, emplace}
use Heroes.{ForceData, add_force, ◌>>=◌}
use Servers.{IpPort, PvPServerInfo, register_in, refresh_in, without_server, timeout_secs}

abbrev pub MatchKey : Type 0
MatchKey = ℕ × Bytes

-- A session and a user id.
abbrev pub WaitingUser : Type 0
WaitingUser = ℕ × Bytes

abbrev pub GameInitData : Type 0
GameInitData = List ForceData

pub record GameInfo : Type 0 where
  pub server : IpPort
  pub game_init_data : GameInitData
  pub session₀ : ℕ
  pub session₁ : ℕ

pub record AutoMatchServer : Type 0 where
  pub servers_by_region : List (ℕ × List PvPServerInfo)
  pub waiting_users : List (MatchKey × WaitingUser)
  pub session2matchkey : List (ℕ × MatchKey)
  pub games : List (Bytes × GameInfo)

-- `boids::MatchResponse`, without its texts.
pub data MatchResponse : Type 0 where
  illegal_request no_server : MatchResponse
  success : Bytes → IpPort → GameInitData → MatchResponse
  create_fail : ℕ → MatchResponse

-- A message that goes out to a session.
pub data Output : Type 0 where
  match_response : ℕ → MatchResponse → Output
  create_game : ℕ → Bytes → GameInitData → Output
  register_response : ℕ → Output

-- The loop over the region's servers. It does not stop at the first server that is connected.
unfoldable pub ask_servers :
    (ℕ → Bool)
    → Bytes
    → GameInitData
    → ℕ
    → ℕ
    → List PvPServerInfo
    → List (Bytes × GameInfo)
    → List (Bytes × GameInfo) × List Output
ask_servers connected game_id init s₀ s₁ [] games = (games, [])
ask_servers connected game_id init s₀ s₁ (server ∷ rest) games =
    if connected server.session
    then (let info : GameInfo = record {
      server = server.id;
      game_init_data = init;
      session₀ = s₀;
      session₁ = s₁;
    } in
        let (games', out) =
          ask_servers connected game_id init s₀ s₁ rest (emplace game_id info games) in
        (games', create_game server.session game_id init ∷ out))
    else ask_servers connected game_id init s₀ s₁ rest games

abbrev pub servers_of : AutoMatchServer → ℕ → List PvPServerInfo
servers_of s region = elim (lookup region s.servers_by_region) [ none ↦ [] | some l ↦ l ]

abbrev pub to_both : ℕ → ℕ → MatchResponse → List Output
to_both s₀ s₁ r = match_response s₀ r ∷ match_response s₁ r ∷ []

-- The random numbers of the two calls of `addForce` are `rolls₀` and `rolls₁`; `none` is a read
-- beyond the end of the list of heroes.
unfoldable pub start_game :
    (ℕ → Bool)
    → Bytes
    → List ℕ
    → List ℕ
    → ℕ
    → WaitingUser
    → WaitingUser
    → AutoMatchServer
    → Option (AutoMatchServer × List Output)
unfolding ask_servers
start_game connected game_id rolls₀ rolls₁ region opponent user s = do
  one ← add_force rolls₀ opponent.1 []
  init ← add_force rolls₁ user.1 one
  let (games', out) =
      ask_servers connected game_id init opponent.0 user.0 (servers_of s region) s.games
  some (
    record s { games = games' },
    if is_empty out then to_both opponent.0 user.0 no_server else out,
  )

unfoldable pub match_request :
    (ℕ → Bool)
    → Bytes
    → List ℕ
    → List ℕ
    → ℕ
    → Bytes
    → Bytes
    → AutoMatchServer
    → Option (AutoMatchServer × List Output)
unfolding start_game
match_request connected game_id rolls₀ rolls₁ session map_name user_id s =
    let key : MatchKey = (0, map_name) in
    elim (lookup key s.waiting_users) [
      | none ↦ some (
        record s {
          waiting_users = emplace key (session, user_id) s.waiting_users;
          session2matchkey = emplace session key s.session2matchkey;
        },
        [],
      )
      | some opponent ↦ do
        (s', out) ←
            (if opponent.1 == user_id
              then some (s, to_both opponent.0 session illegal_request)
              else start_game connected game_id rolls₀ rolls₁ 0 opponent (session, user_id) s)
        some (
          record s' {
            session2matchkey = erase opponent.0 s'.session2matchkey;
            waiting_users = erase key s'.waiting_users;
          },
          out,
        )
    ]

unfoldable pub match_cancel : ℕ → AutoMatchServer → AutoMatchServer
match_cancel session s = elim (lookup session s.session2matchkey) [
  | none ↦ s
  | some key ↦ record s { waiting_users = erase key s.waiting_users }
]

unfoldable pub create_game_response_got :
    Bytes → ℕ → AutoMatchServer → AutoMatchServer × List Output
create_game_response_got game_id ret_value s = elim (lookup game_id s.games) [
  | none ↦ (s, [])
  | some game ↦ (
    record s { games = erase game_id s.games },
    to_both game.session₀ game.session₁ (
        if ret_value == 0
        then success game_id game.server game.game_init_data
        else create_fail ret_value),
  )
]

unfoldable pub server_register :
    ℕ → ℕ → IpPort → ℕ → ℕ → AutoMatchServer → AutoMatchServer × List Output
server_register now session id region priority s =
    let info : PvPServerInfo = record {
      id = id;
      session = session;
      region = region;
      priority = priority;
      deadline = now + timeout_secs;
    } in
    (
      record s {
        servers_by_region =
            insert region (register_in info (servers_of s region)) s.servers_by_region;
      },
      register_response session ∷ [],
    )

-- The handler of a server's timer, which runs out at the server's `deadline`.
unfoldable pub server_timeout : IpPort → ℕ → AutoMatchServer → AutoMatchServer
server_timeout id region s = elim (lookup region s.servers_by_region) [
  | none ↦ s
  | some l ↦ record s {
    servers_by_region = insert region (without_server id l) s.servers_by_region;
  }
]

-- Only the first entry with the id, in the order of the regions, is refreshed.
unfoldable pub refresh_regions :
    ℕ → ℕ → IpPort → List (ℕ × List PvPServerInfo) → List (ℕ × List PvPServerInfo)
refresh_regions now session id [] = []
refresh_regions now session id ((region, l) ∷ rest) = elim (refresh_in now session id l) [
  | some l' ↦ (region, l') ∷ rest
  | none ↦ (region, l) ∷ refresh_regions now session id rest
]

unfoldable pub server_heart_beat : ℕ → ℕ → IpPort → AutoMatchServer → AutoMatchServer
unfolding refresh_regions
server_heart_beat now session id s = record s {
  servers_by_region = refresh_regions now session id s.servers_by_region;
}
