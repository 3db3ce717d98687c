-- ===== src/Match/Games.antt =====
-- From two requests to a game: the servers that are asked, and the response that the users get.
use mathlib.Core.Option.{some-injective, none-ne-some}
use lalune_server.Base.{
  ℕ, ◌≡◌, refl, sym, ap, ◌∙◌, Bool, true, false, List, [], ◌∷◌, Option, none, some, if◌then◌else◌,
  ◌==◌, nat_key, bytes_key, pair_key, beq_refl, Bytes, Bool-cases, inl, inr, is_empty,
}
use lalune_server.Base.Maps.{
  lookup, insert, erase, emplace, lookup-insert, lookup-erase, emplace-new, emplace-old,
}
use lalune_server.Match.Heroes.{add_force, ◌>>=◌}
use lalune_server.Match.Servers.{PvPServerInfo}
use lalune_server.Match.{
  AutoMatchServer, GameInfo, GameInitData, MatchKey, WaitingUser, Output, match_request, start_game,
  ask_servers, servers_of, to_both, create_game, success, create_game_response_got, no_server,
}

module _ (connected : ℕ → Bool) (id : Bytes) (init : GameInitData) where
  -- The first server whose session is connected.
  abbrev pub first_connected : List PvPServerInfo → Option PvPServerInfo
  first_connected [] = none
  first_connected (x ∷ l) = if connected x.session then some x else first_connected l

  -- One request for each server whose session is connected.
  abbrev pub requests : List PvPServerInfo → List Output
  requests [] = []
  requests (x ∷ l) =
      if connected x.session then create_game x.session id init ∷ requests l else requests l

  module _ (s₀ s₁ : ℕ) where
    abbrev pub info_of : PvPServerInfo → GameInfo
    info_of x = record { server = x.id; game_init_data = init; session₀ = s₀; session₁ = s₁ }

    ask_servers-out :
        (l : List PvPServerInfo) (games : List (Bytes × GameInfo))
        → (ask_servers connected id init s₀ s₁ l games).1 ≡ requests l
    unfolding ask_servers
    ask_servers-out [] games = refl
    ask_servers-out (x ∷ l) games = by_connected (connected x.session) (ask_servers-out l)
      where
        by_connected :
            (b : Bool)
            → ((m : List (Bytes × GameInfo))
                → (ask_servers connected id init s₀ s₁ l m).1 ≡ requests l)
            → (if b
                then (
                  (ask_servers connected id init s₀ s₁ l (emplace id (info_of x) games)).0,
                  create_game x.session id init
                      ∷ (ask_servers connected id init s₀ s₁ l (emplace id (info_of x) games)).1,
                )
                else ask_servers connected id init s₀ s₁ l games).1
              ≡ (if b then create_game x.session id init ∷ requests l else requests l)
        by_connected true ih = ap (λ (o : List Output). create_game x.session id init ∷ o) (ih _)
        by_connected false ih = ih games

    ask_servers-known :
        (l : List PvPServerInfo) (games : List (Bytes × GameInfo)) (g : GameInfo)
        → lookup id games ≡ some g
        → (ask_servers connected id init s₀ s₁ l games).0 ≡ games
    unfolding ask_servers
    ask_servers-known [] games g h = refl
    ask_servers-known (x ∷ l) games g h = elim (Bool-cases (connected x.session)) [
      | inl up ↦
          rw (ask_servers, up, emplace-old id (info_of x) g games h) (ask_servers-known l games g h)
      | inr down ↦ rw (ask_servers, down) (ask_servers-known l games g h)
    ]

    ask_servers-game :
        (l : List PvPServerInfo) (games : List (Bytes × GameInfo)) (server : PvPServerInfo)
        → lookup id games ≡ none
        → first_connected l ≡ some server
        → lookup id (ask_servers connected id init s₀ s₁ l games).0 ≡ some (info_of server)
    unfolding ask_servers
    ask_servers-game [] games server h first = absurd (none-ne-some server first)
    ask_servers-game (x ∷ l) games server h first = elim (Bool-cases (connected x.session)) [
      | inl up ↦
          let games' : List (Bytes × GameInfo) = insert id (info_of x) games in
          let there : lookup id games' ≡ some (info_of x) =
            lookup-insert id id (info_of x) games ∙ rw (beq_refl id) refl in
          let same : x ≡ server =
            some-injective x server
              (sym (ap (λ b. if b then some x else first_connected l) up) ∙ first) in
          rw (ask_servers, up, emplace-new id (info_of x) games h)
            (ap (λ m. lookup id m) (ask_servers-known l games' (info_of x) there)
              ∙ there
              ∙ ap (λ y. some (info_of y)) same)
      | inr down ↦
          rw (ask_servers, down)
            (ask_servers-game l games server h
              (sym (ap (λ b. if b then some x else first_connected l) down) ∙ first))
    ]

  requests-some :
      (l : List PvPServerInfo) (server : PvPServerInfo)
      → first_connected l ≡ some server
      → is_empty (requests l) ≡ false
  requests-some [] server h = absurd (none-ne-some server h)
  requests-some (x ∷ l) server h = by_connected (connected x.session) h (requests-some l server)
    where
      by_connected :
          (b : Bool)
          → (if b then some x else first_connected l) ≡ some server
          → (first_connected l ≡ some server → is_empty (requests l) ≡ false)
          → is_empty (if b then create_game x.session id init ∷ requests l else requests l) ≡ false
      by_connected true e ih = refl
      by_connected false e ih = ih e

start_game-asks :
    (connected : ℕ → Bool) (id : Bytes) (rolls₀ rolls₁ : List ℕ) (a b : WaitingUser)
    (s : AutoMatchServer) (init : GameInitData) (server : PvPServerInfo)
    → (add_force rolls₀ a.1 [] >>= λ one. add_force rolls₁ b.1 one) ≡ some init
    → first_connected connected id init (servers_of s 0) ≡ some server
    → start_game connected id rolls₀ rolls₁ 0 a b s
      ≡ some (
        record s { games = (ask_servers connected id init a.0 b.0 (servers_of s 0) s.games).0 },
        requests connected id init (servers_of s 0),
      )
unfolding start_game
start_game-asks connected id rolls₀ rolls₁ a b s init server forces up =
    by_first (add_force rolls₀ a.1 []) forces
  where
    l : List PvPServerInfo
    l = servers_of s 0

    finish : GameInitData → AutoMatchServer × List Output
    finish i =
        let (games', sent) = ask_servers connected id i a.0 b.0 l s.games in
        (record s { games = games' }, if is_empty sent then to_both a.0 b.0 no_server else sent)

    asked : finish init ≡ (
      record s { games = (ask_servers connected id init a.0 b.0 l s.games).0 },
      requests connected id init l,
    )
    asked =
        rw
          (
            ask_servers-out connected id init a.0 b.0 l s.games,
            requests-some connected id init l server up,
          )
          refl

    by_second :
        (o : Option GameInitData)
        → o ≡ some init
        → (o >>= λ i. some (finish i))
          ≡ some (
            record s { games = (ask_servers connected id init a.0 b.0 l s.games).0 },
            requests connected id init l,
          )
    by_second none e = absurd (none-ne-some init e)
    by_second (some i) e = ap (λ x. some (finish x)) (some-injective i init e) ∙ ap some asked

    by_first :
        (o : Option GameInitData)
        → (o >>= λ one. add_force rolls₁ b.1 one) ≡ some init
        → (o >>= λ one. add_force rolls₁ b.1 one >>= λ i. some (finish i))
          ≡ some (
            record s { games = (ask_servers connected id init a.0 b.0 l s.games).0 },
            requests connected id init l,
          )
    by_first none e = absurd (none-ne-some init e)
    by_first (some one) e = by_second (add_force rolls₁ b.1 one) e

-- A response to a game that is there goes to both of its sessions; a second one goes to nobody.
create_game_response_got-once :
    (id : Bytes) (s : AutoMatchServer) (g : GameInfo) (later : ℕ)
    → lookup id s.games ≡ some g
    → ((create_game_response_got id 0 s).1
        ≡ to_both g.session₀ g.session₁ (success id g.server g.game_init_data))
      × ((create_game_response_got id later (create_game_response_got id 0 s).0).1 ≡ [])
unfolding create_game_response_got
create_game_response_got-once id s g later h = (
  rw (create_game_response_got, h) refl,
  rw
      (
        create_game_response_got,
        create_game_response_got,
        h,
        lookup-erase id id s.games,
        beq_refl id,
      )
      refl,
)

-- The tables after `match_request` has paired the session with `opponent`.
abbrev pub paired :
    MatchKey → WaitingUser → List (Bytes × GameInfo) → AutoMatchServer → AutoMatchServer
paired key opponent games s = record s {
  games = games;
  session2matchkey = erase opponent.0 s.session2matchkey;
  waiting_users = erase key s.waiting_users;
}

-- A request for a map on which another user waits asks every connected server of region 0 for the
-- game, if one is connected. The response of value 0 to a new game id then goes to both sessions
-- with the first of these servers, and any later response to the id to nobody.
pub match_request-create_game_response :
    (connected : ℕ → Bool) (id : Bytes) (rolls₀ rolls₁ : List ℕ) (session : ℕ)
    (map_name user_id : Bytes) (s : AutoMatchServer) (opponent : WaitingUser) (init : GameInitData)
    (server : PvPServerInfo) (later : ℕ)
    → lookup (0, map_name) s.waiting_users ≡ some opponent
    → (opponent.1 == user_id) ≡ false
    → (add_force rolls₀ opponent.1 [] >>= λ one. add_force rolls₁ user_id one) ≡ some init
    → first_connected connected id init (servers_of s 0) ≡ some server
    → lookup id s.games ≡ none
    → (s' : AutoMatchServer) × (match_request connected id rolls₀ rolls₁ session map_name user_id s
        ≡ some (s', requests connected id init (servers_of s 0)))
      × ((create_game_response_got id 0 s').1
          ≡ to_both opponent.0 session (success id server.id init))
      × ((create_game_response_got id later (create_game_response_got id 0 s').0).1 ≡ [])
unfolding match_request
match_request-create_game_response connected id rolls₀ rolls₁ session map_name user_id s opponent
      init server later waits differ forces up new =
    (
      s',
      rw
          (
            match_request,
            waits,
            differ,
            start_game-asks connected id rolls₀ rolls₁ opponent (session, user_id) s init server
                forces up,
          )
          refl,
      responses.0,
      responses.1,
    )
  where
    s' : AutoMatchServer
    s' =
        paired (0, map_name) opponent
          (ask_servers connected id init opponent.0 session (servers_of s 0) s.games).0 s

    responses :
        ((create_game_response_got id 0 s').1
          ≡ to_both opponent.0 session (success id server.id init))
        × ((create_game_response_got id later (create_game_response_got id 0 s').0).1 ≡ [])
    responses =
        create_game_response_got-once id s' (info_of connected id init opponent.0 session server)
          later
          (ask_servers-game connected id init opponent.0 session (servers_of s 0) s.games server new
            up)
