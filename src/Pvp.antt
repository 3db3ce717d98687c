-- ===== src/Pvp.antt =====
-- BoidsPvpServer/BoidsPvpServer/Server: the games of one battle server and the players in them.
-- A game is known by its place in memory, so that a weak pointer is a number that may be out of
-- date; a terminal is known by its endpoint. Protobuf's parser and printer are parameters.
pub mod Control
pub mod Kept
pub mod Arriving
pub mod Linked
pub mod Games
pub mod Terminals
pub mod Leaving
pub mod Events
use lalune_server.Base.{
  ℕ, zero, suc, ◌+◌, Bool, true, false, not, List, [], ◌∷◌, ◌++◌, Option, none, some, if◌then◌else◌,
  ◌==◌, nat_key, bytes_key, Bytes, elem, remove, length, is_empty,
}
use lalune_server.Base.Maps.{lookup, insert, erase, emplace}
use lalune_server.Match.Heroes.{ForceData}
use lalune_server.Terminal.{
  PvpTerminal, PvpMessage, new_message, new_terminal, send_message, proto_plain,
}
use lalune_server.Terminal.Receive.{
  Received, undefined, ignored, answered, accepted, receive_message,
}
use lalune_server.Terminal.Resend.{Pulse, expired, alive, trigger_update}

pub data GameState : Type 0 where
  waiting running : GameState

pub data OperationType : Type 0 where
  enter_game_op quit_game_op other_op : OperationType

pub record UserOperation : Type 0 where
  pub op_type : OperationType
  pub user_id : Bytes
  pub rest : Bytes

pub data GameMessage : Type 0 where
  user_operation : UserOperation → GameMessage
  heart_beat other_message : GameMessage
  game_init_data : List ForceData → GameMessage
  user_op_package : ℕ → List UserOperation → GameMessage

-- Terminals stand as their endpoints.
pub record PvpGameServer : Type 0 where
  pub init_data : List ForceData
  pub wrapped_operations : List UserOperation
  pub state : GameState
  pub game_id : Bytes
  pub terminals : List Bytes
  pub game_time : ℕ

-- `memory` holds the games that are alive: those that `games` points to.
pub record PvpServer : Type 0 where
  pub games : List (Bytes × ℕ)
  pub memory : List (ℕ × PvpGameServer)
  pub terminals : List (Bytes × PvpTerminal)
  pub next_place : ℕ

-- A datagram and the endpoint it goes to.
abbrev pub Datagram : Type 0
Datagram = Bytes × PvpMessage

abbrev pub new_game : PvpGameServer
new_game = record {
  init_data = [];
  wrapped_operations = [];
  state = waiting;
  game_id = [];
  terminals = [];
  game_time = 0;
}

-- `int( 1000.0 / _frame_rate )` at 30 frames.
abbrev pub frame_millisec : ℕ
frame_millisec = 33

abbrev pub to : Bytes → List PvpMessage → List Datagram
to endpoint [] = []
to endpoint (m ∷ ms) = (endpoint, m) ∷ to endpoint ms

abbrev pub put_terminal : Bytes → PvpTerminal → PvpServer → PvpServer
put_terminal endpoint t s = record s { terminals = insert endpoint t s.terminals }

abbrev pub add_terminal : Bytes → PvpTerminal → PvpServer → PvpServer
add_terminal endpoint t s = record s { terminals = emplace endpoint t s.terminals }

abbrev pub put_game : ℕ → PvpGameServer → PvpServer → PvpServer
put_game place g s = record s { memory = insert place g s.memory }

unfoldable pub send_to : Bytes → Bytes → PvpServer → PvpServer × List Datagram
send_to endpoint body s = elim (lookup endpoint s.terminals) [
  | none ↦ (s, [])
  | some t ↦
      let (t', out) = send_message t (new_message body) proto_plain in
      (put_terminal endpoint t' s, to endpoint out)
]

-- A game for an id that is taken is refused.
unfoldable pub add_game : Bytes → PvpServer → PvpServer × Option ℕ
add_game id s = elim (lookup id s.games) [
  | some place ↦ (s, none)
  | none ↦ (
    record s {
      games = insert id s.next_place s.games;
      memory = insert s.next_place new_game s.memory;
      next_place = s.next_place + 1;
    },
    some s.next_place,
  )
]

unfoldable pub delete_game : Bytes → PvpServer → PvpServer
delete_game id s = elim (lookup id s.games) [
  | none ↦ s
  | some place ↦ record s { games = erase id s.games; memory = erase place s.memory }
]

abbrev pub find_game_server : Bytes → PvpServer → Option ℕ
find_game_server id s = lookup id s.games

unfoldable pub contains_user : Bytes → List ForceData → Bool
contains_user user [] = false
contains_user user (force ∷ forces) =
    if force.user_id == user then true else contains_user user forces

-- The source walks an unordered map; here the walk is in the order of the list.
unfoldable pub find_in : Bytes → List (ℕ × PvpGameServer) → List (Bytes × ℕ) → Option ℕ
unfolding contains_user
find_in user memory [] = none
find_in user memory ((id, place) ∷ rest) = elim (lookup place memory) [
  | none ↦ find_in user memory rest
  | some g ↦ if contains_user user g.init_data then some place else find_in user memory rest
]

abbrev pub find_game_server_by_user_id : Bytes → PvpServer → Option ℕ
find_game_server_by_user_id user s = find_in user s.memory s.games

unfoldable pub add_terminal_to : Bytes → PvpGameServer → PvpGameServer
add_terminal_to endpoint g =
    if elem endpoint g.terminals then g else record g { terminals = g.terminals ++ endpoint ∷ [] }

unfoldable pub delete_terminal_from : Bytes → PvpGameServer → PvpGameServer
delete_terminal_from endpoint g = record g { terminals = remove endpoint g.terminals }

-- `PvpTerminal::enterGame`.
unfoldable pub enter_game : Bytes → PvpTerminal → ℕ → PvpServer → PvpServer
enter_game endpoint t place s = elim (lookup place s.memory) [
  | none ↦ s
  | some g ↦
      put_game place (add_terminal_to endpoint g)
        (put_terminal endpoint (record t { game_server = some place }) s)
]

-- The game whose weak pointer a terminal holds, if it is alive.
abbrev pub lock : Option ℕ → PvpServer → Option PvpGameServer
lock none s = none
lock (some place) s = lookup place s.memory

-- The weak pointer of the terminal at an endpoint.
abbrev pub pointer_of : Option PvpTerminal → Option ℕ
pointer_of none = none
pointer_of (some t) = t.game_server

abbrev pub game_of : Bytes → PvpServer → Option ℕ
game_of endpoint s = pointer_of (lookup endpoint s.terminals)

-- `_game_server.reset()` of the terminal at an endpoint.
unfoldable pub reset_game_server : Bytes → PvpServer → PvpServer
reset_game_server endpoint s = elim (lookup endpoint s.terminals) [
  | none ↦ s
  | some t ↦ put_terminal endpoint (record t { game_server = none }) s
]

-- `PvpTerminal::quitGame`.
unfoldable pub quit_game : Bytes → Option ℕ → PvpServer → PvpServer
unfolding reset_game_server
quit_game endpoint none s = s
quit_game endpoint (some place) s = elim (lookup place s.memory) [
  | none ↦ s
  | some g ↦ reset_game_server endpoint (put_game place (delete_terminal_from endpoint g) s)
]

unfoldable pub start : PvpGameServer → PvpGameServer
start g = record g { state = running; game_time = 0 }

unfoldable pub stop : PvpGameServer → PvpGameServer
stop g = record g { state = waiting }

-- One new message for each terminal of the game.
unfoldable pub send_to_all : List Bytes → Bytes → PvpServer → PvpServer × List Datagram
unfolding send_to
send_to_all [] body s = (s, [])
send_to_all (endpoint ∷ rest) body s =
    let (s₁, out₁) = send_to endpoint body s in
    let (s₂, out₂) = send_to_all rest body s₁ in (s₂, out₁ ++ out₂)

module _ (print : GameMessage → Bytes) where
  -- A round of the game's timer: `triggerUpdate` with no error.
  unfoldable pub update : ℕ → PvpServer → PvpServer × List Datagram
  unfolding send_to_all delete_game
  update place s = elim (lookup place s.memory) [
    | none ↦ (s, [])
    | some g ↦
        let g' = record g { wrapped_operations = []; game_time = g.game_time + frame_millisec } in
        let (s', out) =
          send_to_all g.terminals (print (user_op_package g.game_time g.wrapped_operations)) s in
        (
          if is_empty g.terminals
              then delete_game g.game_id (put_game place (stop g') s')
              else put_game place g' s',
          out,
        )
  ]

  -- In a running game, `EnterGame` falls through to `QuitGame`, which does nothing.
  unfoldable pub handle_operation :
      UserOperation → Bytes → ℕ → PvpGameServer → PvpServer → PvpServer × List Datagram
  unfolding send_to
  handle_operation op endpoint place g s = elim op.op_type [
    | enter_game_op ↦ elim g.state [
      | waiting ↦
          let (s', out) = send_to endpoint (print (game_init_data g.init_data)) s in
          (if length g.terminals == 2 then put_game place (start g) s' else s', out)
      | running ↦ (s, [])
    ]
    | quit_game_op ↦ (s, [])
    | other_op ↦
        (put_game place (record g { wrapped_operations = g.wrapped_operations ++ op ∷ [] }) s, [])
  ]

  unfoldable pub handle_message :
      Option GameMessage → Bytes → Bytes → ℕ → PvpGameServer → PvpServer → PvpServer × List Datagram
  unfolding handle_operation
  handle_message (some (user_operation op)) body endpoint place g s =
      handle_operation op endpoint place g s
  handle_message (some heart_beat) body endpoint place g s = elim g.state [
    | waiting ↦ send_to endpoint body s
    | running ↦ (s, [])
  ]
  handle_message _ body endpoint place g s = (s, [])

  -- The first half of `parseMessage`, for a terminal without a game.
  unfoldable pub enter_by_message : Option GameMessage → Bytes → PvpTerminal → PvpServer → PvpServer
  unfolding enter_game
  enter_by_message (some (user_operation op)) endpoint t s = elim op.op_type [
    | enter_game_op ↦ elim (find_game_server_by_user_id op.user_id s) [
      | none ↦ s
      | some place ↦ enter_game endpoint t place s
    ]
    | _ ↦ s
  ]
  enter_by_message _ endpoint t s = s

  -- The second half: the message goes to the game that the terminal now has.
  unfoldable pub forward :
      Option GameMessage → Bytes → Bytes → Option ℕ → PvpServer → PvpServer × List Datagram
  unfolding handle_message
  forward message body endpoint none s = (s, [])
  forward message body endpoint (some place) s = elim (lookup place s.memory) [
    | none ↦ (s, [])
    | some g ↦ handle_message message body endpoint place g s
  ]

  module _ (parse : Bytes → Option GameMessage) where
    unfoldable pub parse_message :
        Bytes → PvpTerminal → Bytes → PvpServer → PvpServer × List Datagram
    unfolding forward enter_by_message
    parse_message endpoint t body s =
        let s' : PvpServer = elim (lock t.game_server s) [
          | none ↦ enter_by_message (parse body) endpoint t s
          | some g ↦ s
        ] in
        forward (parse body) body endpoint (game_of endpoint s') s'

    -- `none`: what the program does is undefined.
    unfoldable pub receive_at :
        Bytes → PvpTerminal → PvpMessage → PvpServer → Option (PvpServer × List Datagram)
    unfolding parse_message
    receive_at endpoint t message s = elim (receive_message t message) [
      | undefined ↦ none
      | ignored t' ↦ some (put_terminal endpoint t' s, [])
      | answered t' out ↦ some (put_terminal endpoint t' s, to endpoint out)
      | accepted t' ↦ some (parse_message endpoint t' message.body (put_terminal endpoint t' s))
    ]

    unfoldable pub dispatch_message :
        Bytes → PvpMessage → PvpServer → Option (PvpServer × List Datagram)
    unfolding receive_at
    dispatch_message endpoint message s = elim (lookup endpoint s.terminals) [
      | some t ↦ receive_at endpoint t message s
      | none ↦ receive_at endpoint new_terminal message (add_terminal endpoint new_terminal s)
    ]

-- The timer of a terminal.
unfoldable pub pulse : Bytes → PvpServer → PvpServer × List Datagram
unfolding quit_game
pulse endpoint s = elim (lookup endpoint s.terminals) [
  | none ↦ (s, [])
  | some t ↦ elim (trigger_update t) [
    | expired t' ↦
        let s' = quit_game endpoint t'.game_server s in
        (record s' { terminals = erase endpoint s'.terminals }, [])
    | alive t' out ↦ (put_terminal endpoint t' s, to endpoint out)
  ]
]

abbrev pub fill_game : ℕ → Bytes → List ForceData → PvpServer → PvpServer
fill_game place id init s = elim (lookup place s.memory) [
  | none ↦ s
  | some g ↦ put_game place (record g { game_id = id; init_data = init }) s
]

-- The number is the response's `ret_value`.
unfoldable pub handle_create_game_request : Bytes → List ForceData → PvpServer → PvpServer × ℕ
unfolding add_game
handle_create_game_request id init s = elim (add_game id s).1 [
  | none ↦ ((add_game id s).0, 1)
  | some place ↦ (fill_game place id init (add_game id s).0, 0)
]
