-- ===== src/Pvp/Events.antt =====
-- Sequences of events of the battle server: datagrams, timers and requests of the match server.
use lalune_server.Base.{
  ℕ, ◌≡◌, refl, sym, ◌∙◌, ap, List, [], ◌∷◌, Option, none, some, nat_key, bytes_key, Bytes,
  beq_refl,
}
use mathlib.Core.Option.{some-injective, none-ne-some}
use mathlib.Core.Path.{subst}
use lalune_server.Base.Maps.{emplace-new, lookup, erase}
use lalune_server.Match.Heroes.{ForceData}
use lalune_server.Terminal.{PvpTerminal, PvpMessage, new_terminal}
use lalune_server.Terminal.Receive.{
  undefined, ignored, answered, accepted, receive_message, Received,
}
use lalune_server.Terminal.Resend.{expired, alive, trigger_update, Pulse}
use lalune_server.Pvp.Linked.{IsLinked, Frame-IsLinked, put_terminal-Frame, game_of-put}
use lalune_server.Pvp.Terminals.{enter_game-IsLinked, create-IsLinked}
use lalune_server.Pvp.Leaving.{leave-IsLinked}
use lalune_server.Pvp.Games.{update-IsLinked, forward-IsLinked}
use lalune_server.Pvp.Kept.{Ticks, trigger_update-Ticks}
use lalune_server.Pvp.Arriving.{Stays, receive_message-Stays}
use lalune_server.Pvp.{
  PvpServer, PvpGameServer, GameMessage, Datagram, user_operation, heart_beat, other_message,
  game_init_data, user_op_package, enter_game_op, quit_game_op, other_op, put_terminal, game_of,
  pointer_of, enter_game, lock, quit_game, update, OperationType, enter_by_message, parse_message,
  add_terminal, receive_at, dispatch_message, pulse, handle_create_game_request,
  find_game_server_by_user_id, to,
}

-- What happens to the server: a datagram from an endpoint, a tick of the timer of the terminal at
-- an endpoint, a frame of the game at a place, and a request to create a game.
pub data Event : Type 0 where
  datagram : Bytes → PvpMessage → Event
  tick : Bytes → Event
  frame : ℕ → Event
  create : Bytes → List ForceData → Event

abbrev pub empty_server : PvpServer
empty_server = record { games = []; memory = []; terminals = []; next_place = 0 }

-- The server after an event; `none` if what the program does is undefined.
abbrev pub step :
    (GameMessage → Bytes) → (Bytes → Option GameMessage) → Event → PvpServer → Option PvpServer
step print parse (datagram endpoint m) s = elim (dispatch_message print parse endpoint m s) [
  | none ↦ none
  | some (s', out) ↦ some s'
]
step print parse (tick endpoint) s = some (pulse endpoint s).0
step print parse (frame place) s = some (update print place s).0
step print parse (create id init) s = some (handle_create_game_request id init s).0

abbrev pub run :
    (GameMessage → Bytes) → (Bytes → Option GameMessage) → List Event → PvpServer → Option PvpServer
run print parse [] s = some s
run print parse (e ∷ es) s = elim (step print parse e s) [
  | none ↦ none
  | some s' ↦ run print parse es s'
]

module _ (print : GameMessage → Bytes) (parse : Bytes → Option GameMessage) where
  enter_by_message-IsLinked :
      (message : Option GameMessage) (endpoint : Bytes) (t : PvpTerminal) (s : PvpServer)
      → t.game_server ≡ game_of endpoint s
      → lock t.game_server s ≡ none
      → IsLinked s
      → IsLinked (enter_by_message print message endpoint t s)
  unfolding enter_by_message
  enter_by_message-IsLinked none endpoint t s same free linked = linked
  enter_by_message-IsLinked (some (user_operation op)) endpoint t s same free linked =
      by_op op.op_type
    where
      by_game :
          (o : Option ℕ)
          → IsLinked
              (elim o as (λ _. PvpServer) [ none ↦ s | some place ↦ enter_game endpoint t place s ])
      by_game none = linked
      by_game (some place) = enter_game-IsLinked endpoint t place s same free linked

      by_op :
          (o : OperationType)
          → IsLinked (elim o as (λ _. PvpServer) [
            | enter_game_op ↦ elim (find_game_server_by_user_id op.user_id s) as (λ _. PvpServer) [
              | none ↦ s
              | some place ↦ enter_game endpoint t place s
            ]
            | _ ↦ s
          ])
      by_op enter_game_op = by_game (find_game_server_by_user_id op.user_id s)
      by_op quit_game_op = linked
      by_op other_op = linked
  enter_by_message-IsLinked (some heart_beat) endpoint t s same free linked = linked
  enter_by_message-IsLinked (some other_message) endpoint t s same free linked = linked
  enter_by_message-IsLinked (some (game_init_data l)) endpoint t s same free linked = linked
  enter_by_message-IsLinked (some (user_op_package n l)) endpoint t s same free linked = linked

  parse_message-IsLinked :
      (endpoint : Bytes) (t : PvpTerminal) (body : Bytes) (s : PvpServer)
      → t.game_server ≡ game_of endpoint s
      → IsLinked s
      → IsLinked (parse_message print parse endpoint t body s).0
  unfolding parse_message
  parse_message-IsLinked endpoint t body s same linked =
      forward-IsLinked print (parse body) body endpoint _ _ (by_lock (lock t.game_server s) refl)
    where
      by_lock :
          (o : Option PvpGameServer)
          → lock t.game_server s ≡ o
          → IsLinked (elim o as (λ _. PvpServer) [
            | none ↦ enter_by_message print (parse body) endpoint t s
            | some g ↦ s
          ])
      by_lock none free = enter_by_message-IsLinked (parse body) endpoint t s same free linked
      by_lock (some g) h = linked

  abbrev After : Option (PvpServer × List Datagram) → Type 0
  After none = Unit {0}
  After (some (s, out)) = IsLinked s

  receive_at-After :
      (endpoint : Bytes) (t : PvpTerminal) (m : PvpMessage) (s : PvpServer)
      → t.game_server ≡ game_of endpoint s
      → IsLinked s
      → After (receive_at print parse endpoint t m s)
  unfolding receive_at
  receive_at-After endpoint t m s same linked =
      by_received (receive_message t m) (receive_message-Stays t m)
    where
      put :
          (t' : PvpTerminal)
          → t'.game_server ≡ t.game_server
          → IsLinked (put_terminal endpoint t' s)
      put t' kept =
          Frame-IsLinked s (put_terminal endpoint t' s)
            (put_terminal-Frame endpoint t' s (kept ∙ same)) linked

      by_received :
          (r : Received)
          → Stays t.game_server r
          → After (elim r as (λ _. Option (PvpServer × List Datagram)) [
            | undefined ↦ none
            | ignored t' ↦ some (put_terminal endpoint t' s, [])
            | answered t' out ↦ some (put_terminal endpoint t' s, to endpoint out)
            | accepted t' ↦
                some (parse_message print parse endpoint t' m.body (put_terminal endpoint t' s))
          ])
      by_received undefined h = tt
      by_received (ignored t') h = put t' h
      by_received (answered t' out) h = put t' h
      by_received (accepted t') h =
          parse_message-IsLinked endpoint t' m.body (put_terminal endpoint t' s)
            (sym (game_of-put endpoint endpoint t' s ∙ rw (beq_refl endpoint) refl)) (put t' h)

  dispatch_message-After :
      (endpoint : Bytes) (m : PvpMessage) (s : PvpServer)
      → IsLinked s
      → After (dispatch_message print parse endpoint m s)
  unfolding dispatch_message
  dispatch_message-After endpoint m s linked = by_found (lookup endpoint s.terminals) refl
    where
      s' : PvpServer
      s' = put_terminal endpoint new_terminal s

      same : lookup endpoint s.terminals ≡ none → add_terminal endpoint new_terminal s ≡ s'
      same h =
          ap (λ m. record s { terminals = m }) (emplace-new endpoint new_terminal s.terminals h)

      by_found :
          (o : Option PvpTerminal)
          → lookup endpoint s.terminals ≡ o
          → After (elim o as (λ _. Option (PvpServer × List Datagram)) [
            | some t ↦ receive_at print parse endpoint t m s
            | none ↦
                receive_at print parse endpoint new_terminal m
                  (add_terminal endpoint new_terminal s)
          ])
      by_found (some t) h = receive_at-After endpoint t m s (ap pointer_of (sym h)) linked
      by_found none h =
          subst (λ t. After (receive_at print parse endpoint new_terminal m t)) (sym (same h))
            (receive_at-After endpoint new_terminal m s'
              (sym (game_of-put endpoint endpoint new_terminal s ∙ rw (beq_refl endpoint) refl))
              (Frame-IsLinked s s'
                (put_terminal-Frame endpoint new_terminal s (ap pointer_of (sym h))) linked))

  pulse-IsLinked : (endpoint : Bytes) (s : PvpServer) → IsLinked s → IsLinked (pulse endpoint s).0
  unfolding pulse
  pulse-IsLinked endpoint s linked = by_found (lookup endpoint s.terminals) refl
    where
      after : Bytes → Pulse → PvpServer × List Datagram
      after e p = elim p as (λ _. PvpServer × List Datagram) [
        | expired t' ↦
            let s' = quit_game e t'.game_server s in
            (record s' { terminals = erase e s'.terminals }, [])
        | alive t' out ↦ (put_terminal e t' s, to e out)
      ]

      by_pulse :
          (p : Pulse) (o : Option ℕ)
          → o ≡ game_of endpoint s
          → Ticks o p
          → IsLinked (after endpoint p).0
      by_pulse (expired t') o same h = leave-IsLinked endpoint t'.game_server s (h ∙ same) linked
      by_pulse (alive t' out) o same h =
          Frame-IsLinked s (put_terminal endpoint t' s)
            (put_terminal-Frame endpoint t' s (h ∙ same)) linked

      by_found :
          (o : Option PvpTerminal)
          → lookup endpoint s.terminals ≡ o
          → IsLinked
              (elim o as (λ _. PvpServer × List Datagram) [
                | none ↦ (s, [])
                | some t ↦ after endpoint (trigger_update t)
              ]).0
      by_found none h = linked
      by_found (some t) h =
          by_pulse (trigger_update t) t.game_server (ap pointer_of (sym h)) (trigger_update-Ticks t)

  step-IsLinked :
      (e : Event) (s s' : PvpServer) → IsLinked s → step print parse e s ≡ some s' → IsLinked s'
  step-IsLinked (datagram endpoint m) s s' linked h =
      by_result (dispatch_message print parse endpoint m s)
        (dispatch_message-After endpoint m s linked) h
    where
      by_result :
          (o : Option (PvpServer × List Datagram))
          → After o
          → (elim o as (λ _. Option PvpServer) [ none ↦ none | some (s₂, out) ↦ some s₂ ]) ≡ some s'
          → IsLinked s'
      by_result none k eq = absurd (none-ne-some s' eq)
      by_result (some (s₂, out)) k eq = subst IsLinked (some-injective s₂ s' eq) k
  step-IsLinked (tick endpoint) s s' linked h =
      subst IsLinked (some-injective _ s' h) (pulse-IsLinked endpoint s linked)
  step-IsLinked (frame place) s s' linked h =
      subst IsLinked (some-injective _ s' h) (update-IsLinked print place s linked)
  step-IsLinked (create id init) s s' linked h =
      subst IsLinked (some-injective _ s' h) (create-IsLinked id init s linked)

  run-from :
      (es : List Event) (s s' : PvpServer)
      → IsLinked s
      → run print parse es s ≡ some s'
      → IsLinked s'
  run-from [] s s' linked h = subst IsLinked (some-injective s s' h) linked
  run-from (e ∷ es) s s' linked h =
      by_step (step print parse e s) (λ s₂. step-IsLinked e s s₂ linked) h (run-from es)
    where
      by_step :
          (o : Option PvpServer)
          → ((s₂ : PvpServer) → o ≡ some s₂ → IsLinked s₂)
          → (elim o as (λ _. Option PvpServer) [ none ↦ none | some s₂ ↦ run print parse es s₂ ])
            ≡ some s'
          → ((s₁ s₂ : PvpServer) → IsLinked s₁ → run print parse es s₁ ≡ some s₂ → IsLinked s₂)
          → IsLinked s'
      by_step none k eq ih = absurd (none-ne-some s' eq)
      by_step (some s₂) k eq ih = ih s₂ s' (k s₂ refl) eq

  -- After any sequence of datagrams, ticks, frames and requests that the server starts with, each
  -- game lists a terminal at most once, and lists only terminals that are in the server and point
  -- to that game.
  pub run-IsLinked :
      (es : List Event) (s : PvpServer) → run print parse es empty_server ≡ some s → IsLinked s
  run-IsLinked es s h =
      run-from es empty_server s (λ place g none_there. absurd (none-ne-some g none_there)) h
