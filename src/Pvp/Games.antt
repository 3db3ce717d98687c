-- ===== src/Pvp/Games.antt =====
-- Every event of the battle server keeps the links between games and terminals.
use lalune_server.Base.{
  ℕ, ◌+◌, ◌≡◌, refl, ◌∙◌, ap, Bool, true, false, List, [], ◌∷◌, ◌++◌, Option, none, some,
  if◌then◌else◌, ◌==◌, nat_key, bytes_key, Bytes, is_empty, length,
}
use lalune_server.Base.Maps.{lookup}
use lalune_server.Pvp.Linked.{
  IsLinked, Frame, Frame-IsLinked, put_same-IsLinked, send_to-Frame, send_to_all-Frame,
  delete_game-IsLinked,
}
use lalune_server.Pvp.{
  PvpServer, PvpGameServer, UserOperation, GameMessage, Datagram, user_operation, heart_beat,
  other_message, game_init_data, user_op_package, enter_game_op, quit_game_op, other_op, waiting,
  running, put_game, send_to, send_to_all, delete_game, start, stop, update, handle_operation,
  GameState, OperationType, handle_message, forward, frame_millisec,
}

module _ (print : GameMessage → Bytes) where
  pub update-IsLinked : (place : ℕ) (s : PvpServer) → IsLinked s → IsLinked (update print place s).0
  unfolding update stop
  update-IsLinked place s linked = by_found (lookup place s.memory) refl
    where
      by_found :
          (o : Option PvpGameServer)
          → lookup place s.memory ≡ o
          → IsLinked
              (elim o as (λ _. PvpServer × List Datagram) [
                | none ↦ (s, [])
                | some g ↦
                    let g' = record g {
                      wrapped_operations = [];
                      game_time = g.game_time + frame_millisec;
                    } in
                    let (s', out) =
                      send_to_all g.terminals
                        (print (user_op_package g.game_time g.wrapped_operations))
                        s in
                    (
                      if is_empty g.terminals
                          then delete_game g.game_id (put_game place (stop g') s')
                          else put_game place g' s',
                      out,
                    )
              ]).0
      by_found none h = linked
      by_found (some g) h = by_empty (is_empty g.terminals)
        where
          g' : PvpGameServer
          g' = record g { wrapped_operations = []; game_time = g.game_time + frame_millisec }

          body : Bytes
          body = print (user_op_package g.game_time g.wrapped_operations)

          s' : PvpServer
          s' = (send_to_all g.terminals body s).0

          frame : Frame s s'
          frame = send_to_all-Frame g.terminals body s

          there : lookup place s'.memory ≡ some g
          there = ap (λ m. lookup place m) frame.0 ∙ h

          linked' : IsLinked s'
          linked' = Frame-IsLinked s s' frame linked

          by_empty :
              (b : Bool)
              → IsLinked (
                  if b
                  then delete_game g.game_id (put_game place (stop g') s')
                  else put_game place g' s')
          by_empty true =
              delete_game-IsLinked g.game_id (put_game place (stop g') s')
                (put_same-IsLinked place g (stop g') s' there refl linked')
          by_empty false = put_same-IsLinked place g g' s' there refl linked'

  handle_operation-IsLinked :
      (op : UserOperation) (endpoint : Bytes) (place : ℕ) (g : PvpGameServer) (s : PvpServer)
      → lookup place s.memory ≡ some g
      → IsLinked s
      → IsLinked (handle_operation print op endpoint place g s).0
  unfolding handle_operation start
  handle_operation-IsLinked op endpoint place g s here linked = by_op op.op_type
    where
      body : Bytes
      body = print (game_init_data g.init_data)

      s' : PvpServer
      s' = (send_to endpoint body s).0

      linked' : IsLinked s'
      linked' = Frame-IsLinked s s' (send_to-Frame endpoint body s) linked

      there : lookup place s'.memory ≡ some g
      there = ap (λ m. lookup place m) (send_to-Frame endpoint body s).0 ∙ here

      by_size : (b : Bool) → IsLinked (if b then put_game place (start g) s' else s')
      by_size true = put_same-IsLinked place g (start g) s' there refl linked'
      by_size false = linked'

      by_state :
          (st : GameState)
          → IsLinked
              (elim st as (λ _. PvpServer × List Datagram) [
                | waiting ↦ (
                  if length g.terminals == 2 then put_game place (start g) s' else s',
                  (send_to endpoint body s).1,
                )
                | running ↦ (s, [])
              ]).0
      by_state waiting = by_size (length g.terminals == 2)
      by_state running = linked

      by_op :
          (o : OperationType)
          → IsLinked
              (elim o as (λ _. PvpServer × List Datagram) [
                | enter_game_op ↦ elim g.state as (λ _. PvpServer × List Datagram) [
                  | waiting ↦ (
                    if length g.terminals == 2 then put_game place (start g) s' else s',
                    (send_to endpoint body s).1,
                  )
                  | running ↦ (s, [])
                ]
                | quit_game_op ↦ (s, [])
                | other_op ↦ (
                  put_game place
                      (record g { wrapped_operations = g.wrapped_operations ++ op ∷ [] })
                      s,
                  [],
                )
              ]).0
      by_op enter_game_op = by_state g.state
      by_op quit_game_op = linked
      by_op other_op = put_same-IsLinked place g _ s here refl linked

  handle_message-IsLinked :
      (message : Option GameMessage) (body endpoint : Bytes) (place : ℕ) (g : PvpGameServer)
      (s : PvpServer)
      → lookup place s.memory ≡ some g
      → IsLinked s
      → IsLinked (handle_message print message body endpoint place g s).0
  unfolding handle_message
  handle_message-IsLinked none body endpoint place g s here linked = linked
  handle_message-IsLinked (some (user_operation op)) body endpoint place g s here linked =
      handle_operation-IsLinked op endpoint place g s here linked
  handle_message-IsLinked (some heart_beat) body endpoint place g s here linked = by_state g.state
    where
      by_state :
          (st : GameState)
          → IsLinked
              (elim st as (λ _. PvpServer × List Datagram) [
                | waiting ↦ send_to endpoint body s
                | running ↦ (s, [])
              ]).0
      by_state waiting =
          Frame-IsLinked s (send_to endpoint body s).0 (send_to-Frame endpoint body s) linked
      by_state running = linked
  handle_message-IsLinked (some other_message) body endpoint place g s here linked = linked
  handle_message-IsLinked (some (game_init_data l)) body endpoint place g s here linked = linked
  handle_message-IsLinked (some (user_op_package n l)) body endpoint place g s here linked = linked

  pub forward-IsLinked :
      (message : Option GameMessage) (body endpoint : Bytes) (o : Option ℕ) (s : PvpServer)
      → IsLinked s
      → IsLinked (forward print message body endpoint o s).0
  unfolding forward
  forward-IsLinked message body endpoint none s linked = linked
  forward-IsLinked message body endpoint (some place) s linked =
      by_found (lookup place s.memory) refl
    where
      by_found :
          (o : Option PvpGameServer)
          → lookup place s.memory ≡ o
          → IsLinked
              (elim o as (λ _. PvpServer × List Datagram) [
                | none ↦ (s, [])
                | some g ↦ handle_message print message body endpoint place g s
              ]).0
      by_found none h = linked
      by_found (some g) h = handle_message-IsLinked message body endpoint place g s h linked
