-- ===== src/Tests/Pvp.antt =====
-- BoidsPvpServer/BoidsPvpServer/Server.
use lalune_server.Base.{◌≡◌, refl, List, [], ◌∷◌, arith, true, Option, none, some, Bytes}
use lalune_server.Terminal.{new_message, send_message, send_front}
use lalune_server.Terminal.Receive.{
  receive_message, data_packet, note_arrival, arrive, update_remote, acknowledge_from,
}
use lalune_server.Terminal.Sequence.{diff_between}
use lalune_server.Terminal.Resend.{trigger_update}
use lalune_server.Pvp.{
  PvpServer, GameMessage, user_operation, enter_game_op, dispatch_message, pulse, update,
  handle_create_game_request,
}
use lalune_server.Pvp.Events.{Event, datagram, tick, frame, create, run, empty_server, run-IsLinked}
use lalune_server.Pvp.Linked.{IsLinked}
use lalune_server.Pvp.Control.{
  Reader, new_reader, receive_chunks, whole_chunks, receive_chunks-whole,
}

-- A message of one byte is an entry of the user of that name.
abbrev parse : Bytes → Option GameMessage
parse (b ∷ []) =
    some (user_operation (record { op_type = enter_game_op; user_id = b ∷ []; rest = [] }))
parse _ = none

abbrev print : GameMessage → Bytes
print m = 9 ∷ []

abbrev events : List Event
events =
    create (3 ∷ []) (record { user_id = 65 ∷ []; force_id = 1; units = [] } ∷ [])
    ∷ datagram (1 ∷ []) (record (new_message []) { proto_id = 2; seq_no = 1 })
    ∷ datagram (1 ∷ []) (record (new_message (65 ∷ [])) { proto_id = 1; seq_no = 2 })
    ∷ frame 0
    ∷ tick (1 ∷ [])
    ∷ []

abbrev server_of : Option PvpServer → PvpServer
server_of none = empty_server
server_of (some s) = s

run-IsLinked_example : IsLinked (server_of (run print parse events empty_server))
unfolding dispatch_message update pulse handle_create_game_request receive_message send_message
    trigger_update send_front data_packet note_arrival arrive diff_between update_remote
    acknowledge_from
run-IsLinked_example =
    run-IsLinked print parse events (server_of (run print parse events empty_server)) refl

receive_chunks-whole_example :
    (r' : Reader) × (receive_chunks new_reader (whole_chunks ((1 ∷ 2 ∷ []) ∷ [] ∷ (7 ∷ []) ∷ []))
      ≡ some (r', (1 ∷ 2 ∷ []) ∷ [] ∷ (7 ∷ []) ∷ []))
    × (r'.is_reading_size ≡ true)
receive_chunks-whole_example =
    receive_chunks-whole ((1 ∷ 2 ∷ []) ∷ [] ∷ (7 ∷ []) ∷ []) new_reader refl refl
      (omega arith, (omega arith, (omega arith, tt)))
