-- ===== src/Tests/Control.antt =====
-- ControlServer/.
use lalune_server.Base.{ℕ, ◌+◌, ◌≡◌, refl, List, [], ◌∷◌, Option, none, some, false, arith}
use lalune_server.Control.{
  Control, say_hello, recv_finish_handler, recv_say_hello, start_server, add_server, send_list,
  inform_address_info, send_each, startup_timer, server_timeout, recv_keep_alive_handler,
  initialize, empty_groups,
}
use lalune_server.Control.Runs.{
  Event, packet, timeout, startup, keep_alive, run, run-initialize-Consistent,
}
use lalune_server.Control.Events.{Consistent}
use lalune_server.Tests.Json.{json}
use lalune_server.Tests.Configs.{types, store}

abbrev pub started : Control
started = initialize types 7 store

abbrev pub state_of : Option Control → Control
state_of none = started
state_of (some s) = s

abbrev pub hello_of : ℕ → Event
hello_of session =
    packet none [] 0 session (session + 10)
      (say_hello (some (record { my_listening_port = 80; server_type = 3; is_server_start = 1 })))

abbrev events : List Event
events =
    startup false
    ∷ hello_of 1
    ∷ hello_of 2
    ∷ keep_alive 5 1
    ∷ timeout false (12, 80)
    ∷ hello_of 3
    ∷ []

abbrev final : Control
final = state_of (run json types events started)

final_is : run json types events started ≡ some final
unfolding recv_finish_handler recv_say_hello start_server add_server send_list inform_address_info
    send_each startup_timer server_timeout recv_keep_alive_handler initialize empty_groups
final_is = refl

run-initialize-Consistent_example : Consistent 14 final
run-initialize-Consistent_example =
    run-initialize-Consistent json types 7 store events final (omega arith) final_is
