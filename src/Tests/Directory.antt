-- ===== src/Tests/Directory.antt =====
-- The control server with one server that it tells about the others.
use lalune_server.Base.{◌≡◌, refl, List, [], ◌∷◌, some, false, nat_beq_iff, arith}
use lalune_server.Ids.{get_id}
use lalune_server.Registry.{empty_registry, get_client, update_server_info, initialize_type}
use lalune_server.Protocol.{Hello}
use lalune_server.Control.{
  Control, recv_finish_handler, recv_say_hello, start_server, add_server, send_list,
  inform_address_info, send_each, startup_timer, server_timeout, recv_keep_alive_handler,
  initialize, empty_groups,
}
use lalune_server.Control.Runs.{Event, timeout, startup, run}
use lalune_server.ServerCommon.{Common, no_id, initialize_common_lib}
use lalune_server.ServerCommon.Synced.{IsSynced}
use lalune_server.Directory.{inbox, receive_all}
use lalune_server.Directory.Joins.{IsFresh}
use lalune_server.Directory.Reached.{hello-IsSynced}
use lalune_server.Tests.Json.{json}
use lalune_server.Tests.Configs.{types, store}
use lalune_server.Tests.Control.{started, state_of, hello_of}

-- A server of type 3 that has said where it gets its configurations.
abbrev new_server : Common
new_server = initialize_common_lib types 1 3 2130706433 5432 (record {
  my_listening_port = 0;
  my_server_type = 0;
  my_server_id = no_id;
  is_config_initialized = false;
  is_addr_info_initialized = false;
  registry = empty_registry;
  calls = [];
  sent = [];
})

abbrev before : List Event
before = startup false ∷ hello_of 1 ∷ []

abbrev running : Control
running = state_of (run json types before started)

abbrev hello : Hello
hello = record { my_listening_port = 80; server_type = 3; is_server_start = 1 }

abbrev after : List Event
after = hello_of 3 ∷ timeout false (11, 80) ∷ hello_of 4 ∷ []

abbrev last : Control
last = state_of (run json types after (recv_say_hello 0 2 12 hello running))

before_is : run json types before started ≡ some running
unfolding recv_finish_handler recv_say_hello start_server add_server send_list inform_address_info
    send_each startup_timer server_timeout recv_keep_alive_handler initialize empty_groups
before_is = refl

after_is : run json types after (recv_say_hello 0 2 12 hello running) ≡ some last
unfolding recv_finish_handler recv_say_hello start_server add_server send_list inform_address_info
    send_each startup_timer server_timeout recv_keep_alive_handler initialize empty_groups
after_is = refl

new_server-IsFresh : IsFresh (receive_all (inbox 2 running.sent) new_server)
unfolding recv_finish_handler startup_timer initialize initialize_common_lib get_client
    update_server_info initialize_type
new_server-IsFresh = record { up = refl; only_control = λ id v e. ground (arith, nat_beq_iff 0 id) }

hello-IsSynced_example :
    IsSynced
      (get_id running.available_ids).0
      last.servers_info
      (receive_all (inbox 2 last.sent) new_server)
unfolding recv_finish_handler startup_timer initialize
hello-IsSynced_example =
    hello-IsSynced json types 7 store before after 2 0 12 hello new_server running last
      (omega arith) before_is refl refl refl new_server-IsFresh
      (
        (λ e. ground arith, λ e. ground arith),
        (λ e. ground arith, ((λ e. ground arith, λ e. ground arith), tt)),
      )
      after_is
