-- ===== src/Tests/Gateway.antt =====
-- GatewayServer/.
use lalune_server.Base.{nat_key, length, ℕ, ◌≡◌, refl, List, [], ◌∷◌, Option, none, some, false}
use lalune_server.Base.Int.{ℤ, pos, int_key}
use lalune_server.Base.Maps.{lookup}
use lalune_server.Registry.{
  Registry, empty_registry, update_server_info, get_clients_info, get_client, initialize_clients,
}
use lalune_server.Ids.{get_id}
use lalune_server.Gateway.{
  Gateway, UserPacket, new_gateway, user_recv_finish_handler, disconnected_handler, neg,
  get_tmp_user_id,
}
use lalune_server.Gateway.Runs.{Event, from_user, run}
use lalune_server.Gateway.Answers.{AllAnswered, run-Answered, disconnected_handler-kept}
use lalune_server.Tests.Configs.{types}

-- The version server, of type 2, and the account server, of type 3.
abbrev two_servers : Registry
two_servers =
    update_server_info 8 (record { ip = 2; port = 80; server_type = 3 })
      (update_server_info 7 (record { ip = 1; port = 80; server_type = 2 })
        (initialize_clients (1, 0) empty_registry))

abbrev ask : UserPacket
ask = record { too_short = false; msg_type = 205; body = b'?' ∷ [] }

abbrev events : List Event
events = from_user 5 ask ∷ from_user 6 ask ∷ from_user 5 ask ∷ []

abbrev gateway_of : Option Gateway → Gateway
gateway_of none = new_gateway two_servers
gateway_of (some s) = s

abbrev last : Gateway
last = gateway_of (run types 100 events (new_gateway two_servers))

run-Answered_example : AllAnswered types 100 3 (run types 100 events (new_gateway two_servers))
run-Answered_example = run-Answered types 100 two_servers events

runs : run types 100 events (new_gateway two_servers) ≡ some last
unfolding user_recv_finish_handler new_gateway get_clients_info update_server_info
    initialize_clients get_client get_id get_tmp_user_id
runs = refl

three_asked : length last.forwarded ≡ 3
unfolding user_recv_finish_handler new_gateway get_clients_info update_server_info
    initialize_clients get_client get_id get_tmp_user_id
three_asked = refl

has_number : lookup 6 last.attached ≡ some (pos 2)
unfolding user_recv_finish_handler new_gateway get_clients_info update_server_info
    initialize_clients get_client get_id get_tmp_user_id
has_number = refl

disconnected_handler-kept_example :
    (k : ℕ) × (◌≡◌ {A = ℤ} (pos 2) (pos k))
    × (lookup (neg k) (disconnected_handler 6 last).user2session ≡ some 6)
    × ((disconnected_handler 6 last).available_tmp_ids ≡ last.available_tmp_ids)
disconnected_handler-kept_example =
    disconnected_handler-kept types 100 two_servers events last 6 (pos 2) runs has_number
