-- ===== src/Tests/Server.antt =====
-- NetLib/NetLib_Server_Imp.cpp.
use lalune_server.Base.{◌≡◌, refl, List, [], ◌∷◌, none, some}
use lalune_server.Server.{Server, new_server, tcp_accept_handler, start_tcp, stop_server}
use lalune_server.Server.Silent.{Event, accepted, started, run, run-stop_server, run-accept_error}

-- A server with the session 5.
abbrev serving : Server
serving = run (started none 25 0 ∷ accepted (some 5) ∷ []) new_server

serving_one : serving.connected ≡ 5 ∷ []
unfolding new_server start_tcp tcp_accept_handler
serving_one = refl

abbrev more : List Event
more = accepted (some 6) ∷ started none 25 0 ∷ accepted (some 7) ∷ []

run-stop_server_example : (run more (stop_server serving)).connected ≡ serving.connected
run-stop_server_example = run-stop_server more serving

run-accept_error_example :
    (run more (tcp_accept_handler none serving)).connected ≡ serving.connected
unfolding new_server start_tcp tcp_accept_handler
run-accept_error_example = run-accept_error more serving refl refl
