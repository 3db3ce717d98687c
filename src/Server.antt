-- ===== src/Server.antt =====
-- NetLib/NetLib_Server_Imp.cpp: a server that accepts sessions. A session is a number. The calls of the
-- delegate stand in `connected` and `errors`, and the sessions that are told to disconnect in
-- `disconnecting`, each in their order.
pub mod Silent
use lalune_server.Base.{
  ℕ, ◌+◌, ◌-◌, Bool, true, false, ◌||◌, List, [], ◌∷◌, ◌++◌, Option, none, some, if◌then◌else◌,
  ◌==◌, nat_key,
}
use lalune_server.Base.Maps.{insert, erase}

pub data ServerError : Type 0 where
  server_tcp_accept_error : ServerError
  server_tcp_open_fail : ServerError
  server_tcp_bind_fail : ServerError
  server_tcp_listen_fail : ServerError

-- `accepting` counts the calls of `async_accept` whose handler has not run.
pub record Server : Type 0 where
  pub is_started : Bool
  pub is_closed : Bool
  pub is_open : Bool
  pub accepting : ℕ
  pub timeout_seconds : ℕ
  pub flags : ℕ
  pub sessions_set : List (ℕ × Unit {0})
  pub connected : List ℕ
  pub disconnecting : List ℕ
  pub errors : List ServerError

unfoldable pub new_server : Server
new_server = record {
  is_started = false;
  is_closed = false;
  is_open = false;
  accepting = 0;
  timeout_seconds = 0;
  flags = 0;
  sessions_set = [];
  connected = [];
  disconnecting = [];
  errors = [];
}

unfoldable pub connected_handler : ℕ → Server → Server
connected_handler session s = record s {
  sessions_set = insert session tt s.sessions_set;
  connected = s.connected ++ session ∷ [];
}

unfoldable pub tcp_accept_async : Server → Server
tcp_accept_async s = if s.is_closed then s else record s { accepting = s.accepting + 1 }

-- `none`: an error. The accepting is not repeated then.
unfoldable pub tcp_accept_handler : Option ℕ → Server → Server
unfolding connected_handler tcp_accept_async
tcp_accept_handler none s = record s {
  accepting = s.accepting - 1;
  errors = s.errors ++ server_tcp_accept_error ∷ [];
}
tcp_accept_handler (some session) s =
    let s' = record s { accepting = s.accepting - 1 } in
    if s.is_closed then s' else connected_handler session (tcp_accept_async s')

unfoldable pub erase_session : ℕ → Server → Server
erase_session session s = record s { sessions_set = erase session s.sessions_set }

-- The call of the acceptor that fails, if one does.
unfoldable pub tcp_start_listen : Option ServerError → Server → Server × Bool
unfolding tcp_accept_async
tcp_start_listen (some e) s = (record s { errors = s.errors ++ e ∷ [] }, false)
tcp_start_listen none s = (tcp_accept_async (record s { is_open = true }), true)

unfoldable pub initialize : ℕ → ℕ → Server → Server × Bool
initialize timeout_seconds flags s =
    if s.is_started || s.is_closed
    then (s, false)
    else (record s { timeout_seconds = timeout_seconds; flags = flags; is_started = true }, true)

unfoldable pub start_tcp : Option ServerError → ℕ → ℕ → Server → Server × Bool
unfolding initialize tcp_start_listen
start_tcp failing timeout_seconds flags s =
    let (s', ok) = initialize timeout_seconds flags s in
    if ok then tcp_start_listen failing s' else (s', false)

abbrev pub sessions_of : List (ℕ × Unit {0}) → List ℕ
sessions_of [] = []
sessions_of ((k, u) ∷ l) = k ∷ sessions_of l

unfoldable pub stop_server : Server → Server
stop_server s = record s {
  is_closed = true;
  is_open = false;
  disconnecting = s.disconnecting ++ sessions_of s.sessions_set;
}
