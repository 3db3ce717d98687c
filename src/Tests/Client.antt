-- ===== src/Tests/Client.antt =====
-- NetLib/NetLib_Client_Imp.cpp.
use lalune_server.Base.{◌≡◌, refl, sym, List, [], ◌∷◌, true, false, some}
use lalune_server.Session.{Packet}
use lalune_server.Client.{
  Client, new_client, tcp_connected_handler, disconnect, connect_request, is_connected,
  decrease_pending, disconnected, connect_error,
}
use lalune_server.Client.Resent.{tcp_connected_handler-resent}
use lalune_server.Client.Events.{
  Event, connect_asked, packet_sent, timer_fired, disconnect_asked, process_ended, step, run,
  IsLast, IsStuck,
}
use lalune_server.Client.Stuck.{run-disconnect-IsStuck}
use mathlib.Core.Option.{none-ne-some}

abbrev waiting_data : List Packet
waiting_data = record { mark = 1; copy = true } ∷ record { mark = 2; copy = false } ∷ []

abbrev connecting_client : Client
connecting_client = record new_client {
  failed_data_queue = waiting_data;
  connecting = true;
  pending_ops_count = 1;
}

tcp_connected_handler-resent_example :
    let c' = tcp_connected_handler false connecting_client in
    (c'.connected_session ≡ some (record { is_up = true; queue = waiting_data }))
    × (c'.failed_data_queue ≡ [])
unfolding is_connected
tcp_connected_handler-resent_example = tcp_connected_handler-resent connecting_client refl refl

-- A retry has failed, and its operation is the last one.
abbrev failing : Client
failing = record new_client {
  last_error = some connect_error;
  will_reconnect_if_disconnected = true;
  in_disconnect_process = true;
  first_connect = false;
  currently_retries = 1;
  pending_ops_count = 1;
}

failing-IsLast : IsLast failing
failing-IsLast = record {
  failed = λ e. none-ne-some connect_error (sym e);
  one_pending = refl;
  not_connecting = refl;
  none_posted = refl;
  no_timer = refl;
}

abbrev waiting : Client
waiting = step (process_ended (λ wish. wish) false) (decrease_pending failing)

waits : waiting.retry_timer ≡ true
unfolding step decrease_pending disconnected
waits = refl

abbrev later : List Event
later =
    connect_asked true false false
    ∷ packet_sent (record { mark = 3; copy = true })
    ∷ timer_fired false
    ∷ disconnect_asked
    ∷ []

run-disconnect-IsStuck_example :
    let s = run later (disconnect waiting) in IsStuck s × (connect_request true false false s ≡ s)
run-disconnect-IsStuck_example =
    run-disconnect-IsStuck true false false false (λ wish. wish) failing later failing-IsLast waits
