-- ===== src/Tests/Session.antt =====
-- NetLib: a session of a server.
use lalune_server.Base.{ℕ, ◌+◌, ◌≡◌, refl, List, [], ◌∷◌, true, false, length}
use lalune_server.Session.{
  Packet, opened, done, broken, no_read, tcp_header_recv, tcp_recv_async_finished,
  tcp_send_async_finished, send_packet_finish, disconnect, disconnected, send,
}
use lalune_server.Session.Counted.{
  Counted, Event, header_in, body_in, sent_out, finish_handler, local_close, run_disconnected,
  send_packet, run,
}
use lalune_server.Session.Steps.{run-opened-Counted}
use lalune_server.Session.Reported.{tally, sent, run-conserved}
use lalune_server.Session.Released.{run-reported}

abbrev packet : ℕ → Packet
packet n = record { mark = n; copy = true }

-- One packet is sent, the next one fails because the session is closed.
abbrev events : List Event
events =
    send_packet (packet 1)
    ∷ send_packet (packet 2)
    ∷ sent_out done
    ∷ header_in done 9
    ∷ local_close
    ∷ body_in done 5 (1 ∷ [])
    ∷ sent_out broken
    ∷ finish_handler
    ∷ run_disconnected
    ∷ send_packet (packet 3)
    ∷ []

run-opened-Counted_example : Counted (run events (opened 0 60))
run-opened-Counted_example = run-opened-Counted 0 60 events

run-conserved_example :
    let s = run events (opened 0 60) in
    tally 2 s.async_send_queue + tally 2 s.posted + tally 2 s.finished + tally 2 s.failed
    ≡ tally 2 (sent events)
run-conserved_example = run-conserved 0 60 2 events

run-reported_example :
    let s = run events (opened 0 60) in
    (s.reading ≡ no_read)
    × (s.writing ≡ false)
    × (length s.errors ≡ 1)
    × (tally 2 s.finished + tally 2 s.failed ≡ tally 2 (sent events))
unfolding opened tcp_header_recv tcp_recv_async_finished tcp_send_async_finished send_packet_finish
    disconnect disconnected send
run-reported_example = run-reported 0 60 2 events refl
