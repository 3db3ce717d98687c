-- ===== src/Session/Reported.antt =====
-- Every packet that is sent is reported, as sent or as failed, once.
use lalune_server.Base.{
  ℕ, ◌+◌, ◌-◌, ◌≡◌, refl, ap, false, ◌&&◌, List, [], ◌∷◌, ◌++◌, if◌then◌else◌, if_cases, ltb, leb,
  ◌==◌, nat_key, Bytes, length, arith,
}
use lalune_server.Session.{
  max_packet_size, Session, Packet, Reading, header, no_read, rest_of, Outcome, NetLibError, opened,
  tcp_header_recv, tcp_recv_async_finished, tcp_send_async_finished, send_packet_finish,
  timeout_handler, disconnect, disconnected, send, send_async, send_async_from_queue,
  close_session_and_handle_error, decrease_pending_ops_count, stop_reading, client_recv_error,
  session_timeout, close_by_local, packet_too_big, packet_too_small, recv_finish_handler,
  refresh_timeout_timer, error_of, is_done,
}
use lalune_server.Session.Counted.{
  Event, header_in, body_in, sent_out, finish_handler, timer, local_close, run_disconnected,
  send_packet, step, run,
}

-- How often a mark stands on the packets of a list.
abbrev pub tally : ℕ → List Packet → ℕ
tally m [] = 0
tally m (p ∷ l) = (if p.mark == m then 1 else 0) + tally m l

tally-append : (m : ℕ) (k l : List Packet) → tally m (k ++ l) ≡ tally m k + tally m l
tally-append m [] l = omega arith
tally-append m (p ∷ k) l = omega (arith, tally-append m k l)

-- The packets that the events hand to the session.
abbrev pub sent_by : Event → List Packet
sent_by (send_packet p) = p ∷ []
sent_by _ = []

abbrev pub sent : List Event → List Packet
sent [] = []
sent (e ∷ es) = sent_by e ++ sent es

abbrev total : ℕ → Session → ℕ
total m s = tally m s.async_send_queue + tally m s.posted + tally m s.finished + tally m s.failed

close-total :
    (m : ℕ) (e : NetLibError) (s : Session)
    → total m (close_session_and_handle_error e s) ≡ total m s
unfolding close_session_and_handle_error
close-total m e s =
    if_cases (λ t. total m t ≡ total m s) s.is_connected _ s (λ up. refl) (λ down. refl)

stop_reading-total :
    (m : ℕ) (e : NetLibError) (s : Session) → total m (stop_reading e s) ≡ total m s
unfolding decrease_pending_ops_count
stop_reading-total m e s = close-total m e s

header_in-total :
    (m : ℕ) (o : Outcome) (size : ℕ) (s : Session) → total m (tcp_header_recv o size s) ≡ total m s
unfolding tcp_header_recv
header_in-total m o size s =
    if_cases (λ t. total m t ≡ total m s) (is_done o && s.is_connected) _
      (stop_reading (error_of o) s)
      (λ up.
        if_cases (λ t. total m t ≡ total m s) (ltb max_packet_size size)
          (stop_reading packet_too_big s) _ (λ big. stop_reading-total m packet_too_big s)
          (λ fits.
            if_cases (λ t. total m t ≡ total m s) (ltb size 4) (stop_reading packet_too_small s) _
              (λ small. stop_reading-total m packet_too_small s) (λ good. refl)))
      (λ broken. stop_reading-total m (error_of o) s)

body_in-total :
    (m : ℕ) (o : Outcome) (now : ℕ) (content : Bytes) (s : Session)
    → total m (tcp_recv_async_finished o now content s) ≡ total m s
unfolding tcp_recv_async_finished recv_finish_handler
body_in-total m o now content s =
    if_cases (λ t. total m t ≡ total m s) (is_done o && s.is_connected)
      (record (recv_finish_handler now content s) { reading = header })
      (stop_reading (error_of o) s)
      (λ up.
        if_cases (λ t. total m (record t { reading = header }) ≡ total m s) (length content == 0)
          (refresh_timeout_timer now s) _ (λ alone. refl) (λ full. refl))
      (λ broken. stop_reading-total m (error_of o) s)

sent_out-total :
    (m : ℕ) (o : Outcome) (s : Session) → total m (tcp_send_async_finished o s) ≡ total m s
unfolding tcp_send_async_finished send_async_from_queue decrease_pending_ops_count
sent_out-total m o s =
    if_cases (λ t. total m t ≡ total m s) (is_done o && s.is_connected) _ _
      (λ up. by_queue s.async_send_queue refl) (λ broken. close-total m client_recv_error s)
  where
    by_queue :
        (q : List Packet)
        → s.async_send_queue ≡ q
        → total m (elim q as (λ _. Session) [
          | [] ↦ record s { writing = false }
          | p ∷ rest ↦
              let s' = record s {
                writing = false;
                posted = s.posted ++ p ∷ [];
                async_send_queue = rest;
              } in
              elim rest as (λ _. Session) [ [] ↦ s' | r ∷ more ↦ send_async_from_queue s' ]
        ])
          ≡ total m s
    by_queue [] e = refl
    by_queue (p ∷ []) e = omega (arith, tally-append m s.posted (p ∷ []), ap (tally m) e)
    by_queue (p ∷ r ∷ more) e = omega (arith, tally-append m s.posted (p ∷ []), ap (tally m) e)

finish-total : (m : ℕ) (s : Session) → total m (send_packet_finish s) ≡ total m s
unfolding send_packet_finish decrease_pending_ops_count
finish-total m s = by_posted s.posted refl
  where
    by_posted :
        (l : List Packet)
        → s.posted ≡ l
        → total m (elim l as (λ _. Session) [
          | [] ↦ s
          | p ∷ rest ↦
              decrease_pending_ops_count
                (record s { posted = rest; finished = s.finished ++ p ∷ [] })
        ])
          ≡ total m s
    by_posted [] e = refl
    by_posted (p ∷ rest) e = omega (arith, tally-append m s.finished (p ∷ []), ap (tally m) e)

send-total : (m : ℕ) (p : Packet) (s : Session) → total m (send p s) ≡ tally m (p ∷ []) + total m s
unfolding send send_async send_async_from_queue
send-total m p s =
    if_cases (λ t. total m t ≡ tally m (p ∷ []) + total m s) (s.has_detail && s.is_connected) _ _
      (λ up.
        if_cases (λ t. total m t ≡ tally m (p ∷ []) + total m s)
          (length (s.async_send_queue ++ p ∷ []) == 1) _ _
          (λ only. omega (arith, tally-append m s.async_send_queue (p ∷ [])))
          (λ more. omega (arith, tally-append m s.async_send_queue (p ∷ []))))
      (λ down. omega (arith, tally-append m s.failed (p ∷ [])))

timeout-total : (m : ℕ) (s : Session) → total m (timeout_handler s) ≡ total m s
unfolding timeout_handler
timeout-total m s =
    if_cases (λ t. total m t ≡ total m s) (s.has_detail && s.is_connected) _ s
      (λ up. close-total m session_timeout s) (λ down. refl)

disconnect-total : (m : ℕ) (s : Session) → total m (disconnect s) ≡ total m s
unfolding disconnect
disconnect-total m s =
    if_cases (λ t. total m t ≡ total m s) s.has_detail _ s (λ there. close-total m close_by_local s)
      (λ gone. refl)

disconnected-total : (m : ℕ) (s : Session) → total m (disconnected s) ≡ total m s
unfolding disconnected
disconnected-total m s = omega (arith, tally-append m s.failed s.async_send_queue)

step-total :
    (m : ℕ) (e : Event) (s : Session) → total m (step e s) ≡ tally m (sent_by e) + total m s
step-total m (header_in o size) s = by_reading s.reading
  where
    by_reading :
        (r : Reading)
        → total m (elim r as (λ _. Session) [ header ↦ tcp_header_recv o size s | _ ↦ s ])
          ≡ 0 + total m s
    by_reading header = omega (arith, header_in-total m o size s)
    by_reading no_read = omega arith
    by_reading (rest_of n) = omega arith
step-total m (body_in o now content) s = by_reading s.reading
  where
    by_reading :
        (r : Reading)
        → total m (elim r as (λ _. Session) [
          | rest_of n ↦ tcp_recv_async_finished o now content s
          | _ ↦ s
        ])
          ≡ 0 + total m s
    by_reading header = omega arith
    by_reading no_read = omega arith
    by_reading (rest_of n) = omega (arith, body_in-total m o now content s)
step-total m (sent_out o) s =
    if_cases (λ t. total m t ≡ 0 + total m s) s.writing _ s
      (λ busy. omega (arith, sent_out-total m o s)) (λ idle. omega arith)
step-total m finish_handler s = omega (arith, finish-total m s)
step-total m (timer now) s =
    if_cases (λ t. total m t ≡ 0 + total m s) (leb s.deadline now) _ s
      (λ late. omega (arith, timeout-total m s)) (λ early. omega arith)
step-total m local_close s = omega (arith, disconnect-total m s)
step-total m run_disconnected s =
    if_cases (λ t. total m t ≡ 0 + total m s) (s.posted_disconnected == 0) s _
      (λ none_posted. omega arith)
      (λ some_posted. omega (
        arith,
        disconnected-total m (record s { posted_disconnected = s.posted_disconnected - 1 }),
      ))
step-total m (send_packet p) s = send-total m p s

run-total :
    (m : ℕ) (es : List Event) (s : Session) → total m (run es s) ≡ tally m (sent es) + total m s
run-total m [] s = omega arith
run-total m (e ∷ es) s =
    omega (arith, run-total m es (step e s), step-total m e s, tally-append m (sent_by e) (sent es))

-- However often a mark was sent, so often it stands on the packets that wait, whose handler is
-- posted, that are reported as sent, and that are reported as failed, taken together.
pub run-conserved :
    (now timeout m : ℕ) (es : List Event)
    → let s = run es (opened now timeout) in
      tally m s.async_send_queue + tally m s.posted + tally m s.finished + tally m s.failed
      ≡ tally m (sent es)
run-conserved now timeout m es =
    let start : total m (opened now timeout) ≡ 0 = unfold opened in refl in
    omega (arith, run-total m es (opened now timeout), start)
