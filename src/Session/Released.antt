-- ===== src/Session/Released.antt =====
-- Once a session has been let go of, nothing is under way and every packet has been reported.
use lalune_server.Base.{
  ℕ, ◌+◌, ◌≡◌, refl, ◌∙◌, ap, sym, Bool, true, false, ◌&&◌, List, [], ◌∷◌, ◌++◌, if_cases, ltb, leb,
  ◌==◌, nat_key, Bytes, length, arith, is_empty,
}
use mathlib.Core.Bool.{true≢false}
use lalune_server.Session.{
  max_packet_size, Session, Packet, Reading, header, no_read, rest_of, Outcome, NetLibError, opened,
  tcp_header_recv, tcp_recv_async_finished, tcp_send_async_finished, send_packet_finish,
  timeout_handler, disconnect, disconnected, send, send_async, send_async_from_queue,
  close_session_and_handle_error, decrease_pending_ops_count, stop_reading, client_recv_error,
  session_timeout, close_by_local, packet_too_big, packet_too_small, recv_finish_handler,
  refresh_timeout_timer, error_of, is_done,
}
use lalune_server.Session.Reported.{tally, sent, run-conserved}
use lalune_server.Session.Steps.{run-opened-Counted}
use lalune_server.Session.Counted.{
  Event, header_in, body_in, sent_out, finish_handler, timer, local_close, run_disconnected,
  send_packet, step, run, Counted, reads,
}

abbrev IsEmptied : Session → Type 0
IsEmptied s = s.has_detail ≡ false → is_empty s.async_send_queue ≡ true

close-IsEmptied :
    (e : NetLibError) (s : Session) → IsEmptied s → IsEmptied (close_session_and_handle_error e s)
unfolding close_session_and_handle_error
close-IsEmptied e s h = if_cases IsEmptied s.is_connected _ s (λ up. h) (λ down. h)

stop_reading-IsEmptied :
    (e : NetLibError) (s : Session) → IsEmptied s → IsEmptied (stop_reading e s)
unfolding decrease_pending_ops_count
stop_reading-IsEmptied e s h = close-IsEmptied e s h

header_in-IsEmptied :
    (o : Outcome) (size : ℕ) (s : Session) → IsEmptied s → IsEmptied (tcp_header_recv o size s)
unfolding tcp_header_recv
header_in-IsEmptied o size s h =
    if_cases IsEmptied (is_done o && s.is_connected) _ (stop_reading (error_of o) s)
      (λ up.
        if_cases IsEmptied (ltb max_packet_size size) (stop_reading packet_too_big s) _
          (λ big. stop_reading-IsEmptied packet_too_big s h)
          (λ fits.
            if_cases IsEmptied (ltb size 4) (stop_reading packet_too_small s) _
              (λ small. stop_reading-IsEmptied packet_too_small s h) (λ good. h)))
      (λ broken. stop_reading-IsEmptied (error_of o) s h)

body_in-IsEmptied :
    (o : Outcome) (now : ℕ) (content : Bytes) (s : Session)
    → IsEmptied s
    → IsEmptied (tcp_recv_async_finished o now content s)
unfolding tcp_recv_async_finished recv_finish_handler
body_in-IsEmptied o now content s h =
    if_cases IsEmptied (is_done o && s.is_connected)
      (record (recv_finish_handler now content s) { reading = header })
      (stop_reading (error_of o) s)
      (λ up.
        if_cases (λ t. IsEmptied (record t { reading = header })) (length content == 0)
          (refresh_timeout_timer now s) _ (λ alone. h) (λ full. h))
      (λ broken. stop_reading-IsEmptied (error_of o) s h)

sent_out-IsEmptied :
    (o : Outcome) (s : Session) → IsEmptied s → IsEmptied (tcp_send_async_finished o s)
unfolding tcp_send_async_finished send_async_from_queue decrease_pending_ops_count
sent_out-IsEmptied o s h =
    if_cases IsEmptied (is_done o && s.is_connected) _ _ (λ up. by_queue s.async_send_queue refl)
      (λ broken. close-IsEmptied client_recv_error s h)
  where
    by_queue :
        (q : List Packet)
        → s.async_send_queue ≡ q
        → IsEmptied (elim q as (λ _. Session) [
          | [] ↦ record s { writing = false }
          | p ∷ rest ↦
              let s' = record s {
                writing = false;
                posted = s.posted ++ p ∷ [];
                async_send_queue = rest;
              } in
              elim rest as (λ _. Session) [ [] ↦ s' | r ∷ more ↦ send_async_from_queue s' ]
        ])
    by_queue [] e = h
    by_queue (p ∷ []) e = λ gone. refl
    by_queue (p ∷ r ∷ more) e = λ gone. absurd (true≢false (sym (h gone) ∙ ap is_empty e))

finish-IsEmptied : (s : Session) → IsEmptied s → IsEmptied (send_packet_finish s)
unfolding send_packet_finish decrease_pending_ops_count
finish-IsEmptied s h = by_posted s.posted
  where
    by_posted :
        (l : List Packet)
        → IsEmptied (elim l as (λ _. Session) [
          | [] ↦ s
          | p ∷ rest ↦
              decrease_pending_ops_count
                (record s { posted = rest; finished = s.finished ++ p ∷ [] })
        ])
    by_posted [] = h
    by_posted (p ∷ rest) = h

and_left : (a b : Bool) → (a && b) ≡ true → a ≡ true
and_left true b h = refl
and_left false b h = h

send-IsEmptied : (p : Packet) (s : Session) → IsEmptied s → IsEmptied (send p s)
unfolding send send_async send_async_from_queue
send-IsEmptied p s h =
    if_cases IsEmptied (s.has_detail && s.is_connected) _ _
      (λ up.
        let there = and_left s.has_detail s.is_connected up in
        if_cases IsEmptied (length (s.async_send_queue ++ p ∷ []) == 1) _ _
          (λ only gone. absurd (true≢false (sym there ∙ gone)))
          (λ more gone. absurd (true≢false (sym there ∙ gone))))
      (λ down. h)

step-IsEmptied : (e : Event) (s : Session) → IsEmptied s → IsEmptied (step e s)
step-IsEmptied (header_in o size) s h = by_reading s.reading
  where
    by_reading :
        (r : Reading)
        → IsEmptied (elim r as (λ _. Session) [ header ↦ tcp_header_recv o size s | _ ↦ s ])
    by_reading header = header_in-IsEmptied o size s h
    by_reading no_read = h
    by_reading (rest_of n) = h
step-IsEmptied (body_in o now content) s h = by_reading s.reading
  where
    by_reading :
        (r : Reading)
        → IsEmptied (elim r as (λ _. Session) [
          | rest_of n ↦ tcp_recv_async_finished o now content s
          | _ ↦ s
        ])
    by_reading header = h
    by_reading no_read = h
    by_reading (rest_of n) = body_in-IsEmptied o now content s h
step-IsEmptied (sent_out o) s h =
    if_cases IsEmptied s.writing _ s (λ busy. sent_out-IsEmptied o s h) (λ idle. h)
step-IsEmptied finish_handler s h = finish-IsEmptied s h
step-IsEmptied (timer now) s h =
    if_cases IsEmptied (leb s.deadline now) _ s
      (λ late.
        unfold timeout_handler in
        if_cases IsEmptied (s.has_detail && s.is_connected) _ s
          (λ up. close-IsEmptied session_timeout s h) (λ down. h))
      (λ early. h)
step-IsEmptied local_close s h =
    unfold disconnect in
    if_cases IsEmptied s.has_detail _ s (λ there. close-IsEmptied close_by_local s h) (λ gone. h)
step-IsEmptied run_disconnected s h =
    unfold disconnected in
    if_cases IsEmptied (s.posted_disconnected == 0) s _ (λ none_posted. h)
      (λ some_posted gone. refl)
step-IsEmptied (send_packet p) s h = send-IsEmptied p s h

run-IsEmptied : (es : List Event) (s : Session) → IsEmptied s → IsEmptied (run es s)
run-IsEmptied [] s h = h
run-IsEmptied (e ∷ es) s h = run-IsEmptied es (step e s) (step-IsEmptied e s h)

tally-empty : (m : ℕ) (l : List Packet) → is_empty l ≡ true → tally m l ≡ 0
tally-empty m [] h = refl
tally-empty m (p ∷ l) h = absurd (true≢false (sym h))

tally-short : (m : ℕ) (l : List Packet) → length l ≡ 0 → tally m l ≡ 0
tally-short m [] h = refl
tally-short m (p ∷ l) h = absurd (omega arith)

-- Once `disconnected` has let go of the session, no operation is under way, the session is closed
-- with one error reported, and each packet that was ever sent through it has been reported as often
-- as it was sent, as sent or as failed.
pub run-reported :
    (now timeout m : ℕ) (es : List Event)
    → (run es (opened now timeout)).has_detail ≡ false
    → let s = run es (opened now timeout) in
      (s.reading ≡ no_read)
      × (s.writing ≡ false)
      × (length s.errors ≡ 1)
      × (tally m s.finished + tally m s.failed ≡ tally m (sent es))
run-reported now timeout m es gone =
    (no_read_of s.reading still, not_writing, one_error, all_reported)
  where
    s : Session
    s = run es (opened now timeout)

    c : Counted s
    c = run-opened-Counted now timeout es

    idle : s.pending_ops_count ≡ 0
    idle = ground (arith, c.once, gone)

    still : reads s.reading ≡ 0
    still = omega (arith, c.counted, idle)

    not_writing : s.writing ≡ false
    not_writing = ground (arith, c.counted, idle)

    one_error : length s.errors ≡ 1
    one_error = ground (arith, c.first_error, c.reads_on, still)

    emptied : IsEmptied s
    emptied = run-IsEmptied es (opened now timeout) (unfold opened in λ h. refl)

    all_reported : tally m s.finished + tally m s.failed ≡ tally m (sent es)
    all_reported = omega (
      arith,
      run-conserved now timeout m es,
      tally-empty m s.async_send_queue (emptied gone),
      tally-short m s.posted (omega (arith, c.counted, idle)),
    )

    no_read_of : (r : Reading) → reads r ≡ 0 → r ≡ no_read
    no_read_of header h = absurd (omega arith)
    no_read_of no_read h = refl
    no_read_of (rest_of n) h = absurd (omega arith)
