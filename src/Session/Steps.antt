-- ===== src/Session/Steps.antt =====
-- Every event keeps the count of pending operations in step with what is under way.
use lalune_server.Base.{
  ℕ, ◌+◌, ◌-◌, ◌≡◌, refl, ◌∙◌, ap, sym, true, false, not, ◌&&◌, List, [], ◌∷◌, ◌++◌, if◌then◌else◌,
  leb, ◌==◌, nat_key, length, length-append, arith, is_empty, if_cases,
}
use mathlib.Core.Bool.{true≢false}
use lalune_server.Session.Counted.{
  Event, header_in, body_in, sent_out, finish_handler, timer, local_close, run_disconnected,
  send_packet, step, run, reads, Counted, and_right, opened-Counted, close-Counted, close-down,
  close-writing, give_back-Counted, none_yet, header_in-Counted, body_in-Counted,
}
use lalune_server.Session.{
  Session, Packet, Reading, header, no_read, rest_of, Outcome, opened, tcp_header_recv,
  tcp_recv_async_finished, tcp_send_async_finished, send_packet_finish, timeout_handler, disconnect,
  disconnected, send, send_async, send_async_from_queue, close_session_and_handle_error,
  decrease_pending_ops_count, client_recv_error, session_timeout, close_by_local, is_done,
}

sent_out-Counted :
    (o : Outcome) (s : Session)
    → Counted s
    → s.writing ≡ true
    → Counted (tcp_send_async_finished o s)
unfolding tcp_send_async_finished send_async_from_queue
sent_out-Counted o s c on =
    if_cases Counted (is_done o && s.is_connected) _ _
      (λ up. by_queue s.async_send_queue refl (and_right (is_done o) s.is_connected up))
      (λ broken.
        give_back-Counted (record t { writing = false }) (λ up. absurd (true≢false (sym up ∙ down)))
          (λ up. absurd (true≢false (sym up ∙ down))) (ground (arith, k.counted, still))
          (none_yet t k (ground (arith, k.counted, still))) k.first_error)
  where
    t : Session
    t = close_session_and_handle_error client_recv_error s

    k : Counted t
    k = close-Counted client_recv_error s c

    down : t.is_connected ≡ false
    down = close-down client_recv_error s

    still : t.writing ≡ true
    still = close-writing client_recv_error s ∙ on

    by_queue :
        (q : List Packet)
        → s.async_send_queue ≡ q
        → s.is_connected ≡ true
        → Counted (elim q as (λ _. Session) [
          | [] ↦ record s { writing = false }
          | p ∷ rest ↦
              let s' = record s {
                writing = false;
                posted = s.posted ++ p ∷ [];
                async_send_queue = rest;
              } in
              elim rest as (λ _. Session) [ [] ↦ s' | r ∷ more ↦ send_async_from_queue s' ]
        ])
    by_queue [] e up = absurd (true≢false (sym on ∙ c.writes_on up ∙ ap (λ q. not (is_empty q)) e))
    by_queue (p ∷ []) e up = record {
      counted = ground (arith, c.counted, length-append s.posted (p ∷ []));
      reads_on = c.reads_on;
      writes_on = λ h. refl;
      once = c.once;
      first_error = c.first_error;
    }
    by_queue (p ∷ r ∷ more) e up = record {
      counted = ground (arith, c.counted, length-append s.posted (p ∷ []));
      reads_on = c.reads_on;
      writes_on = λ h. refl;
      once = ground (arith, c.once, c.counted);
      first_error = c.first_error;
    }

finish-Counted : (s : Session) → Counted s → Counted (send_packet_finish s)
unfolding send_packet_finish
finish-Counted s c = by_posted s.posted refl
  where
    by_posted :
        (l : List Packet)
        → s.posted ≡ l
        → Counted (elim l as (λ _. Session) [
          | [] ↦ s
          | p ∷ rest ↦
              decrease_pending_ops_count
                (record s { posted = rest; finished = s.finished ++ p ∷ [] })
        ])
    by_posted [] e = c
    by_posted (p ∷ rest) e =
        let n : s.pending_ops_count
            ≡ 1 + (reads s.reading + (if s.writing then 1 else 0) + length rest) =
          omega (arith, c.counted, ap length e) in
        give_back-Counted (record s { posted = rest; finished = s.finished ++ p ∷ [] }) c.reads_on
          c.writes_on n (none_yet s c (omega (arith, n))) c.first_error

send-Counted : (p : Packet) (s : Session) → Counted s → Counted (send p s)
unfolding send send_async send_async_from_queue
send-Counted p s c =
    if_cases Counted (s.has_detail && s.is_connected) _ (record s { failed = s.failed ++ p ∷ [] })
      (λ up. by_queue s.async_send_queue refl (and_right s.has_detail s.is_connected up))
      (λ down. record {
        counted = c.counted;
        reads_on = c.reads_on;
        writes_on = c.writes_on;
        once = c.once;
        first_error = c.first_error;
      })
  where
    by_queue :
        (q : List Packet)
        → s.async_send_queue ≡ q
        → s.is_connected ≡ true
        → Counted (
            let s' = record s { async_send_queue = q ++ p ∷ [] } in
            if length s'.async_send_queue == 1 then send_async_from_queue s' else s')
    by_queue [] e up =
        let idle : s.writing ≡ false = c.writes_on up ∙ ap (λ q. not (is_empty q)) e in
        record {
          counted = ground (arith, c.counted, idle);
          reads_on = c.reads_on;
          writes_on = λ h. refl;
          once = ground (arith, c.once, c.counted, c.reads_on up);
          first_error = c.first_error;
        }
    by_queue (x ∷ rest) e up =
        let busy : s.writing ≡ true = c.writes_on up ∙ ap (λ q. not (is_empty q)) e in
        let more : (length (x ∷ rest ++ p ∷ []) == 1) ≡ false =
          ground (arith, length-append rest (p ∷ [])) in
        rw more (record {
          counted = c.counted;
          reads_on = c.reads_on;
          writes_on = λ h. busy;
          once = c.once;
          first_error = c.first_error;
        })

disconnected-Counted :
    (s : Session)
    → Counted s
    → (s.posted_disconnected == 0) ≡ false
    → Counted (disconnected (record s { posted_disconnected = s.posted_disconnected - 1 }))
unfolding disconnected
disconnected-Counted s c some_posted = record {
  counted = c.counted;
  reads_on = c.reads_on;
  writes_on = ground (arith, c.once, c.counted, c.reads_on);
  once = ground (arith, c.once);
  first_error = c.first_error;
}

step-Counted : (e : Event) (s : Session) → Counted s → Counted (step e s)
step-Counted (header_in o size) s c = by_reading s.reading refl
  where
    by_reading :
        (r : Reading)
        → s.reading ≡ r
        → Counted (elim r as (λ _. Session) [ header ↦ tcp_header_recv o size s | _ ↦ s ])
    by_reading header e = header_in-Counted o size s c (ap reads e)
    by_reading no_read e = c
    by_reading (rest_of n) e = c
step-Counted (body_in o now content) s c = by_reading s.reading refl
  where
    by_reading :
        (r : Reading)
        → s.reading ≡ r
        → Counted (elim r as (λ _. Session) [
          | rest_of n ↦ tcp_recv_async_finished o now content s
          | _ ↦ s
        ])
    by_reading header e = c
    by_reading no_read e = c
    by_reading (rest_of n) e = body_in-Counted o now content s c (ap reads e)
step-Counted (sent_out o) s c =
    if_cases Counted s.writing (tcp_send_async_finished o s) s (sent_out-Counted o s c) (λ idle. c)
step-Counted finish_handler s c = finish-Counted s c
step-Counted (timer now) s c =
    if_cases Counted (leb s.deadline now) (timeout_handler s) s (λ late. late_close) (λ early. c)
  where
    late_close : Counted (timeout_handler s)
    late_close =
        unfold timeout_handler in
        if_cases Counted (s.has_detail && s.is_connected)
          (close_session_and_handle_error session_timeout s) s
          (λ up. close-Counted session_timeout s c) (λ down. c)
step-Counted local_close s c =
    unfold disconnect in
    if_cases Counted s.has_detail (close_session_and_handle_error close_by_local s) s
      (λ there. close-Counted close_by_local s c) (λ gone. c)
step-Counted run_disconnected s c =
    if_cases Counted (s.posted_disconnected == 0) s _ (λ none_posted. c) (disconnected-Counted s c)
step-Counted (send_packet p) s c = send-Counted p s c

pub run-Counted : (es : List Event) (s : Session) → Counted s → Counted (run es s)
run-Counted [] s c = c
run-Counted (e ∷ es) s c = run-Counted es (step e s) (step-Counted e s c)

-- Whatever happens to a new session, the count is the number of operations that are under way, and
-- the session reads as long as it is connected and writes just when there is something to send.
-- The handler `disconnected` is posted once, at the moment when the count comes to 0, and one error
-- is reported, when the session closes.
pub run-opened-Counted : (now timeout : ℕ) (es : List Event) → Counted (run es (opened now timeout))
run-opened-Counted now timeout es = run-Counted es (opened now timeout) (opened-Counted now timeout)
