-- ===== src/Session/Counted.antt =====
-- The count of pending operations: the session is let go of once, when nothing is under way.
use lalune_server.Base.{
  ℕ, ◌+◌, ◌-◌, ◌≤◌, ◌≡◌, refl, ◌∙◌, ap, sym, Bool, true, false, not, ◌&&◌, List, [], ◌∷◌, ◌++◌,
  if◌then◌else◌, ltb, leb, ◌==◌, nat_key, Bytes, length, length-append, arith, is_empty, if_cases,
}
use mathlib.Core.Bool.{true≢false}
use lalune_server.Session.{
  max_packet_size, Session, Packet, Reading, header, no_read, rest_of, Outcome, NetLibError, opened,
  tcp_header_recv, tcp_recv_async_finished, tcp_send_async_finished, send_packet_finish,
  timeout_handler, disconnect, disconnected, send, close_session_and_handle_error,
  decrease_pending_ops_count, stop_reading, packet_too_big, packet_too_small, recv_finish_handler,
  refresh_timeout_timer, error_of, is_done,
}

-- What can happen to a session. An operation ends only if it is under way.
pub data Event : Type 0 where
  header_in : Outcome → ℕ → Event
  body_in : Outcome → ℕ → Bytes → Event
  sent_out : Outcome → Event
  finish_handler : Event
  timer : ℕ → Event
  local_close : Event
  run_disconnected : Event
  send_packet : Packet → Event

abbrev pub step : Event → Session → Session
step (header_in o size) s = elim s.reading [ header ↦ tcp_header_recv o size s | _ ↦ s ]
step (body_in o now content) s = elim s.reading [
  | rest_of n ↦ tcp_recv_async_finished o now content s
  | _ ↦ s
]
step (sent_out o) s = if s.writing then tcp_send_async_finished o s else s
step finish_handler s = send_packet_finish s
step (timer now) s = if leb s.deadline now then timeout_handler s else s
step local_close s = disconnect s
step run_disconnected s =
    if s.posted_disconnected == 0
    then s
    else disconnected (record s { posted_disconnected = s.posted_disconnected - 1 })
step (send_packet p) s = send p s

abbrev pub run : List Event → Session → Session
run [] s = s
run (e ∷ es) s = run es (step e s)

abbrev pub reads : Reading → ℕ
reads no_read = 0
reads _ = 1

pub record Counted (s : Session) : Type 0 where
  pub counted :
      s.pending_ops_count ≡ reads s.reading + (if s.writing then 1 else 0) + length s.posted
  pub reads_on : s.is_connected ≡ true → reads s.reading ≡ 1
  pub writes_on : s.is_connected ≡ true → s.writing ≡ not (is_empty s.async_send_queue)
  pub once :
      s.posted_disconnected + (if s.has_detail then 0 else 1)
      ≡ (if s.pending_ops_count == 0 then 1 else 0)
  pub first_error : length s.errors ≡ (if s.is_connected then 0 else 1)

pub and_right : (a b : Bool) → (a && b) ≡ true → b ≡ true
and_right true b h = h
and_right false b h = absurd (true≢false (sym h))

pub opened-Counted : (now timeout : ℕ) → Counted (opened now timeout)
unfolding opened
opened-Counted now timeout = record {
  counted = refl;
  reads_on = λ h. refl;
  writes_on = λ h. refl;
  once = refl;
  first_error = refl;
}

pub close-Counted :
    (e : NetLibError) (s : Session) → Counted s → Counted (close_session_and_handle_error e s)
unfolding close_session_and_handle_error
close-Counted e s c =
    if_cases Counted s.is_connected (record s { is_connected = false; errors = s.errors ++ e ∷ [] })
      s
      (λ up. record {
        counted = ground (arith, c.counted);
        reads_on = ground arith;
        writes_on = ground arith;
        once = ground (arith, c.once);
        first_error = ground (arith, c.first_error, length-append s.errors (e ∷ []));
      })
      (λ down. c)

pub close-down :
    (e : NetLibError) (s : Session) → (close_session_and_handle_error e s).is_connected ≡ false
unfolding close_session_and_handle_error
close-down e s =
    if_cases (λ t. t.is_connected ≡ false) s.is_connected _ s (λ up. refl) (λ down. down)

close-reading :
    (e : NetLibError) (s : Session) → (close_session_and_handle_error e s).reading ≡ s.reading
unfolding close_session_and_handle_error
close-reading e s =
    if_cases (λ t. t.reading ≡ s.reading) s.is_connected _ s (λ up. refl) (λ down. refl)

pub close-writing :
    (e : NetLibError) (s : Session) → (close_session_and_handle_error e s).writing ≡ s.writing
unfolding close_session_and_handle_error
close-writing e s =
    if_cases (λ t. t.writing ≡ s.writing) s.is_connected _ s (λ up. refl) (λ down. refl)

-- The end of an operation whose count is given back.
pub give_back-Counted :
    (s : Session)
    → (s.is_connected ≡ true → reads s.reading ≡ 1)
    → (s.is_connected ≡ true → s.writing ≡ not (is_empty s.async_send_queue))
    → (s.pending_ops_count ≡ 1 + (reads s.reading + (if s.writing then 1 else 0) + length s.posted))
    → (s.posted_disconnected + (if s.has_detail then 0 else 1) ≡ 0)
    → (length s.errors ≡ (if s.is_connected then 0 else 1))
    → Counted (decrease_pending_ops_count s)
unfolding decrease_pending_ops_count
give_back-Counted s reads_on writes_on n none_yet first_error = record {
  counted = omega (arith, n);
  reads_on = reads_on;
  writes_on = writes_on;
  once = ground (arith, n, none_yet);
  first_error = first_error;
}

-- While something is under way, nothing was posted.
pub none_yet :
    (s : Session)
    → Counted s
    → 1 ≤ s.pending_ops_count
    → s.posted_disconnected + (if s.has_detail then 0 else 1) ≡ 0
none_yet s c h = ground (arith, c.once)

stop_reading-Counted :
    (e : NetLibError) (s : Session) → Counted s → reads s.reading ≡ 1 → Counted (stop_reading e s)
stop_reading-Counted e s c on =
    give_back-Counted (record t { reading = no_read }) (λ up. absurd (true≢false (sym up ∙ down)))
      (λ up. absurd (true≢false (sym up ∙ down))) (omega (arith, k.counted, still))
      (none_yet t k (omega (arith, k.counted, still))) k.first_error
  where
    t : Session
    t = close_session_and_handle_error e s

    k : Counted t
    k = close-Counted e s c

    down : t.is_connected ≡ false
    down = close-down e s

    still : reads t.reading ≡ 1
    still = ap reads (close-reading e s) ∙ on

pub header_in-Counted :
    (o : Outcome) (size : ℕ) (s : Session)
    → Counted s
    → reads s.reading ≡ 1
    → Counted (tcp_header_recv o size s)
unfolding tcp_header_recv
header_in-Counted o size s c on =
    if_cases Counted (is_done o && s.is_connected) _ (stop_reading (error_of o) s)
      (λ up.
        if_cases Counted (ltb max_packet_size size) (stop_reading packet_too_big s) _
          (λ big. stop_reading-Counted packet_too_big s c on)
          (λ fits.
            if_cases Counted (ltb size 4) (stop_reading packet_too_small s)
              (record s { reading = rest_of (size - 4) })
              (λ small. stop_reading-Counted packet_too_small s c on)
              (λ good. record {
                counted = omega (arith, c.counted, on);
                reads_on = λ h. refl;
                writes_on = c.writes_on;
                once = c.once;
                first_error = c.first_error;
              })))
      (λ broken. stop_reading-Counted (error_of o) s c on)

pub body_in-Counted :
    (o : Outcome) (now : ℕ) (content : Bytes) (s : Session)
    → Counted s
    → reads s.reading ≡ 1
    → Counted (tcp_recv_async_finished o now content s)
unfolding tcp_recv_async_finished recv_finish_handler
body_in-Counted o now content s c on =
    if_cases Counted (is_done o && s.is_connected)
      (record (recv_finish_handler now content s) { reading = header })
      (stop_reading (error_of o) s)
      (λ up.
        if_cases (λ t. Counted (record t { reading = header })) (length content == 0)
          (refresh_timeout_timer now s) _ (λ alone. again (now + s.timeout_seconds) s.received)
          (λ full. again (now + s.timeout_seconds) (s.received ++ content ∷ [])))
      (λ broken. stop_reading-Counted (error_of o) s c on)
  where
    again :
        (d : ℕ) (r : List Bytes)
        → Counted (record s { deadline = d; received = r; reading = header })
    again d r = record {
      counted = omega (arith, c.counted, on);
      reads_on = λ h. refl;
      writes_on = c.writes_on;
      once = c.once;
      first_error = c.first_error;
    }
