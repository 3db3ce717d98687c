-- ===== src/Client/Stuck.antt =====
-- A client that is disconnected by hand while it waits to connect again.
use lalune_server.Base.{
  ◌-◌, ◌≡◌, refl, sym, ap, ◌++◌, ◌∙◌, Bool, true, false, not, ◌||◌, List, [], ◌∷◌, Option, none,
  some, if_cases, ◌==◌, nat_key, arith,
}
use mathlib.Core.Bool.{true≢false}
use mathlib.Core.Path.{subst}
use lalune_server.Client.{
  Client, ClientError, disconnect, connect_request, reconnect_timer_pulse, handle_error,
  cancel_connect_by_local, decrease_pending, disconnected, disable_reconnect, reset_failed_data,
  set_reconnect, send, send_failed, session_send, is_connected, is_up_session,
  tcp_connected_handler, session_op_failed,
}
use lalune_server.Client.Events.{
  Event, connect_asked, disconnect_asked, reconnect_disabled, failed_data_reset, reconnect_set,
  packet_sent, timer_fired, connect_ended, operation_failed, process_ended, step, run, IsIdle,
  IsStuck, IsLast, process_ended-IsTimed,
}

-- A client that is in the process of disconnecting refuses every request to connect.
refuses :
    (keep_alive on_first bad : Bool) (c : Client)
    → c.in_disconnect_process ≡ true
    → connect_request keep_alive on_first bad c ≡ c
unfolding connect_request
refuses keep_alive on_first bad c h =
    if_cases (λ t. t ≡ c) (not (c.pending_ops_count == 0) || c.in_disconnect_process) c _
      (λ busy. refl)
      (λ idle. absurd (
        true≢false
          (sym (either (not (c.pending_ops_count == 0)) c.in_disconnect_process h) ∙ idle)))
  where
    either : (a b : Bool) → b ≡ true → (a || b) ≡ true
    either true b k = refl
    either false b k = k

handle_error-IsIdle : (e : ClientError) (c : Client) → IsIdle c → IsIdle (handle_error e c)
unfolding handle_error
handle_error-IsIdle e c h = by_error c.last_error
  where
    by_error :
        (o : Option ClientError)
        → IsIdle (elim o as (λ _. Client) [ none ↦ record c { last_error = some e } | some f ↦ c ])
    by_error none = h
    by_error (some f) = h

-- A disconnect in this state cancels the timer, and leaves the state.
disconnect-IsStuck : (c : Client) → IsIdle c → IsStuck (disconnect c)
unfolding disconnect
disconnect-IsStuck c h = subst IsStuck (sym after) (idle, refl)
  where
    marked : Client
    marked = record c { manually_disconnect = true; will_reconnect_if_disconnected = false }

    idle : IsIdle (handle_error cancel_connect_by_local marked)
    idle = handle_error-IsIdle cancel_connect_by_local marked h

    cancelled : Client
    cancelled = record (handle_error cancel_connect_by_local marked) { retry_timer = false }

    after : disconnect c ≡ cancelled
    after = rw h.0 refl

step-IsStuck : (e : Event) (c : Client) → IsStuck c → IsStuck (step e c)
unfolding step
step-IsStuck (connect_asked keep_alive on_first bad) c s =
    subst IsStuck (sym (refuses keep_alive on_first bad c s.0.0)) s
step-IsStuck disconnect_asked c s = disconnect-IsStuck c s.0
step-IsStuck reconnect_disabled c (h, off) = unfold disable_reconnect in (h, refl)
step-IsStuck failed_data_reset c (h, off) = unfold reset_failed_data in (h, off)
step-IsStuck (reconnect_set most) c (h, off) = unfold set_reconnect in (h, off)
step-IsStuck (packet_sent p) c s =
    unfold send is_connected send_failed in
    if_cases IsStuck (is_up_session c.connected_session) (session_send p c)
      (record c { failed_data_queue = c.failed_data_queue ++ p ∷ [] })
      (λ up. absurd (true≢false (sym up ∙ ap is_up_session s.0.1))) (λ down. s)
step-IsStuck (timer_fired bad) c s =
    unfold reconnect_timer_pulse in
    if_cases IsStuck c.retry_timer _ c (λ on. absurd (true≢false (sym on ∙ s.1))) (λ off. s)
step-IsStuck (connect_ended error) c s =
    if_cases IsStuck c.connecting (tcp_connected_handler error c) c
      (λ on. absurd (true≢false (sym on ∙ s.0.2))) (λ off. s)
step-IsStuck (operation_failed e) c s =
    if_cases IsStuck (c.pending_ops_count == 0) c (session_op_failed e c) (λ none_left. s)
      (λ some_left. absurd (ground (arith, s.0.3)))
step-IsStuck (process_ended wish bad) c s =
    if_cases IsStuck (c.posted_disconnected == 0) c
      (disconnected wish bad (record c { posted_disconnected = c.posted_disconnected - 1 }))
      (λ none_left. s) (λ some_left. absurd (ground (arith, s.0.4)))

run-IsStuck : (es : List Event) (c : Client) → IsStuck c → IsStuck (run es c)
run-IsStuck [] c s = s
run-IsStuck (e ∷ es) c s = run-IsStuck es (step e c) (step-IsStuck e c s)

-- The last operation of a client has ended with an error, and `disconnected` has set the timer to
-- connect again. A disconnect by hand then cancels the timer but leaves the client in the process of
-- disconnecting, with nothing under way that could end it, whatever happens later: every later
-- request to connect is refused, and leaves the client as it is.
pub run-disconnect-IsStuck :
    (keep_alive on_first bad bad' : Bool) (wish : Bool → Bool) (c : Client) (later : List Event)
    → IsLast c
    → (step (process_ended wish bad) (decrease_pending c)).retry_timer ≡ true
    → let waiting = step (process_ended wish bad) (decrease_pending c) in
      let s = run later (disconnect waiting) in
      IsStuck s × (connect_request keep_alive on_first bad' s ≡ s)
run-disconnect-IsStuck keep_alive on_first bad bad' wish c later h set =
    let waiting = step (process_ended wish bad) (decrease_pending c) in
    let stuck =
      run-IsStuck later (disconnect waiting)
        (disconnect-IsStuck waiting (process_ended-IsTimed wish bad c h set)) in
    (stuck, refuses keep_alive on_first bad' (run later (disconnect waiting)) stuck.0.0)
