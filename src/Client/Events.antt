-- ===== src/Client/Events.antt =====
-- Events of a client, and what the end of its last operation leaves.
use lalune_server.Base.{
  ℕ, ◌+◌, ◌-◌, ◌≡◌, ◌≢◌, refl, sym, ◌++◌, ◌∙◌, Bool, true, false, not, ◌||◌, ◌&&◌, List, [], ◌∷◌,
  Option, none, some, if◌then◌else◌, if_cases, ◌==◌, nat_key, arith,
}
use mathlib.Core.Bool.{true≢false}
use mathlib.Core.Path.{subst}
use lalune_server.Session.{Packet}
use lalune_server.Client.{
  Client, ClientError, disconnect, connect_request, reconnect_timer_pulse, handle_error,
  connect_async, tcp_connect_async, decrease_pending, disconnected, disable_reconnect,
  reset_failed_data, set_reconnect, send, tcp_connected_handler, session_op_failed, call,
  disconnected_handler, reconnect_failed, queue_of, may_retry,
}

-- The calls of the client's user, the timer for connecting again, and the completions that asio makes.
-- Operations of the session that succeed are not among them: there are none without a session.
pub data Event : Type 0 where
  connect_asked : Bool → Bool → Bool → Event
  disconnect_asked reconnect_disabled failed_data_reset : Event
  reconnect_set : Option ℕ → Event
  packet_sent : Packet → Event
  timer_fired : Bool → Event
  connect_ended : Bool → Event
  operation_failed : ClientError → Event
  process_ended : (Bool → Bool) → Bool → Event

-- A completion needs what it completes: an attempt to connect, an operation that is under way, or a
-- `disconnected` that was posted.
unfoldable pub step : Event → Client → Client
unfolding connect_request disconnect disable_reconnect reset_failed_data set_reconnect send
    reconnect_timer_pulse tcp_connected_handler session_op_failed disconnected
step (connect_asked keep_alive on_first bad) c = connect_request keep_alive on_first bad c
step disconnect_asked c = disconnect c
step reconnect_disabled c = disable_reconnect c
step failed_data_reset c = reset_failed_data c
step (reconnect_set most) c = set_reconnect most c
step (packet_sent p) c = send p c
step (timer_fired bad) c = reconnect_timer_pulse bad c
step (connect_ended error) c = if c.connecting then tcp_connected_handler error c else c
step (operation_failed e) c = if c.pending_ops_count == 0 then c else session_op_failed e c
step (process_ended wish bad) c =
    if c.posted_disconnected == 0
    then c
    else disconnected wish bad (record c { posted_disconnected = c.posted_disconnected - 1 })

abbrev pub run : List Event → Client → Client
run [] c = c
run (e ∷ es) c = run es (step e c)

-- In the process of disconnecting with nothing under way that could end it.
abbrev pub IsIdle : Client → Type 0
IsIdle c =
    (c.in_disconnect_process ≡ true)
    × (c.connected_session ≡ none)
    × (c.connecting ≡ false)
    × (c.pending_ops_count ≡ 0)
    × (c.posted_disconnected ≡ 0)

-- The same, and no timer will go off either.
abbrev pub IsStuck : Client → Type 0
IsStuck c = IsIdle c × (c.retry_timer ≡ false)

connect_async-timer : (bad : Bool) (c : Client) → (connect_async bad c).retry_timer ≡ c.retry_timer
unfolding connect_async tcp_connect_async decrease_pending handle_error
connect_async-timer bad c = ground arith

-- A client whose timer is set has nothing under way.
abbrev pub IsTimed : Client → Type 0
IsTimed c = c.retry_timer ≡ true → IsIdle c

-- The last branches of `disconnected`, after the delegate was told.
told-IsTimed :
    (bad go_on later : Bool) (n : ℕ) (c : Client)
    → IsStuck c
    → IsTimed (
        if go_on
        then (if later
            then record c { retry_timer = true }
            else connect_async bad (record c { currently_retries = n }))
        else record c {
          in_disconnect_process = false;
          will_reconnect_if_disconnected = false;
          currently_retries = 0;
        })
told-IsTimed bad true true n c (h, off) set = h
told-IsTimed bad true false n c (h, off) set =
    absurd
      (true≢false (sym set ∙ (connect_async-timer bad (record c { currently_retries = n }) ∙ off)))
told-IsTimed bad false later n c (h, off) set = absurd (true≢false (sym set ∙ off))

-- The last operation that is under way is about to end, and there was an error.
pub record IsLast (c : Client) : Type 0 where
  pub failed : c.last_error ≢ none
  pub one_pending : c.pending_ops_count ≡ 1
  pub not_connecting : c.connecting ≡ false
  pub none_posted : c.posted_disconnected ≡ 0
  pub no_timer : c.retry_timer ≡ false

-- What its end leaves: the process of disconnecting has begun, and `disconnected` is posted.
abbrev ended : Client → Client
ended c = record c { pending_ops_count = 0; in_disconnect_process = true; posted_disconnected = 1 }

decrease_pending-ended : (c : Client) → IsLast c → decrease_pending c ≡ ended c
unfolding decrease_pending
decrease_pending-ended c h = by_error c.last_error refl
  where
    by_error : (o : Option ClientError) → c.last_error ≡ o → decrease_pending c ≡ ended c
    by_error none e = absurd (h.failed e)
    by_error (some e) at = ground (arith, at, h.one_pending, h.none_posted)

disconnected-IsTimed :
    (wish : Bool → Bool) (bad : Bool) (c : Client)
    → IsStuck (record c { connected_session = none })
    → IsTimed (disconnected wish bad c)
unfolding disconnected
disconnected-IsTimed wish bad c (h, off) =
    told-IsTimed bad (c.will_reconnect_if_disconnected && go_on')
      (not (c.currently_retries == 0) || c.first_connect) (c.currently_retries + 1)
      (record told { connected_session = none })
      (if_cases (λ (d : Client). IsStuck (record d { connected_session = none }))
        (c.currently_retries == 0) first_told again_told (λ first. (h, off)) (λ again. (h, off)))
  where
    go_on : Bool
    go_on =
        c.will_reconnect_if_disconnected && may_retry c.max_continuous_retries c.currently_retries

    first_told : Client
    first_told = record (call (disconnected_handler c.last_error go_on) c) {
      failed_data_queue = c.failed_data_queue ++ queue_of c.connected_session;
    }

    again_told : Client
    again_told = call (reconnect_failed go_on) c

    told : Client
    told = if c.currently_retries == 0 then first_told else again_told

    go_on' : Bool
    go_on' = if c.currently_retries == 0 then go_on else wish go_on

-- After that end, `disconnected` leaves nothing under way where it sets the timer.
pub process_ended-IsTimed :
    (wish : Bool → Bool) (bad : Bool) (c : Client)
    → IsLast c
    → IsTimed (step (process_ended wish bad) (decrease_pending c))
unfolding step
process_ended-IsTimed wish bad c h =
    subst (λ d. IsTimed (step (process_ended wish bad) d)) (sym (decrease_pending-ended c h))
      (disconnected-IsTimed wish bad (record (ended c) { posted_disconnected = 0 })
        ((refl, refl, h.not_connecting, refl, refl), h.no_timer))
