-- ===== src/Client.antt =====
-- NetLib/NetLib_Client_Imp.cpp: a client that connects again by itself. Of its session it keeps what
-- the client's own code reads and writes: whether it is connected, and its queue. asio's
-- completions are the functions that the session's handlers call.
pub mod Resent
pub mod Events
pub mod Stuck
use lalune_server.Base.{
  ℕ, zero, suc, ◌+◌, ◌-◌, ◌≤◌, Bool, true, false, not, ◌&&◌, ◌||◌, List, [], ◌∷◌, ◌++◌, Option,
  none, some, if◌then◌else◌, ltb, ◌==◌, nat_key, length, is_empty,
}
use lalune_server.Session.{Packet}

pub data ClientError : Type 0 where
  closed_by_local connect_error connect_error_std_ex cancel_connect_by_local : ClientError
  recv_error disconnect_by_remote : ClientError

-- The handlers of the client's delegate that are called or posted.
pub data Callback : Type 0 where
  connected reconnected : Callback
  disconnected_handler : Option ClientError → Bool → Callback
  reconnect_failed : Bool → Callback
  failed_data_release : Packet → Callback

pub record Detail : Type 0 where
  pub is_up : Bool
  pub queue : List Packet

-- `max_continuous_retries` is `none` for -1. `retry_timer` says whether the timer is set.
pub record Client : Type 0 where
  pub last_error : Option ClientError
  pub manually_disconnect : Bool
  pub enable_reconnect : Bool
  pub will_reconnect_if_disconnected : Bool
  pub in_disconnect_process : Bool
  pub first_connect : Bool
  pub currently_retries : ℕ
  pub max_continuous_retries : Option ℕ
  pub pending_ops_count : ℕ
  pub failed_data_queue : List Packet
  pub connected_session : Option Detail
  pub keep_alive : Bool
  pub retry_timer : Bool
  pub connecting : Bool
  pub posted_disconnected : ℕ
  pub callbacks : List Callback

abbrev pub new_client : Client
new_client = record {
  last_error = none;
  manually_disconnect = false;
  enable_reconnect = true;
  will_reconnect_if_disconnected = false;
  in_disconnect_process = false;
  first_connect = true;
  currently_retries = 0;
  max_continuous_retries = none;
  pending_ops_count = 0;
  failed_data_queue = [];
  connected_session = none;
  keep_alive = false;
  retry_timer = false;
  connecting = false;
  posted_disconnected = 0;
  callbacks = [];
}

abbrev pub call : Callback → Client → Client
call b c = record c { callbacks = c.callbacks ++ b ∷ [] }

-- The packets that are not copies go back to the delegate.
unfoldable pub release_all : List Packet → List Callback
release_all [] = []
release_all (p ∷ l) = if p.copy then release_all l else failed_data_release p ∷ release_all l

unfoldable pub reset_failed_data : Client → Client
unfolding release_all
reset_failed_data c = record c {
  callbacks = c.callbacks ++ release_all c.failed_data_queue;
  failed_data_queue = [];
}

abbrev pub is_up_session : Option Detail → Bool
is_up_session none = false
is_up_session (some d) = d.is_up

unfoldable pub is_connected : Client → Bool
is_connected c = is_up_session c.connected_session

-- Only the first error is kept.
unfoldable pub handle_error : ClientError → Client → Client
handle_error e c = elim c.last_error [ none ↦ record c { last_error = some e } | some f ↦ c ]

unfoldable pub decrease_pending : Client → Client
decrease_pending c =
    let c' = record c { pending_ops_count = c.pending_ops_count - 1 } in
    if c'.pending_ops_count == 0
    then (elim c.last_error [
      | none ↦ c'
      | some e ↦ record c' {
        in_disconnect_process = true;
        posted_disconnected = c.posted_disconnected + 1;
      }
    ])
    else c'

-- `close_session_and_handle_error` of the client's session.
unfoldable pub close_session : ClientError → Client → Client
unfolding handle_error
close_session e c = elim c.connected_session [
  | none ↦ c
  | some d ↦
      if d.is_up
      then handle_error e (record c { connected_session = some (record d { is_up = false }) })
      else c
]

-- A read or a write of the session has failed.
unfoldable pub session_op_failed : ClientError → Client → Client
unfolding close_session decrease_pending
session_op_failed e c = decrease_pending (close_session e c)

-- `send_async` of the session: a packet that is alone in the queue is written at once.
unfoldable pub session_send : Packet → Client → Client
session_send p c = elim c.connected_session [
  | none ↦ c
  | some d ↦
      let q = d.queue ++ p ∷ [] in
      record c {
        connected_session = some (record d { queue = q });
        pending_ops_count = c.pending_ops_count + (if length q == 1 then 1 else 0);
      }
]

unfoldable pub disconnect : Client → Client
unfolding close_session handle_error is_connected
disconnect c =
    let c' = record c { manually_disconnect = true; will_reconnect_if_disconnected = false } in
    if not c'.in_disconnect_process && is_connected c'
    then close_session closed_by_local c'
    else record (handle_error cancel_connect_by_local c') { retry_timer = false }

-- `bad_address`: making the end point throws.
unfoldable pub tcp_connect_async : Bool → Client → Client
unfolding handle_error decrease_pending
tcp_connect_async bad_address c =
    if bad_address
    then decrease_pending (handle_error connect_error_std_ex c)
    else record c { pending_ops_count = c.pending_ops_count + 1; connecting = true }

unfoldable pub connect_async : Bool → Client → Client
unfolding tcp_connect_async
connect_async bad_address c =
    if c.manually_disconnect
    then c
    else tcp_connect_async bad_address (record c { last_error = none })

-- The timer's handler, unless the timer was cancelled.
unfoldable pub reconnect_timer_pulse : Bool → Client → Client
unfolding connect_async
reconnect_timer_pulse bad_address c =
    if c.retry_timer
    then connect_async bad_address
        (record c { retry_timer = false; currently_retries = c.currently_retries + 1 })
    else c

abbrev pub may_retry : Option ℕ → ℕ → Bool
may_retry none n = true
may_retry (some most) n = ltb n most

abbrev pub queue_of : Option Detail → List Packet
queue_of none = []
queue_of (some d) = d.queue

-- `wish` is what `ReconnectFailedHandler` makes of `will_continue_reconnect`.
unfoldable pub disconnected : (Bool → Bool) → Bool → Client → Client
unfolding connect_async
disconnected wish bad_address c =
    let go_on =
      c.will_reconnect_if_disconnected && may_retry c.max_continuous_retries c.currently_retries in
    let told : Client =
      if c.currently_retries == 0
      then record (call (disconnected_handler c.last_error go_on) c) {
        failed_data_queue = c.failed_data_queue ++ queue_of c.connected_session;
      }
      else call (reconnect_failed go_on) c in
    let go_on' = if c.currently_retries == 0 then go_on else wish go_on in
    let c' = record told { connected_session = none } in
    if c.will_reconnect_if_disconnected && go_on'
    then (if not (c.currently_retries == 0) || c.first_connect
        then record c' { retry_timer = true }
        else connect_async bad_address (record c' { currently_retries = c.currently_retries + 1 }))
    else record c' {
      in_disconnect_process = false;
      will_reconnect_if_disconnected = false;
      currently_retries = 0;
    }

-- The failed data goes out again, first things first.
unfoldable pub send_all : List Packet → Client → Client
unfolding session_send
send_all [] c = c
send_all (p ∷ l) c = send_all l (session_send p c)

unfoldable pub connected_handler : Client → Client
unfolding send_all
connected_handler c =
    let c₁ = record c {
      will_reconnect_if_disconnected = c.enable_reconnect || c.will_reconnect_if_disconnected;
    } in
    let c₂ : Client =
      if c₁.currently_retries == 0
      then call connected (record c₁ { first_connect = false })
      else call reconnected (record c₁ { in_disconnect_process = false; currently_retries = 0 }) in
    elim c₂.connected_session [
      | none ↦ c₂
      | some d ↦
          let c₃ = record (send_all c₂.failed_data_queue c₂) { failed_data_queue = [] } in
          if c₃.keep_alive then record c₃ { pending_ops_count = c₃.pending_ops_count + 1 } else c₃
    ]

-- The new session's `start` begins to read.
unfoldable pub tcp_connected_handler : Bool → Client → Client
unfolding handle_error decrease_pending connected_handler is_connected
tcp_connected_handler error c =
    let c₀ = record c { connecting = false } in
    decrease_pending (
      if error
      then handle_error connect_error c₀
      else (if c₀.manually_disconnect || is_connected c₀
          then c₀
          else connected_handler (record c₀ {
            connected_session = some (record { is_up = true; queue = [] });
            pending_ops_count = c₀.pending_ops_count + 1;
          })))

-- `_connect_async`, with the flags for keep-alive and for reconnecting on the first connect.
unfoldable pub connect_request : Bool → Bool → Bool → Client → Client
unfolding connect_async
connect_request keep_alive on_first bad_address c =
    if not (c.pending_ops_count == 0) || c.in_disconnect_process
    then c
    else connect_async bad_address (record c {
      manually_disconnect = false;
      keep_alive = keep_alive;
      will_reconnect_if_disconnected = on_first;
    })

unfoldable pub send_failed : Packet → Client → Client
send_failed p c = record c { failed_data_queue = c.failed_data_queue ++ p ∷ [] }

-- `SendAsync` and `SendCopyAsync`.
unfoldable pub send : Packet → Client → Client
unfolding session_send send_failed is_connected
send p c = if is_connected c then session_send p c else send_failed p c

unfoldable pub disable_reconnect : Client → Client
disable_reconnect c = record c {
  retry_timer = false;
  enable_reconnect = false;
  will_reconnect_if_disconnected = false;
  max_continuous_retries = some 0;
}

unfoldable pub set_reconnect : Option ℕ → Client → Client
set_reconnect most c = record c { enable_reconnect = true; max_continuous_retries = most }
