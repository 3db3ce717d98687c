-- ===== src/Session.antt =====
-- NetLib: one TCP session of a server, `NetLib_ServerSession_Imp` with its
-- `NetLib_Connected_TcpSession`. The handlers that asio calls are functions of the session. `Reading`
-- and `writing` say which of asio's operations is under way, and `posted` holds the handlers that
-- were posted and have not run.
pub mod Counted
pub mod Steps
pub mod Reported
pub mod Released
use lalune_server.Base.{
  ℕ, zero, suc, ◌+◌, ◌-◌, ◌≤◌, Bool, true, false, not, ◌&&◌, ◌||◌, List, [], ◌∷◌, ◌++◌, Option,
  none, some, if◌then◌else◌, ltb, leb, ◌==◌, nat_key, Bytes, length,
}

-- The errors that a session reports.
pub data NetLibError : Type 0 where
  close_by_local client_recv_error tcp_disconnect_by_remote session_timeout : NetLibError
  packet_too_big packet_too_small : NetLibError

-- What asio says of an operation: done, broken by the other side, or another error.
pub data Outcome : Type 0 where
  done broken failure : Outcome

pub data Reading : Type 0 where
  header no_read : Reading
  rest_of : ℕ → Reading

-- `copy` packets are freed by the session; `mark` tells packets apart.
pub record Packet : Type 0 where
  pub mark : ℕ
  pub copy : Bool

pub record Session : Type 0 where
  pub is_connected : Bool
  pub has_detail : Bool
  pub async_send_queue : List Packet
  pub pending_ops_count : ℕ
  pub reading : Reading
  pub writing : Bool
  pub posted : List Packet
  pub posted_disconnected : ℕ
  pub deadline : ℕ
  pub timeout_seconds : ℕ
  pub errors : List NetLibError
  pub received : List Bytes
  pub finished : List Packet
  pub failed : List Packet

abbrev pub max_packet_size : ℕ
max_packet_size = 524288

abbrev pub increase_pending_ops_count : Session → Session
increase_pending_ops_count s = record s { pending_ops_count = s.pending_ops_count + 1 }

-- When the count comes to 0, `disconnected` is posted.
unfoldable pub decrease_pending_ops_count : Session → Session
decrease_pending_ops_count s =
    let n = s.pending_ops_count - 1 in
    record s {
      pending_ops_count = n;
      posted_disconnected = s.posted_disconnected + (if n == 0 then 1 else 0);
    }

-- `handle_error` reports the first error only, since the session is closed once.
unfoldable pub close_session_and_handle_error : NetLibError → Session → Session
close_session_and_handle_error e s =
    if s.is_connected then record s { is_connected = false; errors = s.errors ++ e ∷ [] } else s

-- The state in which `start` leaves a new session: the first header is being read.
unfoldable pub opened : ℕ → ℕ → Session
opened now timeout = record {
  is_connected = true;
  has_detail = true;
  async_send_queue = [];
  pending_ops_count = 1;
  reading = header;
  writing = false;
  posted = [];
  posted_disconnected = 0;
  deadline = now + timeout;
  timeout_seconds = timeout;
  errors = [];
  received = [];
  finished = [];
  failed = [];
}

abbrev pub error_of : Outcome → NetLibError
error_of broken = tcp_disconnect_by_remote
error_of _ = client_recv_error

abbrev pub is_done : Outcome → Bool
is_done done = true
is_done _ = false

-- The end of a read that is not followed by another.
abbrev pub stop_reading : NetLibError → Session → Session
stop_reading e s =
    decrease_pending_ops_count (record (close_session_and_handle_error e s) { reading = no_read })

-- The header is the packet's size, its own four bytes included.
unfoldable pub tcp_header_recv : Outcome → ℕ → Session → Session
unfolding decrease_pending_ops_count close_session_and_handle_error
tcp_header_recv o size s =
    if is_done o && s.is_connected
    then (if ltb max_packet_size size
        then stop_reading packet_too_big s
        else (if ltb size 4
            then stop_reading packet_too_small s
            else record s { reading = rest_of (size - 4) }))
    else stop_reading (error_of o) s

unfoldable pub refresh_timeout_timer : ℕ → Session → Session
refresh_timeout_timer now s = record s { deadline = now + s.timeout_seconds }

-- A packet without data keeps the session alive and is not handed on.
unfoldable pub recv_finish_handler : ℕ → Bytes → Session → Session
unfolding refresh_timeout_timer
recv_finish_handler now content s =
    let s' = refresh_timeout_timer now s in
    if length content == 0 then s' else record s' { received = s'.received ++ content ∷ [] }

unfoldable pub tcp_recv_async_finished : Outcome → ℕ → Bytes → Session → Session
unfolding recv_finish_handler decrease_pending_ops_count close_session_and_handle_error
tcp_recv_async_finished o now content s =
    if is_done o && s.is_connected
    then record (recv_finish_handler now content s) { reading = header }
    else stop_reading (error_of o) s

unfoldable pub send_async_from_queue : Session → Session
send_async_from_queue s = record (increase_pending_ops_count s) { writing = true }

unfoldable pub send_async : Packet → Session → Session
unfolding send_async_from_queue
send_async p s =
    let s' = record s { async_send_queue = s.async_send_queue ++ p ∷ [] } in
    if length s'.async_send_queue == 1 then send_async_from_queue s' else s'

-- `SendAsync` and `SendCopyAsync`. The handler of a failure is posted; it stands as reported at once.
unfoldable pub send : Packet → Session → Session
unfolding send_async
send p s =
    if s.has_detail && s.is_connected
    then send_async p s
    else record s { failed = s.failed ++ p ∷ [] }

-- The packet at the front is out; its count passes to the posted handler.
unfoldable pub tcp_send_async_finished : Outcome → Session → Session
unfolding send_async_from_queue decrease_pending_ops_count close_session_and_handle_error
tcp_send_async_finished o s =
    if is_done o && s.is_connected
    then (elim s.async_send_queue [
      | [] ↦ record s { writing = false }
      | p ∷ rest ↦
          let s' = record s {
            writing = false;
            posted = s.posted ++ p ∷ [];
            async_send_queue = rest;
          } in
          elim rest [ [] ↦ s' | q ∷ more ↦ send_async_from_queue s' ]
    ])
    else decrease_pending_ops_count
        (record (close_session_and_handle_error client_recv_error s) { writing = false })

-- `send_packet_finish` and `send_packet_copy_finish`, for the handler posted first.
unfoldable pub send_packet_finish : Session → Session
unfolding decrease_pending_ops_count
send_packet_finish s = elim s.posted [
  | [] ↦ s
  | p ∷ rest ↦
      decrease_pending_ops_count (record s { posted = rest; finished = s.finished ++ p ∷ [] })
]

unfoldable pub timeout_handler : Session → Session
unfolding close_session_and_handle_error
timeout_handler s =
    if s.has_detail && s.is_connected then close_session_and_handle_error session_timeout s else s

unfoldable pub disconnect : Session → Session
unfolding close_session_and_handle_error
disconnect s = if s.has_detail then close_session_and_handle_error close_by_local s else s

-- `process_failed_packets` and the reset of `session_detail`.
unfoldable pub disconnected : Session → Session
disconnected s = record s {
  failed = s.failed ++ s.async_send_queue;
  async_send_queue = [];
  has_detail = false;
}
