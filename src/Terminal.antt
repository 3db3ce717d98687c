-- ===== src/Terminal.antt =====
-- BoidsPvpServer/BoidsPvpServer/Terminal: one remote player over UDP, with acknowledgement bits,
-- a window of 32 packets and retransmission.
pub mod Sequence
pub mod Receive
pub mod Resend
pub mod Acks
pub mod Shifts
pub mod Window
use lalune_server.Base.{
  ℕ, zero, suc, ◌+◌, ◌-◌, ◌*◌, ◌/◌, ◌^◌, ◌%◌, ◌<◌, bit_and, bit_or, Bool, true, false, not, ◌&&◌,
  List, [], ◌∷◌, ◌++◌, Option, none, some, if◌then◌else◌, ltb, ◌==◌, nat_key, u16, u32, is_empty,
  Bytes,
}
use lalune_server.Base.Int.{ℤ, pos, negsuc}
use lalune_server.Queue.{MessageQueue, enqueue, dequeue, clear}
use Sequence.{diff_between, next_seq_no, prev_seq_no}

pub data PvpTerminalState : Type 0 where
  disconnected connected sync : PvpTerminalState

-- The fields of a `PvpMessage` that the terminal reads and writes. `body` is the protobuf's `data`.
pub record PvpMessage : Type 0 where
  pub proto_id : ℕ
  pub version : ℕ
  pub ack_no : ℕ
  pub ack_bits : ℕ
  pub seq_no : ℕ
  pub body : Bytes

abbrev pub new_message : Bytes → PvpMessage
new_message b = record { proto_id = 0; version = 0; ack_no = 0; ack_bits = 0; seq_no = 0; body = b }

-- `game_server` is the weak pointer to the game, by the game's place in memory.
pub record PvpTerminal : Type 0 where
  pub state : PvpTerminalState
  pub ack_no : ℕ
  pub ack_bits : ℕ
  pub seq_no : ℕ
  pub remote_ack_bits : ℕ
  pub max_resent_bit : ℕ
  pub sent_message : MessageQueue PvpMessage
  pub to_send_messages : MessageQueue PvpMessage
  pub total_time_no_message : ℕ
  pub game_server : Option ℕ

abbrev pub proto_plain : ℕ
proto_plain = 1

abbrev pub proto_sync : ℕ
proto_sync = 2

abbrev pub all_acked : ℕ
all_acked = 0xffffffff

abbrev pub resend_interval : ℕ
resend_interval = 100000

abbrev pub disconnect_timeout : ℕ
disconnect_timeout = 10000000

abbrev pub new_terminal : PvpTerminal
new_terminal = record {
  state = disconnected;
  ack_no = 0;
  ack_bits = 0;
  seq_no = 0;
  remote_ack_bits = all_acked;
  max_resent_bit = 32;
  sent_message = [];
  to_send_messages = [];
  total_time_no_message = 0;
  game_server = none;
}

-- Whether `directSendMessage` puts the message on the wire in this state.
abbrev pub may_send : PvpTerminalState → ℕ → Bool
may_send disconnected proto = false
may_send sync proto = proto == proto_sync
may_send connected proto = true

-- The datagrams are handed to `PvpServer::sendBoidsMessage`.
unfoldable pub direct_send : PvpTerminal → PvpMessage → Bool × PvpTerminal × List PvpMessage
direct_send t m =
    if may_send t.state m.proto_id
    then (true, record t { max_resent_bit = t.max_resent_bit - 1 }, m ∷ [])
    else (false, t, [])

-- The loop body of `handleToSendQueue` up to the call of `directSendMessage`.
unfoldable pub stamp : PvpTerminal → PvpMessage → PvpTerminal × PvpMessage
unfolding next_seq_no enqueue
stamp t m =
    let number = next_seq_no t.seq_no in
    let m' = record m { version = 1; ack_no = t.ack_no; ack_bits = t.ack_bits; seq_no = number } in
    (
      record t {
        seq_no = number;
        remote_ack_bits = u32 (t.remote_ack_bits * 2);
        sent_message = enqueue m' t.sent_message;
      },
      m',
    )

-- One round of `handleToSendQueue`: `none` if the queue is empty or the window full, and otherwise
-- whether the message went out.
unfoldable pub send_front : PvpTerminal → Option (Bool × PvpTerminal × List PvpMessage)
unfolding stamp direct_send dequeue
send_front t = elim (dequeue t.to_send_messages).0 [
  | none ↦ none
  | some m ↦
      if bit_and t.remote_ack_bits 0x80000000 == 0
      then none
      else (let (t', m') =
            stamp (record t { to_send_messages = (dequeue t.to_send_messages).1 }) m in
          some (direct_send t' m'))
]

-- `while (!empty && ++count < 5)`: at most four rounds.
unfoldable pub handle_queue : ℕ → PvpTerminal → PvpTerminal × List PvpMessage
handle_queue zero t = (t, [])
handle_queue (suc rounds) t = elim (send_front t) [
  | none ↦ (t, [])
  | some (went, t', out) ↦ elim went [
    | true ↦ let (t₂, rest) = handle_queue rounds t' in (t₂, out ++ rest)
    | false ↦ (t', out)
  ]
]

unfoldable pub send_message : PvpTerminal → PvpMessage → ℕ → PvpTerminal × List PvpMessage
unfolding handle_queue enqueue
send_message t m proto =
    handle_queue 4
      (record t { to_send_messages = enqueue (record m { proto_id = proto }) t.to_send_messages })
