-- ===== src/Terminal/Receive.antt =====
-- `PvpTerminal::receiveMessage` up to its last call, `parseMessage`, and the operations on the list
-- of messages that were sent and not yet acknowledged.
use lalune_server.Base.{
  ℕ, zero, suc, ◌+◌, ◌-◌, ◌*◌, ◌^◌, bit_and, bit_or, not, ◌&&◌, List, [], ◌∷◌, Option, none, some,
  if◌then◌else◌, ltb, ◌==◌, nat_key, u16, u32,
}
use lalune_server.Base.Int.{ℤ, pos, negsuc}
use lalune_server.Queue.{MessageQueue}
use lalune_server.Terminal.Sequence.{diff_between, prev_seq_no}
use lalune_server.Terminal.{
  PvpTerminal, PvpTerminalState, disconnected, connected, sync, PvpMessage, new_message, proto_sync,
  all_acked, send_message,
}

unfoldable pub drop_message : ℕ → MessageQueue PvpMessage → MessageQueue PvpMessage
drop_message number [] = []
drop_message number (m ∷ q) = if u16 m.seq_no == number then q else m ∷ drop_message number q

unfoldable pub acknowledge_bit : ℕ → ℕ → ℕ → ℕ → PvpTerminal → PvpTerminal
unfolding drop_message prev_seq_no
acknowledge_bit i diff ack_no ack_bits t =
    if bit_and t.remote_ack_bits (2 ^ (i + diff)) == 0 && not (bit_and ack_bits (2 ^ i) == 0)
    then record t {
      remote_ack_bits = bit_or t.remote_ack_bits (2 ^ (i + diff));
      sent_message = drop_message (prev_seq_no ack_no i) t.sent_message;
    }
    else t

-- One round of the loop over the acknowledgement bits of a message. It shifts by `i + diff` and by
-- `i` before it tests anything; no result: the shift is by 32 or more, which C++ does not define.
unfoldable pub acknowledge : ℕ → ℕ → ℕ → ℕ → PvpTerminal → Option PvpTerminal
unfolding acknowledge_bit
acknowledge i diff ack_no ack_bits t =
    if ltb i 32 && ltb (i + diff) 32 then some (acknowledge_bit i diff ack_no ack_bits t) else none

-- `for (int i = 0; i < 32 - diff; i++)`, with `rounds` still to go.
unfoldable pub acknowledge_loop : ℕ → ℕ → ℕ → ℕ → ℕ → PvpTerminal → Option PvpTerminal
unfolding acknowledge
acknowledge_loop zero i diff ack_no ack_bits t = some t
acknowledge_loop (suc rounds) i diff ack_no ack_bits t =
    elim (acknowledge i diff ack_no ack_bits t) [
      | none ↦ none
      | some t' ↦ acknowledge_loop rounds (i + 1) diff ack_no ack_bits t'
    ]

unfoldable pub acknowledge_from : ℤ → ℕ → ℕ → PvpTerminal → Option PvpTerminal
unfolding acknowledge_loop
acknowledge_from (pos diff) ack_no ack_bits t =
    acknowledge_loop (32 - diff) 0 diff ack_no ack_bits t
acknowledge_from (negsuc n) ack_no ack_bits t = some t

unfoldable pub update_remote : ℕ → ℕ → PvpTerminal → Option PvpTerminal
update_remote ack_no ack_bits t = acknowledge_from (diff_between t.seq_no ack_no) ack_no ack_bits t

-- What a number does to the record of received numbers. A shift of a 32-bit value by 32 or more is
-- undefined in C++.
pub data Arrival : Type 0 where
  duplicate undefined_shift : Arrival
  fresh : PvpTerminal → Arrival

unfoldable pub arrive : ℤ → ℕ → PvpTerminal → Arrival
arrive (pos shift) seq_no t =
    if shift == 0
    then duplicate
    else (if ltb shift 32
        then fresh
            (record t { ack_no = seq_no; ack_bits = bit_or (u32 (t.ack_bits * 2 ^ shift)) 1 })
        else undefined_shift)
arrive (negsuc n) seq_no t =
    if ltb (n + 1) 32
    then (if bit_and t.ack_bits (2 ^ (n + 1)) == 0
        then fresh (record t { ack_bits = bit_or t.ack_bits (2 ^ (n + 1)) })
        else duplicate)
    else undefined_shift

unfoldable pub note_arrival : ℕ → PvpTerminal → Arrival
note_arrival seq_no t = arrive (diff_between seq_no t.ack_no) seq_no t

-- `accepted` says that the message goes on to `parseMessage`.
pub data Received : Type 0 where
  undefined : Received
  ignored : PvpTerminal → Received
  answered : PvpTerminal → List PvpMessage → Received
  accepted : PvpTerminal → Received

unfoldable pub connect_request : ℕ → PvpTerminal → Received
unfolding send_message
connect_request seq_no t = elim t.state [
  | disconnected ↦
      let (t', out) =
        send_message
          (record t {
            ack_no = seq_no;
            ack_bits = 1;
            remote_ack_bits = all_acked;
            max_resent_bit = 32;
            sent_message = [];
            state = sync;
          })
          (new_message []) proto_sync in
      answered t' out
  | _ ↦ ignored t
]

unfoldable pub data_packet : ℕ → ℕ → ℕ → PvpTerminal → Received
data_packet seq_no ack_no ack_bits t = elim (note_arrival seq_no t) [
  | duplicate ↦ ignored t
  | undefined_shift ↦ undefined
  | fresh t' ↦ elim (update_remote ack_no ack_bits t') [
    | none ↦ undefined
    | some t'' ↦ accepted t''
  ]
]

-- Only a terminal that has answered a connect request takes data.
unfoldable pub dispatch : PvpTerminalState → ℕ → ℕ → ℕ → PvpTerminal → Received
dispatch disconnected seq_no ack_no ack_bits t = ignored t
dispatch sync seq_no ack_no ack_bits t =
    data_packet seq_no ack_no ack_bits (record t { state = connected })
dispatch connected seq_no ack_no ack_bits t = data_packet seq_no ack_no ack_bits t

unfoldable pub receive_message : PvpTerminal → PvpMessage → Received
unfolding connect_request dispatch
receive_message t m =
    let t' = record t { total_time_no_message = 0 } in
    if u16 m.proto_id == proto_sync
    then connect_request (u16 m.seq_no) t'
    else dispatch t'.state (u16 m.seq_no) (u16 m.ack_no) m.ack_bits t'
