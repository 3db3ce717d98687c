-- ===== src/Tests/Terminal.antt =====
-- BoidsPvpServer/BoidsPvpServer/Terminal.
use lalune_server.Base.{
  ℕ, ◌+◌, ◌≤◌, ◌<◌, ◌≡◌, ◌≢◌, ◌↔◌, refl, List, [], ◌∷◌, ◌++◌, arith, length, nat_key, u16,
}
use lalune_server.Base.Bits.{bit}
use lalune_server.Base.Int.{pos, negsuc}
use lalune_server.Terminal.{
  PvpTerminal, PvpMessage, new_terminal, new_message, connected, disconnected, send_message,
  proto_sync,
}
use lalune_server.Terminal.Sequence.{
  diff_between, next_seq_no, prev_seq_no, advance, prev_seq_no-advance, diff_between-next,
  diff_between_bounds,
}
use lalune_server.Terminal.Receive.{
  update_remote, acknowledge_from, Received, undefined, ignored, accepted, receive_message,
  note_arrival, arrive, data_packet, fresh, Arrival,
}
use lalune_server.Terminal.Resend.{alive, expired}
use lalune_server.Terminal.Acks.{note_arrival-recorded, recorded, newest, receive_message-again}
use lalune_server.Terminal.Shifts.{receive_message-undefined_iff, IsFar}
use lalune_server.Terminal.Window.{send_message_lem, pending, quiet, quiet-expires}

-- A terminal that has received the packet 7.
abbrev player : PvpTerminal
player = record new_terminal { state = connected; ack_no = 7; ack_bits = 1 }

abbrev packet : PvpMessage
packet = record (new_message (1 ∷ [])) { proto_id = 1; seq_no = 9; ack_no = 0; ack_bits = 0 }

abbrev terminal_of : Arrival → PvpTerminal
terminal_of (fresh t) = t
terminal_of _ = new_terminal

abbrev after : Received → PvpTerminal
after (accepted t) = t
after _ = new_terminal

prev_seq_no-advance_example : prev_seq_no (advance 3 0xfffe) 3 ≡ 0xfffe
prev_seq_no-advance_example = prev_seq_no-advance 3 0xfffe (omega arith) (omega arith) (omega arith)

diff_between-next_example : diff_between (next_seq_no 0xffff) 0xffff ≡ pos 2
diff_between-next_example = diff_between-next 0xffff (omega arith)

diff_between_bounds_example :
    (diff_between 3 0xfffe ≡ pos 5 → (5 ≤ 0x8000) × (u16 (0xfffe + 5) ≡ 3))
    × (diff_between 3 0xfffe ≡ negsuc 5 → (5 < 0x8000) × (u16 (3 + 5 + 1) ≡ 0xfffe))
diff_between_bounds_example = diff_between_bounds 3 0xfffe 5 (omega arith) (omega arith)

note_arrival-recorded_example :
    let t' = terminal_of (note_arrival 9 player) in
    (t'.ack_no ≡ newest (diff_between 9 7) 9 7)
    × (bit t'.ack_bits 2 ≡ recorded (diff_between 9 7) 1 2)
unfolding note_arrival arrive diff_between
note_arrival-recorded_example =
    note_arrival-recorded 9 2 player (terminal_of (note_arrival 9 player)) refl (omega arith)

receive_message-again_example :
    receive_message (after (receive_message player packet)) packet
    ≡ ignored (record (after (receive_message player packet)) { total_time_no_message = 0 })
unfolding receive_message data_packet note_arrival arrive diff_between update_remote
    acknowledge_from
receive_message-again_example =
    receive_message-again player (after (receive_message player packet)) packet refl

receive_message-undefined_iff_example : (receive_message player packet ≡ undefined) ↔ (
    (u16 packet.proto_id ≢ proto_sync)
    × (player.state ≢ disconnected)
    × IsFar (diff_between (u16 packet.seq_no) player.ack_no))
receive_message-undefined_iff_example = receive_message-undefined_iff player packet

send_message_lem_example :
    let r = send_message player packet 1 in
    (pending r.0 ≡ pending player ++ ((1 ∷ []) ∷ []))
    × (k : ℕ) × (k ≤ 4)
    × (r.0.seq_no ≡ advance k 0)
    × (length r.1 ≤ k)
send_message_lem_example = send_message_lem player packet 1

quiet-expires_example :
    (u v : PvpTerminal) × (out : List PvpMessage) × (quiet 100 player ≡ alive u out)
    × (quiet 101 player ≡ expired v)
quiet-expires_example = quiet-expires player refl
