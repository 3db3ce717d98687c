-- ===== src/Terminal/Resend.antt =====
-- `PvpTerminal::resendMessages` and the timer that calls it.
use lalune_server.Base.{
  ℕ, zero, suc, ◌+◌, ◌-◌, ◌/◌, bit_and, List, [], ◌∷◌, Option, none, some, if◌then◌else◌, ltb, ◌==◌,
  nat_key, u16,
}
use lalune_server.Queue.{MessageQueue}
use lalune_server.Terminal.Sequence.{prev_seq_no}
use lalune_server.Terminal.{
  PvpTerminal, PvpMessage, all_acked, direct_send, resend_interval, disconnect_timeout,
}

unfoldable pub get_sent_message : ℕ → MessageQueue PvpMessage → Option PvpMessage
get_sent_message number [] = none
get_sent_message number (m ∷ q) =
    if u16 m.seq_no == number then some m else get_sent_message number q

-- The message is shared with the list, so what is written into it stands in the list too.
unfoldable pub put_sent_message : ℕ → PvpMessage → MessageQueue PvpMessage → MessageQueue PvpMessage
put_sent_message number m' [] = []
put_sent_message number m' (m ∷ q) =
    if u16 m.seq_no == number then m' ∷ q else m ∷ put_sent_message number m' q

unfoldable pub retransmit : ℕ → PvpTerminal → PvpTerminal × List PvpMessage
unfolding get_sent_message put_sent_message direct_send
retransmit number t = elim (get_sent_message number t.sent_message) [
  | none ↦ (t, [])
  | some m ↦
      let m' = record m { ack_no = t.ack_no; ack_bits = t.ack_bits } in
      let (went, t', out) =
        direct_send (record t { sent_message = put_sent_message number m' t.sent_message }) m' in
      (t', out)
]

-- `for (int i = 1; i <= _max_resent_bit; i++)`; the loop ends at the first bit that is not set.
unfoldable pub resend_loop : ℕ → ℕ → ℕ → PvpTerminal → PvpTerminal × List PvpMessage
resend_loop zero i bit_mask t = (t, [])
resend_loop (suc rounds) i bit_mask t =
    let rest = resend_loop rounds (i + 1) (bit_mask / 2) t in
    if bit_and t.remote_ack_bits bit_mask == 0
    then retransmit (prev_seq_no t.seq_no (u16 (65568 - i))) t
    else rest

unfoldable pub resend_messages : PvpTerminal → PvpTerminal × List PvpMessage
resend_messages t =
    let (t', out) =
      if t.remote_ack_bits == all_acked
      then (t, [])
      else resend_loop t.max_resent_bit 1 0x80000000 t in
    (record t' { max_resent_bit = 32 }, out)

-- `expired`: the timer is not set again, and the terminal leaves its game and the server.
pub data Pulse : Type 0 where
  expired : PvpTerminal → Pulse
  alive : PvpTerminal → List PvpMessage → Pulse

-- `triggerUpdate` with no error.
unfoldable pub trigger_update : PvpTerminal → Pulse
trigger_update t =
    let t' = record t { total_time_no_message = t.total_time_no_message + resend_interval } in
    let (t₂, out) = resend_messages t' in
    if ltb disconnect_timeout t'.total_time_no_message then expired t' else alive t₂ out
