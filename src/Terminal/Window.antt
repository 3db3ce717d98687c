-- ===== src/Terminal/Window.antt =====
-- What `sendMessage`, `resendMessages` and the timer do to the window of packets in flight.
use mathlib.Core.List.{append_assoc, map-append}
use lalune_server.Base.{
  ℕ, zero, suc, ◌+◌, ◌-◌, ◌*◌, ◌/◌, ◌≤◌, ◌≢◌, ◌<◌, bit_and, ◌≡◌, refl, sym, ◌∙◌, Bool, true, false,
  List, [], ◌∷◌, ◌++◌, map, Option, none, some, arith, nat_key, u16, u32, Bytes, length,
  length-append,
}
use lalune_server.Queue.{enqueue}
use lalune_server.Terminal.Sequence.{next_seq_no, prev_seq_no, advance}
use lalune_server.Terminal.{
  PvpTerminal, PvpMessage, send_front, handle_queue, send_message, resend_interval,
  disconnect_timeout,
}
use lalune_server.Terminal.Resend.{
  Pulse, expired, alive, trigger_update, resend_messages, resend_loop, retransmit,
}

abbrev pub bodies : List PvpMessage → List Bytes
bodies = map (λ m. m.body)

-- All that the terminal still answers for: what was sent and not acknowledged, then what waits.
abbrev pub pending : PvpTerminal → List Bytes
pending t = bodies t.sent_message ++ bodies t.to_send_messages

-- What one round does when it takes a message.
record Took (t t' : PvpTerminal) (out : List PvpMessage) : Type 0 where
  took_pending : pending t' ≡ pending t
  took_seq_no : t'.seq_no ≡ next_seq_no t.seq_no
  took_bits : t'.remote_ack_bits ≡ u32 (t.remote_ack_bits * 2)
  took_room : bit_and t.remote_ack_bits 0x80000000 ≢ 0
  took_out : length out ≤ 1
  took_state : t'.state ≡ t.state

bodies-enqueue :
    (m : PvpMessage) (b : Bytes) (sent rest : List PvpMessage)
    → m.body ≡ b
    → bodies (sent ++ (m ∷ [])) ++ bodies rest ≡ bodies sent ++ (b ∷ bodies rest)
bodies-enqueue m b sent rest e = rw (map-append, append_assoc, e)

send_front-Took :
    (t t' : PvpTerminal) (went : Bool) (out : List PvpMessage)
    → send_front t ≡ some (went, t', out)
    → Took t t' out
unfolding send_front
send_front-Took t t' went out e = by_queue t.to_send_messages refl
  where
    by_queue : (q : List PvpMessage) → t.to_send_messages ≡ q → Took t t' out
    by_queue [] f = ground arith
    by_queue (m ∷ rest) f = record {
      took_pending = ground (
        arith,
        bodies-enqueue
            (record m {
              version = 1;
              ack_no = t.ack_no;
              ack_bits = t.ack_bits;
              seq_no = next_seq_no t.seq_no;
            })
            m.body t.sent_message rest refl,
      );
      took_seq_no = ground arith;
      took_bits = ground arith;
      took_room = ground arith;
      took_out = ground arith;
      took_state = ground arith;
    }

-- What `handleToSendQueue` did: `k` messages moved from the queue into the window.
pub record Drained (rounds : ℕ) (t t' : PvpTerminal) (out : List PvpMessage) (k : ℕ) : Type 0 where
  pub at_most : k ≤ rounds
  pub same_pending : pending t' ≡ pending t
  pub moved_on : t'.seq_no ≡ advance k t.seq_no
  pub no_more_out : length out ≤ k
  pub same_state : t'.state ≡ t.state

abbrev Drains : ℕ → PvpTerminal → PvpTerminal × List PvpMessage → Type 0
Drains rounds t r = (k : ℕ) × Drained rounds t r.0 r.1 k

stopped : (rounds : ℕ) (t : PvpTerminal) → Drained rounds t t [] 0
unfolding advance
stopped rounds t = ground arith

cut_short :
    (rounds : ℕ) (t t' : PvpTerminal) (out : List PvpMessage)
    → Took t t' out
    → Drained (suc rounds) t t' out 1
unfolding advance
cut_short rounds t t' out s = ground arith

go_on :
    (rounds k : ℕ) (t t' t₂ : PvpTerminal) (out rest : List PvpMessage)
    → Took t t' out
    → Drained rounds t' t₂ rest k
    → Drained (suc rounds) t t₂ (out ++ rest) (suc k)
unfolding advance
go_on rounds k t t' t₂ out rest s d = ground (arith, length-append out rest)

handle_queue-Drains : (rounds : ℕ) (t : PvpTerminal) → Drains rounds t (handle_queue rounds t)
unfolding handle_queue
handle_queue-Drains zero t = (0, stopped 0 t)
handle_queue-Drains (suc rounds) t = by_front (handle_queue-Drains rounds) (send_front t) refl
  where
    by_front :
        ((u : PvpTerminal)
          → (k : ℕ) × Drained rounds u (handle_queue rounds u).0 (handle_queue rounds u).1 k)
        → (r : Option (Bool × PvpTerminal × List PvpMessage)) → send_front t ≡ r
        → (k : ℕ) × Drained
            (suc rounds)
            t
            (handle_queue (suc rounds) t).0
            (handle_queue (suc rounds) t).1
            k
    by_front ih none e = rw (e, handle_queue) (0, stopped (suc rounds) t)
    by_front ih (some (false, t', out)) e =
        rw (e, handle_queue) (1, cut_short rounds t t' out (send_front-Took t t' false out e))
    by_front ih (some (true, t', out)) e =
        let (k, d) = ih t' in
        rw (e, handle_queue)
          (suc k, go_on rounds k t t' _ out _ (send_front-Took t t' true out e) d)

queued : PvpTerminal → PvpMessage → ℕ → PvpTerminal
queued t m proto = record t {
  to_send_messages = enqueue (record m { proto_id = proto }) t.to_send_messages;
}

queued-pending :
    (t : PvpTerminal) (m : PvpMessage) (proto : ℕ)
    → pending (queued t m proto) ≡ pending t ++ (m.body ∷ [])
unfolding queued enqueue
queued-pending t m proto =
    rw map-append
      (sym (append_assoc (bodies t.sent_message) (bodies t.to_send_messages) (m.body ∷ [])))

-- A send puts the message behind all that was pending and loses none; it uses up `k` sequence
-- numbers, at most four, and puts at most as many packets on the wire.
pub send_message_lem :
    (t : PvpTerminal) (m : PvpMessage) (proto : ℕ)
    → let r = send_message t m proto in
      (pending r.0 ≡ pending t ++ (m.body ∷ []))
      × (k : ℕ) × (k ≤ 4)
      × (r.0.seq_no ≡ advance k t.seq_no)
      × (length r.1 ≤ k)
unfolding queued
send_message_lem t m proto =
    let (k, d) = handle_queue-Drains 4 (queued t m proto) in
    unfold send_message in
    (d.same_pending ∙ queued-pending t m proto, k, d.at_most, d.moved_on, d.no_more_out)

retransmit-time :
    (number : ℕ) (t : PvpTerminal)
    → (retransmit number t).0.total_time_no_message ≡ t.total_time_no_message
unfolding retransmit
retransmit-time number t = ground arith

resend_loop-time :
    (rounds i bit_mask : ℕ) (t : PvpTerminal)
    → (resend_loop rounds i bit_mask t).0.total_time_no_message ≡ t.total_time_no_message
unfolding resend_loop
resend_loop-time zero i bit_mask t = refl
resend_loop-time (suc rounds) i bit_mask t = ground (
  arith,
  resend_loop-time rounds (i + 1) (bit_mask / 2) t,
  retransmit-time (prev_seq_no t.seq_no (u16 (65568 - i))) t,
)

resend_messages-time :
    (t : PvpTerminal) → (resend_messages t).0.total_time_no_message ≡ t.total_time_no_message
unfolding resend_messages
resend_messages-time t = ground (arith, resend_loop-time t.max_resent_bit 1 0x80000000 t)

-- The terminal after `n` pulses of its timer in which no packet came in.
pub quiet : ℕ → PvpTerminal → Pulse
quiet zero t = alive t []
quiet (suc n) t = elim (quiet n t) [ expired u ↦ expired u | alive u out ↦ trigger_update u ]

quiet_time :
    (n : ℕ) (t : PvpTerminal)
    → t.total_time_no_message ≡ 0
    → n ≤ 100
    → (u : PvpTerminal) × (out : List PvpMessage) × (quiet n t ≡ alive u out)
      × (u.total_time_no_message ≡ n * resend_interval)
unfolding quiet trigger_update
quiet_time zero t e h = (t, [], refl, omega arith)
quiet_time (suc n) t e h =
    let (u, out, q, s) = quiet_time n t e (omega arith) in
    let u' = record u { total_time_no_message = u.total_time_no_message + resend_interval } in
    (
      (resend_messages u').0,
      (resend_messages u').1,
      ground arith,
      omega (arith, resend_messages-time u'),
    )

quiet_last :
    (n : ℕ) (t u : PvpTerminal) (out : List PvpMessage)
    → quiet n t ≡ alive u out
    → disconnect_timeout < u.total_time_no_message + resend_interval
    → quiet (suc n) t
      ≡ expired (record u { total_time_no_message = u.total_time_no_message + resend_interval })
unfolding quiet trigger_update
quiet_last n t u out q h = ground arith

-- A terminal that has just heard from its player lives through 100 pulses, and goes with the next.
pub quiet-expires :
    (t : PvpTerminal)
    → t.total_time_no_message ≡ 0
    → (u v : PvpTerminal) × (out : List PvpMessage) × (quiet 100 t ≡ alive u out)
      × (quiet 101 t ≡ expired v)
quiet-expires t e =
    let (u, out, q, s) = quiet_time 100 t e (omega arith) in
    (u, _, out, q, quiet_last 100 t u out q (omega arith))
