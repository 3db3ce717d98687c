-- ===== src/Pvp/Kept.antt =====
-- What a terminal does with messages leaves its weak pointer to the game alone.
use lalune_server.Base.{
  ℕ, zero, suc, ◌+◌, ◌≡◌, refl, Bool, true, false, List, [], ◌++◌, Option, none, some, Bool-cases,
  inl, inr, bit_and, ◌∙◌, ◌==◌, ltb, ◌/◌, if◌then◌else◌, nat_key,
}
use lalune_server.Queue.{dequeue}
use lalune_server.Terminal.{
  all_acked, resend_interval, disconnect_timeout, PvpTerminal, PvpMessage, send_message,
  direct_send, stamp, send_front, handle_queue, may_send,
}
use lalune_server.Terminal.Resend.{
  get_sent_message, put_sent_message, Pulse, expired, alive, trigger_update, retransmit,
  resend_loop, resend_messages,
}

-- Two ways that agree on the pointer.
pub game-if :
    (b : Bool) (x y : PvpTerminal) (g : Option ℕ)
    → x.game_server ≡ g
    → y.game_server ≡ g
    → (if b then x else y).game_server ≡ g
game-if true x y g p q = p
game-if false x y g p q = q

direct_send-game :
    (t : PvpTerminal) (m : PvpMessage) → (direct_send t m).1.game_server ≡ t.game_server
unfolding direct_send
direct_send-game t m = elim (Bool-cases (may_send t.state m.proto_id)) [
  | inl sent ↦ rw sent refl
  | inr held ↦ rw held refl
]

stamp-game : (t : PvpTerminal) (m : PvpMessage) → (stamp t m).0.game_server ≡ t.game_server
unfolding stamp
stamp-game t m = refl

-- What a round of the queue says of the pointer.
abbrev Keeps : Option ℕ → Option (Bool × PvpTerminal × List PvpMessage) → Type 0
Keeps g none = Unit {0}
Keeps g (some (went, t, out)) = t.game_server ≡ g

send_front-Keeps : (t : PvpTerminal) → Keeps t.game_server (send_front t)
unfolding send_front
send_front-Keeps t =
    by_front (dequeue t.to_send_messages).0 (bit_and t.remote_ack_bits 0x80000000 == 0)
  where
    rest : PvpTerminal
    rest = record t { to_send_messages = (dequeue t.to_send_messages).1 }

    by_front :
        (o : Option PvpMessage) (full : Bool)
        → Keeps t.game_server (elim o [
          | none ↦ none
          | some m ↦
              if full then none else (let (t', m') = stamp rest m in some (direct_send t' m'))
        ])
    by_front none full = tt
    by_front (some m) true = tt
    by_front (some m) false = direct_send-game (stamp rest m).0 (stamp rest m).1 ∙ stamp-game rest m

handle_queue-game : (n : ℕ) (t : PvpTerminal) → (handle_queue n t).0.game_server ≡ t.game_server
unfolding handle_queue
handle_queue-game zero t = refl
handle_queue-game (suc n) t = by_round (send_front t) (send_front-Keeps t) (handle_queue-game n)
  where
    by_round :
        (o : Option (Bool × PvpTerminal × List PvpMessage))
        → Keeps t.game_server o
        → ((t' : PvpTerminal) → (handle_queue n t').0.game_server ≡ t'.game_server)
        → (elim o as (λ _. PvpTerminal × List PvpMessage) [
          | none ↦ (t, [])
          | some (went, t', out) ↦ elim went as (λ _. PvpTerminal × List PvpMessage) [
            | true ↦ let (t₂, rest) = handle_queue n t' in (t₂, out ++ rest)
            | false ↦ (t', out)
          ]
        ]).0.game_server
          ≡ t.game_server
    by_round none k ih = refl
    by_round (some (true, t', out)) k ih = ih t' ∙ k
    by_round (some (false, t', out)) k ih = k

pub send_message-game :
    (t : PvpTerminal) (m : PvpMessage) (proto : ℕ)
    → (send_message t m proto).0.game_server ≡ t.game_server
unfolding send_message
send_message-game t m proto = handle_queue-game 4 _

retransmit-game : (n : ℕ) (t : PvpTerminal) → (retransmit n t).0.game_server ≡ t.game_server
unfolding retransmit
retransmit-game n t = by_found (get_sent_message n t.sent_message)
  where
    again : PvpMessage → PvpMessage
    again m = record m { ack_no = t.ack_no; ack_bits = t.ack_bits }

    kept : PvpMessage → PvpTerminal
    kept m = record t { sent_message = put_sent_message n (again m) t.sent_message }

    by_found :
        (o : Option PvpMessage)
        → (elim o as (λ _. PvpTerminal × List PvpMessage) [
          | none ↦ (t, [])
          | some m ↦ let (went, t', out) = direct_send (kept m) (again m) in (t', out)
        ]).0.game_server
          ≡ t.game_server
    by_found none = refl
    by_found (some m) = direct_send-game (kept m) (again m)

resend_loop-game :
    (n i mask : ℕ) (t : PvpTerminal) → (resend_loop n i mask t).0.game_server ≡ t.game_server
unfolding resend_loop
resend_loop-game zero i mask t = refl
resend_loop-game (suc n) i mask t = elim (Bool-cases (bit_and t.remote_ack_bits mask == 0)) [
  | inl lost ↦ rw lost (retransmit-game _ t)
  | inr there ↦ rw there (resend_loop-game n (i + 1) (mask / 2) t)
]

resend_messages-game : (t : PvpTerminal) → (resend_messages t).0.game_server ≡ t.game_server
unfolding resend_messages
resend_messages-game t = elim (Bool-cases (t.remote_ack_bits == all_acked)) [
  | inl all ↦ rw all refl
  | inr some_lost ↦ rw some_lost (resend_loop-game t.max_resent_bit 1 0x80000000 t)
]

-- What a tick says of the pointer.
abbrev pub Ticks : Option ℕ → Pulse → Type 0
Ticks g (expired t) = t.game_server ≡ g
Ticks g (alive t out) = t.game_server ≡ g

pub trigger_update-Ticks : (t : PvpTerminal) → Ticks t.game_server (trigger_update t)
unfolding trigger_update
trigger_update-Ticks t =
    elim (Bool-cases (ltb disconnect_timeout (t.total_time_no_message + resend_interval))) [
      | inl late ↦ rw late refl
      | inr soon ↦ rw soon (resend_messages-game _)
    ]
