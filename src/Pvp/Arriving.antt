-- ===== src/Pvp/Arriving.antt =====
-- What a terminal does with a message that comes in leaves its weak pointer to the game alone.
use mathlib.Core.Path.{subst}
use lalune_server.Base.{
  ℕ, zero, suc, ◌+◌, ◌≡◌, refl, Bool, true, false, [], Option, none, some, Bool-cases, if_cases,
  ◌&&◌, inl, inr, bit_and, ◌==◌, ltb, ◌^◌, if◌then◌else◌, nat_key, ◌-◌, u16,
}
use lalune_server.Base.Int.{ℤ, pos, negsuc}
use lalune_server.Terminal.{
  all_acked, proto_sync, PvpTerminal, PvpTerminalState, disconnected, connected, sync, PvpMessage,
  new_message, send_message,
}
use lalune_server.Terminal.Receive.{
  Received, undefined, ignored, answered, accepted, receive_message, acknowledge, acknowledge_bit,
  acknowledge_loop, acknowledge_from, update_remote, Arrival, duplicate, undefined_shift, fresh,
  arrive, note_arrival, connect_request, data_packet, dispatch,
}
use lalune_server.Terminal.Sequence.{diff_between}
use lalune_server.Pvp.Kept.{game-if, send_message-game}

-- The same where there may be no terminal.
abbrev Holds : Option ℕ → Option PvpTerminal → Type 0
Holds g none = Unit {0}
Holds g (some t) = t.game_server ≡ g

acknowledge-game :
    (i diff ack_no ack_bits : ℕ) (t : PvpTerminal)
    → Holds t.game_server (acknowledge i diff ack_no ack_bits t)
unfolding acknowledge acknowledge_bit
acknowledge-game i diff ack_no ack_bits t =
    if_cases (Holds t.game_server) (ltb i 32 && ltb (i + diff) 32)
      (some (acknowledge_bit i diff ack_no ack_bits t)) none
      (λ near. game-if _ _ t t.game_server refl refl) (λ far. tt)

acknowledge_loop-game :
    (n i diff ack_no ack_bits : ℕ) (t : PvpTerminal)
    → Holds t.game_server (acknowledge_loop n i diff ack_no ack_bits t)
unfolding acknowledge_loop
acknowledge_loop-game zero i diff ack_no ack_bits t = refl
acknowledge_loop-game (suc n) i diff ack_no ack_bits t =
    by_round (acknowledge i diff ack_no ack_bits t) (acknowledge-game i diff ack_no ack_bits t)
      (λ t'. acknowledge_loop-game n (i + 1) diff ack_no ack_bits t')
  where
    by_round :
        (o : Option PvpTerminal)
        → Holds t.game_server o
        → ((t' : PvpTerminal)
            → Holds t'.game_server (acknowledge_loop n (i + 1) diff ack_no ack_bits t'))
        → Holds t.game_server (elim o as (λ _. Option PvpTerminal) [
          | none ↦ none
          | some t' ↦ acknowledge_loop n (i + 1) diff ack_no ack_bits t'
        ])
    by_round none k ih = tt
    by_round (some t') k ih =
        subst (λ g. Holds g (acknowledge_loop n (i + 1) diff ack_no ack_bits t')) k (ih t')

update_remote-game :
    (ack_no ack_bits : ℕ) (t : PvpTerminal) → Holds t.game_server (update_remote ack_no ack_bits t)
unfolding update_remote acknowledge_from
update_remote-game ack_no ack_bits t = by_diff (diff_between t.seq_no ack_no)
  where
    by_diff : (d : ℤ) → Holds t.game_server (acknowledge_from d ack_no ack_bits t)
    by_diff (pos diff) = acknowledge_loop-game (32 - diff) 0 diff ack_no ack_bits t
    by_diff (negsuc n) = refl

abbrev Arrives : Option ℕ → Arrival → Type 0
Arrives g (fresh t) = t.game_server ≡ g
Arrives g _ = Unit {0}

arrive-Arrives : (d : ℤ) (n : ℕ) (t : PvpTerminal) → Arrives t.game_server (arrive d n t)
unfolding arrive
arrive-Arrives (pos shift) n t = elim (Bool-cases (shift == 0)) [
  | inl same ↦ rw same tt
  | inr other ↦
      rw other (elim (Bool-cases (ltb shift 32)) [ inl near ↦ rw near refl | inr far ↦ rw far tt ])
]
arrive-Arrives (negsuc k) n t = elim (Bool-cases (ltb (k + 1) 32)) [
  | inl near ↦ rw near (elim (Bool-cases (bit_and t.ack_bits (2 ^ (k + 1)) == 0)) [
    | inl new ↦ rw new refl
    | inr old ↦ rw old tt
  ])
  | inr far ↦ rw far tt
]

-- What a received message says of the pointer.
abbrev pub Stays : Option ℕ → Received → Type 0
Stays g undefined = Unit {0}
Stays g (ignored t) = t.game_server ≡ g
Stays g (answered t out) = t.game_server ≡ g
Stays g (accepted t) = t.game_server ≡ g

data_packet-Stays :
    (n ack_no ack_bits : ℕ) (t : PvpTerminal)
    → Stays t.game_server (data_packet n ack_no ack_bits t)
unfolding data_packet note_arrival
data_packet-Stays n ack_no ack_bits t =
    by_arrival (note_arrival n t) (arrive-Arrives (diff_between n t.ack_no) n t)
  where
    by_remote :
        (o : Option PvpTerminal)
        → Holds t.game_server o
        → Stays t.game_server
            (elim o as (λ _. Received) [ none ↦ undefined | some t'' ↦ accepted t'' ])
    by_remote none k = tt
    by_remote (some t'') k = k

    by_arrival :
        (a : Arrival)
        → Arrives t.game_server a
        → Stays t.game_server (elim a [
          | duplicate ↦ ignored t
          | undefined_shift ↦ undefined
          | fresh t' ↦ elim (update_remote ack_no ack_bits t') as (λ _. Received) [
            | none ↦ undefined
            | some t'' ↦ accepted t''
          ]
        ])
    by_arrival duplicate h = refl
    by_arrival undefined_shift h = tt
    by_arrival (fresh t') h = by_remote (update_remote ack_no ack_bits t') (
        subst (λ g. Holds g (update_remote ack_no ack_bits t')) h
          (update_remote-game ack_no ack_bits t'))

connect_request-Stays : (n : ℕ) (t : PvpTerminal) → Stays t.game_server (connect_request n t)
unfolding connect_request
connect_request-Stays n t = by_state t.state
  where
    fields : PvpTerminal
    fields = record t {
      ack_no = n;
      ack_bits = 1;
      remote_ack_bits = all_acked;
      max_resent_bit = 32;
      sent_message = [];
      state = sync;
    }

    by_state :
        (st : PvpTerminalState)
        → Stays t.game_server (elim st [
          | disconnected ↦
              let (t', out) = send_message fields (new_message []) proto_sync in answered t' out
          | _ ↦ ignored t
        ])
    by_state disconnected = send_message-game fields (new_message []) proto_sync
    by_state sync = refl
    by_state connected = refl

dispatch-Stays :
    (st : PvpTerminalState) (n ack_no ack_bits : ℕ) (t : PvpTerminal)
    → Stays t.game_server (dispatch st n ack_no ack_bits t)
unfolding dispatch
dispatch-Stays disconnected n ack_no ack_bits t = refl
dispatch-Stays sync n ack_no ack_bits t = data_packet-Stays n ack_no ack_bits _
dispatch-Stays connected n ack_no ack_bits t = data_packet-Stays n ack_no ack_bits t

pub receive_message-Stays :
    (t : PvpTerminal) (m : PvpMessage) → Stays t.game_server (receive_message t m)
unfolding receive_message
receive_message-Stays t m = by_proto (u16 m.proto_id == proto_sync)
  where
    reset : PvpTerminal
    reset = record t { total_time_no_message = 0 }

    by_proto :
        (b : Bool)
        → Stays t.game_server (
            if b
            then connect_request (u16 m.seq_no) reset
            else dispatch reset.state (u16 m.seq_no) (u16 m.ack_no) m.ack_bits reset)
    by_proto true = connect_request-Stays (u16 m.seq_no) reset
    by_proto false = dispatch-Stays reset.state (u16 m.seq_no) (u16 m.ack_no) m.ack_bits reset
