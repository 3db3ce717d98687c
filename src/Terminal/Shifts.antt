-- ===== src/Terminal/Shifts.antt =====
-- Where `receiveMessage` leaves what C++ defines.
use lalune_server.Base.{
  ℕ, zero, suc, ◌+◌, ◌-◌, if_cases, ltb, ◌&&◌, Option, none, some, ◌≤◌, ◌≡◌, refl, inl, inr, ◌↔◌,
  arith, ◌==◌, nat_key, nat_beq_iff, u16, Bool-cases, ◌≢◌,
}
use lalune_server.Base.Int.{ℤ, pos, negsuc}
use lalune_server.Terminal.Sequence.{diff_between}
use lalune_server.Terminal.{
  PvpTerminal, PvpTerminalState, disconnected, connected, sync, PvpMessage, proto_sync,
}
use lalune_server.Terminal.Receive.{
  undefined_shift, note_arrival, arrive, undefined, receive_message, data_packet, dispatch,
  connect_request, acknowledge, acknowledge_bit, acknowledge_loop, acknowledge_from, update_remote,
  Arrival, duplicate, fresh, Received, ignored, accepted,
}

-- At least 32 steps.
abbrev pub IsFar : ℤ → Type 0
IsFar (pos n) = 32 ≤ n
IsFar (negsuc n) = 32 ≤ n + 1

connect_request-ne-undefined : (seq_no : ℕ) (t : PvpTerminal) → connect_request seq_no t ≢ undefined
unfolding connect_request
connect_request-ne-undefined seq_no t e = ground arith

arrive-undefined_iff :
    (d : ℤ) (seq_no : ℕ) (t : PvpTerminal) → (arrive d seq_no t ≡ undefined_shift) ↔ IsFar d
unfolding arrive
arrive-undefined_iff (pos n) seq_no t = ground arith
arrive-undefined_iff (negsuc n) seq_no t = ground arith

-- While the rounds that are left, the round and the distance are together at most 32, every shift
-- of the loop over the acknowledgement bits is below 32.
acknowledge_loop-ne-none :
    (rounds i diff ack_no ack_bits : ℕ) (t : PvpTerminal)
    → rounds + (i + diff) ≤ 32
    → acknowledge_loop rounds i diff ack_no ack_bits t ≢ none
unfolding acknowledge_loop acknowledge
acknowledge_loop-ne-none zero i diff ack_no ack_bits t h = λ e. ground arith
acknowledge_loop-ne-none (suc rounds) i diff ack_no ack_bits t h =
    let next = acknowledge_bit i diff ack_no ack_bits t in
    if_cases
      (λ o.
        (elim o as (λ _. Option PvpTerminal) [
          | none ↦ none
          | some t' ↦ acknowledge_loop rounds (i + 1) diff ack_no ack_bits t'
        ])
        ≢ none)
      (ltb i 32 && ltb (i + diff) 32) (some next) none
      (λ near. acknowledge_loop-ne-none rounds (i + 1) diff ack_no ack_bits next (omega arith))
      (λ far. absurd (ground arith))

acknowledge_from-ne-none :
    (d : ℤ) (ack_no ack_bits : ℕ) (t : PvpTerminal) → acknowledge_from d ack_no ack_bits t ≢ none
unfolding acknowledge_from
acknowledge_from-ne-none (negsuc n) ack_no ack_bits t = λ e. ground arith
acknowledge_from-ne-none (pos n) ack_no ack_bits t = by_rounds (32 - n) refl
  where
    by_rounds :
        (rounds : ℕ) → 32 - n ≡ rounds → acknowledge_loop rounds 0 n ack_no ack_bits t ≢ none
    by_rounds zero e = unfold acknowledge_loop in (λ q. ground arith)
    by_rounds (suc rounds) e =
        acknowledge_loop-ne-none (suc rounds) 0 n ack_no ack_bits t (omega arith)

data_packet-undefined_iff :
    (seq_no ack_no ack_bits : ℕ) (t : PvpTerminal)
    → (data_packet seq_no ack_no ack_bits t ≡ undefined) ↔ IsFar (diff_between seq_no t.ack_no)
unfolding data_packet note_arrival update_remote
data_packet-undefined_iff seq_no ack_no ack_bits t =
    let far = arrive-undefined_iff (diff_between seq_no t.ack_no) seq_no t in
    by_arrival (arrive (diff_between seq_no t.ack_no) seq_no t) far
  where
    by_arrival :
        (r : Arrival)
        → (r ≡ undefined_shift) ↔ IsFar (diff_between seq_no t.ack_no)
        → ((elim r as (λ _. Received) [
          | duplicate ↦ ignored t
          | undefined_shift ↦ undefined
          | fresh t' ↦
              elim (acknowledge_from (diff_between t'.seq_no ack_no) ack_no ack_bits t')
                as (λ _. Received) [ none ↦ undefined | some t'' ↦ accepted t'' ]
        ])
            ≡ undefined)
          ↔ IsFar (diff_between seq_no t.ack_no)
    by_arrival duplicate far = ground (arith, far)
    by_arrival undefined_shift far = ground (arith, far)
    by_arrival (fresh t') far =
        ground
          (arith, far, acknowledge_from-ne-none (diff_between t'.seq_no ack_no) ack_no ack_bits t')

dispatch-undefined_iff :
    (st : PvpTerminalState) (seq_no ack_no ack_bits : ℕ) (t : PvpTerminal)
    → (dispatch st seq_no ack_no ack_bits t ≡ undefined)
      ↔ ((st ≢ disconnected) × IsFar (diff_between seq_no t.ack_no))
unfolding dispatch
dispatch-undefined_iff disconnected seq_no ack_no ack_bits t = (λ e. cc, λ h. absurd (h.0 refl))
dispatch-undefined_iff sync seq_no ack_no ack_bits t =
    let both = data_packet-undefined_iff seq_no ack_no ack_bits (record t { state = connected }) in
    (λ e. (λ q. cc, both.0 e), λ h. both.1 h.1)
dispatch-undefined_iff connected seq_no ack_no ack_bits t =
    let both = data_packet-undefined_iff seq_no ack_no ack_bits t in
    (λ e. (λ q. cc, both.0 e), λ h. both.1 h.1)

-- A packet makes the program shift by 32 or more, which is undefined, exactly when it is no connect
-- request, the terminal is not disconnected, and the packet's number is 32 or more away from the
-- newest number that the terminal has received.
pub receive_message-undefined_iff :
    (t : PvpTerminal) (m : PvpMessage)
    → (receive_message t m ≡ undefined) ↔ (
        (u16 m.proto_id ≢ proto_sync)
        × (t.state ≢ disconnected)
        × IsFar (diff_between (u16 m.seq_no) t.ack_no))
unfolding receive_message
receive_message-undefined_iff t m =
    let quiet = record t { total_time_no_message = 0 } in
    let both = dispatch-undefined_iff t.state (u16 m.seq_no) (u16 m.ack_no) m.ack_bits quiet in
    elim (Bool-cases (u16 m.proto_id == proto_sync)) [
      | inl is_sync ↦ (
        λ e. absurd (connect_request-ne-undefined (u16 m.seq_no) quiet (rw is_sync at e)),
        λ h. absurd (h.0 ((nat_beq_iff _ _).0 is_sync)),
      )
      | inr plain ↦ (
        λ e. (λ q. ground arith, (both.0 (rw plain at e)).0, (both.0 (rw plain at e)).1),
        λ h. rw plain (both.1 (h.1, h.2)),
      )
    ]
