-- ===== src/Terminal/Acks.antt =====
-- What `receiveMessage` records of the packets that came in.
use lalune_server.Base.{
  ℕ, zero, suc, ◌+◌, ◌-◌, ◌*◌, ◌^◌, ◌<◌, ◌&&◌, ◌∙◌, Option, none, some, if_cases, bit_and, bit_or,
  ◌≡◌, refl, ◌⊎◌, inl, inr, arith, if◌then◌else◌, ltb, ◌==◌, nat_key, u16, u32, ◌≢◌, ap,
}
use lalune_server.Base.Bits.{
  bit, bit-bit_or, bit-bit_and, bit-shift, bit-mod_pow, bit-two_pow, bit-zero, bit-le-one,
}
use lalune_server.Base.Int.{ℤ, pos, negsuc}
use lalune_server.Terminal.Sequence.{diff_between}
use lalune_server.Terminal.{
  PvpTerminal, PvpTerminalState, disconnected, connected, sync, PvpMessage,
}
use lalune_server.Terminal.Receive.{
  acknowledge, acknowledge_bit, acknowledge_loop, update_remote, Arrival, duplicate,
  undefined_shift, fresh, note_arrival, arrive, acknowledge_from, ignored, accepted,
  receive_message, data_packet, dispatch, connect_request,
}

-- The record that a number at distance `d` from the last one leaves: bit `j` stands for the number
-- `j` before the newest.
abbrev pub recorded : ℤ → ℕ → ℕ → ℕ
recorded (pos n) bits j = if j == 0 then 1 else (if ltb j n then 0 else bit bits (j - n))
recorded (negsuc n) bits j = if j == n + 1 then 1 else bit bits j

bit-one : (j : ℕ) → bit 1 j ≡ (if j == 0 then 1 else 0)
bit-one j = ground (arith, bit-two_pow 0 j)

newer_bits :
    (bits n j : ℕ)
    → j < 32
    → bit (bit_or (u32 (bits * 2 ^ suc n)) 1) j ≡ recorded (pos (suc n)) bits j
newer_bits bits n j h =
    rw (bit-bit_or, bit-one, bit-mod_pow (bits * 2 ^ suc n) 32 j, bit-shift) (ground arith)

older_bits : (bits n j : ℕ) → bit (bit_or bits (2 ^ (n + 1))) j ≡ recorded (negsuc n) bits j
older_bits bits n j = rw (bit-bit_or, bit-two_pow) (ground (arith, bit-le-one bits j))

arrive-recorded :
    (d : ℤ) (seq_no j : ℕ) (t t' : PvpTerminal)
    → arrive d seq_no t ≡ fresh t'
    → j < 32
    → bit t'.ack_bits j ≡ recorded d t.ack_bits j
unfolding arrive
arrive-recorded (pos zero) seq_no j t t' e h = cc
arrive-recorded (pos (suc n)) seq_no j t t' e h = ground (arith, newer_bits t.ack_bits n j h)
arrive-recorded (negsuc n) seq_no j t t' e h = ground (arith, older_bits t.ack_bits n j)

-- The newest number after a fresh one at distance `d` came in.
abbrev pub newest : ℤ → ℕ → ℕ → ℕ
newest (pos n) seq_no ack_no = seq_no
newest (negsuc n) seq_no ack_no = ack_no

arrive-newest :
    (d : ℤ) (seq_no : ℕ) (t t' : PvpTerminal)
    → arrive d seq_no t ≡ fresh t'
    → t'.ack_no ≡ newest d seq_no t.ack_no
unfolding arrive
arrive-newest (pos n) seq_no t t' e = ground arith
arrive-newest (negsuc n) seq_no t t' e = ground arith

-- A fresh number that is newer than the last one becomes the newest, bit 0 of the record stands for
-- it, the bits there move up by the distance, and those between are 0. A fresh number that is older
-- sets the bit at its distance, and leaves the newest number and the other bits as they are.
pub note_arrival-recorded :
    (seq_no j : ℕ) (t t' : PvpTerminal)
    → note_arrival seq_no t ≡ fresh t'
    → j < 32
    → (t'.ack_no ≡ newest (diff_between seq_no t.ack_no) seq_no t.ack_no)
      × (bit t'.ack_bits j ≡ recorded (diff_between seq_no t.ack_no) t.ack_bits j)
unfolding note_arrival
note_arrival-recorded seq_no j t t' e h =
    (arrive-newest _ seq_no t t' e, arrive-recorded _ seq_no j t t' e h)

diff_self : (a : ℕ) → diff_between a a ≡ pos 0
unfolding diff_between
diff_self a = ground arith

-- The loop over acknowledgement bits keeps what was received.
abbrev Keeps : PvpTerminal → Option PvpTerminal → Type 0
Keeps t none = Unit {0}
Keeps t (some t') = (t'.ack_no ≡ t.ack_no) × (t'.ack_bits ≡ t.ack_bits) × (t'.state ≡ t.state)

acknowledge-Keeps :
    (i diff ack_no ack_bits : ℕ) (t : PvpTerminal) → Keeps t (acknowledge i diff ack_no ack_bits t)
unfolding acknowledge acknowledge_bit
acknowledge-Keeps i diff ack_no ack_bits t =
    if_cases (Keeps t) (ltb i 32 && ltb (i + diff) 32)
      (some (acknowledge_bit i diff ack_no ack_bits t)) none (λ near. ground arith) (λ far. tt)

acknowledge_loop-Keeps :
    (rounds i diff ack_no ack_bits : ℕ) (t : PvpTerminal)
    → Keeps t (acknowledge_loop rounds i diff ack_no ack_bits t)
unfolding acknowledge_loop
acknowledge_loop-Keeps zero i diff ack_no ack_bits t = (refl, refl, refl)
acknowledge_loop-Keeps (suc rounds) i diff ack_no ack_bits t =
    by_round (acknowledge i diff ack_no ack_bits t) (acknowledge-Keeps i diff ack_no ack_bits t)
      (λ t'. acknowledge_loop-Keeps rounds (i + 1) diff ack_no ack_bits t')
  where
    by_rest :
        (t' : PvpTerminal) (o : Option PvpTerminal) → Keeps t (some t') → Keeps t' o → Keeps t o
    by_rest t' none k h = tt
    by_rest t' (some t'') k h = (h.0 ∙ k.0, h.1 ∙ k.1, h.2 ∙ k.2)

    by_round :
        (o : Option PvpTerminal)
        → Keeps t o
        → ((t' : PvpTerminal) → Keeps t' (acknowledge_loop rounds (i + 1) diff ack_no ack_bits t'))
        → Keeps t (elim o as (λ _. Option PvpTerminal) [
          | none ↦ none
          | some t' ↦ acknowledge_loop rounds (i + 1) diff ack_no ack_bits t'
        ])
    by_round none k ih = tt
    by_round (some t') k ih = by_rest t' _ k (ih t')

update_remote-Keeps :
    (ack_no ack_bits : ℕ) (t : PvpTerminal) → Keeps t (update_remote ack_no ack_bits t)
unfolding update_remote
update_remote-Keeps ack_no ack_bits t = by_distance (diff_between t.seq_no ack_no)
  where
    by_distance : (d : ℤ) → Keeps t (acknowledge_from d ack_no ack_bits t)
    by_distance (pos n) =
        unfold acknowledge_from in acknowledge_loop-Keeps (32 - n) 0 n ack_no ack_bits t
    by_distance (negsuc n) = unfold acknowledge_from in (refl, refl, refl)

bit_and-self_ne : (a n : ℕ) → bit_and (bit_or a (2 ^ n)) (2 ^ n) ≢ 0
bit_and-self_ne a n e = absurd (
    omega (
      arith,
      ap (λ x. bit x n) e,
      bit-zero n,
      bit-bit_and (bit_or a (2 ^ n)) (2 ^ n) n,
      bit-bit_or a (2 ^ n) n,
      two_pow_self n,
      bit-le-one a n,
    ))
  where
    two_pow_self : (k : ℕ) → bit (2 ^ k) k ≡ 1
    two_pow_self k = ground (arith, bit-two_pow k k)

arrive-again :
    (d : ℤ) (seq_no : ℕ) (t t' u : PvpTerminal)
    → arrive d seq_no t ≡ fresh t'
    → u.ack_bits ≡ t'.ack_bits
    → (t'.ack_no ≡ seq_no) ⊎ ((t'.ack_no ≡ t.ack_no) × (arrive d seq_no u ≡ duplicate))
unfolding arrive
arrive-again (pos n) seq_no t t' u e b = ground arith
arrive-again (negsuc n) seq_no t t' u e b = ground (arith, bit_and-self_ne t.ack_bits (n + 1))

-- A packet that was accepted is a duplicate when it comes again.
note_arrival-again :
    (seq_no : ℕ) (t t' u : PvpTerminal)
    → note_arrival seq_no t ≡ fresh t'
    → u.ack_no ≡ t'.ack_no
    → u.ack_bits ≡ t'.ack_bits
    → note_arrival seq_no u ≡ duplicate
unfolding note_arrival
note_arrival-again seq_no t t' u e a b =
    elim (arrive-again (diff_between seq_no t.ack_no) seq_no t t' u e b) [
      | inl newest ↦ unfold arrive in ground (arith, diff_self seq_no)
      | inr (same, dup) ↦ cc
    ]

arrive-state :
    (d : ℤ) (seq_no : ℕ) (t t' : PvpTerminal) → arrive d seq_no t ≡ fresh t' → t'.state ≡ t.state
unfolding arrive
arrive-state (pos n) seq_no t t' e = ground arith
arrive-state (negsuc n) seq_no t t' e = ground arith

data_packet-again :
    (seq_no ack_no ack_bits : ℕ) (t t' u : PvpTerminal)
    → data_packet seq_no ack_no ack_bits t ≡ accepted t'
    → u.ack_no ≡ t'.ack_no
    → u.ack_bits ≡ t'.ack_bits
    → (t'.state ≡ t.state) × (data_packet seq_no ack_no ack_bits u ≡ ignored u)
data_packet-again seq_no ack_no ack_bits t t' u e a b = by_arrival (note_arrival seq_no t) refl
  where
    by_remote :
        (v : PvpTerminal) (o : Option PvpTerminal)
        → update_remote ack_no ack_bits v ≡ o
        → Keeps v o
        → v.state ≡ t.state
        → (u.ack_no ≡ v.ack_no → u.ack_bits ≡ v.ack_bits → note_arrival seq_no u ≡ duplicate)
        → note_arrival seq_no t ≡ fresh v
        → (t'.state ≡ t.state) × (data_packet seq_no ack_no ack_bits u ≡ ignored u)
    by_remote v none r k st same q = unfold data_packet in ground arith
    by_remote v (some w) r k st same q = unfold data_packet in ground arith

    by_arrival :
        (r : Arrival)
        → note_arrival seq_no t ≡ r
        → (t'.state ≡ t.state) × (data_packet seq_no ack_no ack_bits u ≡ ignored u)
    by_arrival duplicate q = unfold data_packet in ground arith
    by_arrival undefined_shift q = unfold data_packet in ground arith
    by_arrival (fresh v) q =
        by_remote v (update_remote ack_no ack_bits v) refl (update_remote-Keeps ack_no ack_bits v)
          (arrive-state (diff_between seq_no t.ack_no) seq_no t v (unfold note_arrival in q))
          (λ p p'. note_arrival-again seq_no t v u q p p') q

dispatch-again :
    (st : PvpTerminalState) (seq_no ack_no ack_bits : ℕ) (t t' u : PvpTerminal)
    → st ≡ t.state
    → dispatch st seq_no ack_no ack_bits t ≡ accepted t'
    → u.ack_no ≡ t'.ack_no
    → u.ack_bits ≡ t'.ack_bits
    → (t'.state ≡ connected) × (dispatch connected seq_no ack_no ack_bits u ≡ ignored u)
unfolding dispatch
dispatch-again disconnected seq_no ack_no ack_bits t t' u s e a b = cc
dispatch-again sync seq_no ack_no ack_bits t t' u s e a b =
    data_packet-again seq_no ack_no ack_bits (record t { state = connected }) t' u e a b
dispatch-again connected seq_no ack_no ack_bits t t' u s e a b =
    ground (arith, data_packet-again seq_no ack_no ack_bits t t' u e a b)

connect_request-ne-accepted :
    (seq_no : ℕ) (t t' : PvpTerminal) → connect_request seq_no t ≢ accepted t'
unfolding connect_request
connect_request-ne-accepted seq_no t t' e = ground arith

-- Whatever packet was accepted, its copy is ignored, so that no message is handled twice in a row.
pub receive_message-again :
    (t t' : PvpTerminal) (m : PvpMessage)
    → receive_message t m ≡ accepted t'
    → receive_message t' m ≡ ignored (record t' { total_time_no_message = 0 })
unfolding receive_message
receive_message-again t t' m e = ground (
  arith,
  connect_request-ne-accepted (u16 m.seq_no) (record t { total_time_no_message = 0 }) t',
  dispatch-again t.state (u16 m.seq_no) (u16 m.ack_no) m.ack_bits
      (record t { total_time_no_message = 0 }) t' (record t' { total_time_no_message = 0 }) refl,
)
