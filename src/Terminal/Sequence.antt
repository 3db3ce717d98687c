-- ===== src/Terminal/Sequence.antt =====
-- BoidsPvpServer/BoidsPvpServer/Terminal/PvpTerminal.cpp: the arithmetic of sequence numbers.
-- They run from 1 to 0xffff and then from 1 again; `unsigned short` arithmetic is done in `int`.
use lalune_server.Base.{
  ℕ, ◌+◌, ◌-◌, zero, suc, ◌≡◌, ◌≤◌, ◌<◌, ◌%◌, arith, if◌then◌else◌, ltb, u16, ◌==◌, nat_key,
}
use lalune_server.Base.Int.{ℤ, pos, negsuc, sub_ℕ}

half_turn : ℤ → ℤ
half_turn (pos n) = if ltb 0x8000 n then sub_ℕ n 0x10000 else pos n
half_turn (negsuc n) = if ltb 0x8000 (n + 1) then sub_ℕ 0x10000 (n + 1) else negsuc n

unfoldable pub diff_between : ℕ → ℕ → ℤ
unfolding half_turn
diff_between seq_one seq_two = half_turn (sub_ℕ seq_one seq_two)

unfoldable pub next_seq_no : ℕ → ℕ
next_seq_no seq_no = if seq_no == 0xffff then 1 else seq_no + 1

unfoldable pub prev_seq_no : ℕ → ℕ → ℕ
prev_seq_no seq_no bias = if ltb bias seq_no then seq_no - bias else u16 (seq_no + 0xffff - bias)

-- `n` numbers later.
unfoldable pub advance : ℕ → ℕ → ℕ
advance zero s = s
advance (suc n) s = advance n (next_seq_no s)

-- `n` numbers later, in closed form.
advance_lem : (n s : ℕ) → 1 ≤ s → s ≤ 0xffff → advance n s ≡ (s + n - 1) % 0xffff + 1
unfolding advance next_seq_no
advance_lem zero s lo hi = omega arith
advance_lem (suc n) s lo hi = ground (arith, advance_lem n 1, advance_lem n (s + 1))

-- From a number from 1 to 0xffff, `prevSeqNo` steps back over any number of sends below a whole
-- turn.
pub prev_seq_no-advance :
    (n s : ℕ) → 1 ≤ s → s ≤ 0xffff → n < 0xffff → prev_seq_no (advance n s) n ≡ s
unfolding prev_seq_no
prev_seq_no-advance n s lo hi h = ground (arith, advance_lem n s lo hi)

-- The distance from a number to the next one is 1, but 2 where the count starts anew.
pub diff_between-next :
    (s : ℕ) → s ≤ 0xffff → diff_between (next_seq_no s) s ≡ (if s == 0xffff then pos 2 else pos 1)
unfolding diff_between next_seq_no
diff_between-next s h = ground arith

-- The distance is that of the numbers taken modulo 2 ^ 16, and lies within half a turn.
pub diff_between_bounds :
    (a b n : ℕ)
    → a ≤ 0xffff
    → b ≤ 0xffff
    → (diff_between a b ≡ pos n → (n ≤ 0x8000) × (u16 (b + n) ≡ a))
      × (diff_between a b ≡ negsuc n → (n < 0x8000) × (u16 (a + n + 1) ≡ b))
unfolding diff_between
diff_between_bounds a b n ha hb = ground arith
