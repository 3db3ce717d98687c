-- ===== src/Base/Bits.antt =====
-- Bits of a number, and what `|`, `&` and `<<` do to them.
use Prim.Native.Nat.{
  ℕ, zero, suc, ◌+◌, ◌-◌, ◌*◌, ◌/◌, ◌%◌, ◌^◌, ◌≤◌, ◌<◌, min, max, bit_and, bit_or, digits, bitwise,
  bit_and-bitwise, bit_or-bitwise,
}
use mathlib.Core.Path.{◌≡◌, refl, ap}
use native.Mathlib.Omega.{arith}
use native.Mathlib.Nat.{
  le_refl, pow-suc, one-le-pow, mod-one, mod-lt, mod-eq_of_lt, div-add-mod', add-mul-mod_self_right,
}
use lalune_server.Base.Tests.{ltb, nat_beq, if◌then◌else◌}

-- The bit of `a` at place `i`.
unfoldable pub bit : ℕ → ℕ → ℕ
bit a zero = a % 2
bit a (suc i) = bit (a / 2) i

pub bit-le-one : (a i : ℕ) → bit a i ≤ 1
unfolding bit
bit-le-one a zero = omega arith
bit-le-one a (suc i) = bit-le-one (a / 2) i

pub bit-zero : (i : ℕ) → bit 0 i ≡ 0
unfolding bit
bit-zero zero = refl
bit-zero (suc i) = bit-zero i

-- The native operations recur on as many rounds as the first number says: the count is dropped.
module _ (z : ℕ → ℕ) (f : ℕ → ℕ → ℕ) where
  rounds_enough : (n m a b : ℕ) → a ≤ n → a ≤ m → digits z f n a b ≡ digits z f m a b
  rounds_enough zero zero a b p q = refl
  rounds_enough zero (suc m) zero b p q = refl
  rounds_enough (suc n) zero zero b p q = refl
  rounds_enough (suc n) (suc m) zero b p q = refl
  rounds_enough (suc n) (suc m) (suc a) b p q =
      rw (rounds_enough n m (suc a / 2) (b / 2) (omega arith) (omega arith))
  rounds_enough _ _ _ b p q = absurd (omega arith)

  bitwise_low :
      (a b : ℕ)
      → bitwise z f (suc a) b ≡ bitwise z f (suc a / 2) (b / 2) * 2 + f (suc a % 2) (b % 2)
  bitwise_low a b =
      omega (arith, rounds_enough a (suc a / 2) (suc a / 2) (b / 2) (omega arith) (le_refl _))

bit_or_low : (a b : ℕ) → bit_or a b ≡ bit_or (a / 2) (b / 2) * 2 + max (a % 2) (b % 2)
bit_or_low zero b = simp bit_or-bitwise (omega arith)
bit_or_low (suc a) b = simp bit_or-bitwise (bitwise_low (λ y. y) max a b)

bit_and_low : (a b : ℕ) → bit_and a b ≡ bit_and (a / 2) (b / 2) * 2 + min (a % 2) (b % 2)
bit_and_low zero b = simp bit_and-bitwise (omega arith)
bit_and_low (suc a) b = simp bit_and-bitwise (bitwise_low (λ y. 0) min a b)

half_or : (a b : ℕ) → bit_or a b / 2 ≡ bit_or (a / 2) (b / 2)
half_or a b = omega (arith, bit_or_low a b)

half_and : (a b : ℕ) → bit_and a b / 2 ≡ bit_and (a / 2) (b / 2)
half_and a b = omega (arith, bit_and_low a b)

pub bit-bit_or : (a b i : ℕ) → bit (bit_or a b) i ≡ max (bit a i) (bit b i)
unfolding bit
bit-bit_or a b zero = omega (arith, bit_or_low a b)
bit-bit_or a b (suc i) = rw half_or (bit-bit_or (a / 2) (b / 2) i)

pub bit-bit_and : (a b i : ℕ) → bit (bit_and a b) i ≡ min (bit a i) (bit b i)
unfolding bit
bit-bit_and a b zero = omega (arith, bit_and_low a b)
bit-bit_and a b (suc i) = rw half_and (bit-bit_and (a / 2) (b / 2) i)

half-double : (a p : ℕ) → a * (p * 2) / 2 ≡ a * p
half-double a p = grind arith

even-double : (a p : ℕ) → a * (p * 2) % 2 ≡ 0
even-double a p = grind arith

-- `a << n`, before it is cut to a width.
pub bit-shift : (a n i : ℕ) → bit (a * 2 ^ n) i ≡ (if ltb i n then 0 else bit a (i - n))
unfolding bit
bit-shift a zero i = ground arith
bit-shift a (suc n) zero = rw pow-suc (ground (arith, even-double a (2 ^ n)))
bit-shift a (suc n) (suc i) = rw (pow-suc, half-double) (ground (arith, bit-shift a n i))

mod-double : (a p : ℕ) → 0 < p → a % (p * 2) ≡ a / 2 % p * 2 + a % 2
mod-double a p h = omega (
  arith,
  ap (λ (t : ℕ). t % (p * 2)) split,
  add-mul-mod_self_right low (a / 2 / p) (p * 2),
  mod-eq_of_lt fits,
)
  where
    low : ℕ
    low = a / 2 % p * 2 + a % 2

    split : a ≡ low + a / 2 / p * (p * 2)
    split = omega (arith, div-add-mod' (a / 2) p)

    fits : low < p * 2
    fits = omega (arith, mod-lt (a / 2) h)

half-mod : (a p : ℕ) → 0 < p → a % (p * 2) / 2 ≡ a / 2 % p
half-mod a p h = omega (arith, mod-double a p h)

low-mod : (a p : ℕ) → 0 < p → a % (p * 2) % 2 ≡ a % 2
low-mod a p h = omega (arith, mod-double a p h)

-- A cut to `w` bits.
pub bit-mod_pow : (a w i : ℕ) → bit (a % 2 ^ w) i ≡ (if ltb i w then bit a i else 0)
unfolding bit
bit-mod_pow a zero i = ground (arith, bit-zero i, mod-one a)
bit-mod_pow a (suc w) zero =
    rw pow-suc (ground (arith, low-mod a (2 ^ w) (one-le-pow w 2 (omega arith))))
bit-mod_pow a (suc w) (suc i) = rw pow-suc (
    rw (half-mod a (2 ^ w) (one-le-pow w 2 (omega arith)))
      (ground (arith, bit-mod_pow (a / 2) w i)))

half-pow : (n : ℕ) → 2 ^ n * 2 / 2 ≡ 2 ^ n
half-pow n = omega arith

pub bit-two_pow : (n i : ℕ) → bit (2 ^ n) i ≡ (if nat_beq n i then 1 else 0)
unfolding bit
bit-two_pow zero zero = refl
bit-two_pow zero (suc i) = ground (arith, bit-zero i)
bit-two_pow (suc n) zero = rw pow-suc (ground arith)
bit-two_pow (suc n) (suc i) = rw pow-suc (rw (half-pow n) (ground (arith, bit-two_pow n i)))
