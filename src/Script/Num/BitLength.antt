-- ===== src/Script/Num/BitLength.antt =====
-- Python's `int.bit_length`.
use bitcoinlib.Common.{
  ℕ, zero, suc, ◌/◌, ◌^◌, ◌≤◌, ◌<◌, arith, ◌==◌, if◌then◌else◌, Bool-cases, inl, inr,
}
use native.Mathlib.Nat.{pow-suc}

-- Each halving drops one bit; a number is fuel enough for its own bits.
bits_within : ℕ → ℕ → ℕ
bits_within zero n = 0
bits_within (suc fuel) n = let more = suc (bits_within fuel (n / 2)) in if n == 0 then 0 else more

unfoldable pub bit_length : ℕ → ℕ
unfolding bits_within
bit_length n = bits_within n n

bits_within-bound : (fuel n : ℕ) → n ≤ fuel → n < 2 ^ bits_within fuel n
unfolding bits_within
bits_within-bound zero zero h = omega arith
bits_within-bound zero (suc n) h = absurd (omega arith)
bits_within-bound (suc fuel) n h = elim (Bool-cases (n == 0)) [
  | inl e ↦ rw e (ground arith)
  | inr e ↦ rw e (
      ground (
        arith,
        bits_within-bound fuel (n / 2) (ground arith),
        pow-suc 2 (bits_within fuel (n / 2)),
      ))
]

bits_within-least : (fuel n k : ℕ) → n < 2 ^ k → bits_within fuel n ≤ k
unfolding bits_within
bits_within-least zero n k h = omega arith
bits_within-least (suc fuel) n zero h = ground arith
bits_within-least (suc fuel) n (suc k) h = elim (Bool-cases (n == 0)) [
  | inl e ↦ rw e (omega arith)
  | inr e ↦ rw e (omega (arith, bits_within-least fuel (n / 2) k (omega (arith, pow-suc 2 k))))
]

-- `bit_length n` is the least number of bits that hold `n`.
pub bit_length-bound : (n : ℕ) → n < 2 ^ bit_length n
unfolding bit_length
bit_length-bound n = bits_within-bound n n (omega arith)

pub bit_length-least : (n k : ℕ) → n < 2 ^ k → bit_length n ≤ k
unfolding bit_length
bit_length-least n k h = bits_within-least n n k h
