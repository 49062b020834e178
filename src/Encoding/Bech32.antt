-- ===== src/Encoding/Bech32.antt =====
-- bitcoinlib/encoding.py, the Bech32 address format: `_bech32_polymod` with the checksum that
-- `pubkeyhash_to_addr_bech32` computes from it, and `convertbits`.
pub mod Checksum
pub mod Verify
mod Tests
use bitcoinlib.Common.{
  ℕ, zero, suc, ◌+◌, ◌*◌, ◌/◌, ◌^◌, List, [], ◌∷◌, ◌++◌, replicate, bit_and, bit_xor, ◌==◌,
  if◌then◌else◌,
}

abbrev generator : List ℕ
generator = 0x3b6a_57b2 ∷ 0x2650_8e6d ∷ 0x1ea1_19fa ∷ 0x3d42_33dd ∷ 0x2a14_62b3 ∷ []

-- The inner loop, from index `i` on, over the generators that are left.
unfoldable pub mix_generators : ℕ → List ℕ → ℕ → ℕ → ℕ
mix_generators i [] top chk = chk
mix_generators i (g ∷ gs) top chk =
    mix_generators (suc i) gs top (bit_xor chk (if bit_and (top / 2 ^ i) 1 == 0 then 0 else g))

-- One round of the outer loop.
unfoldable pub polymod_round : ℕ → ℕ → ℕ
unfolding mix_generators
polymod_round chk value =
    mix_generators 0 generator (chk / 2 ^ 25) (bit_xor (bit_and chk 0x1ff_ffff * 2 ^ 5) value)

unfoldable pub polymod_from : ℕ → List ℕ → ℕ
unfolding polymod_round
polymod_from chk [] = chk
polymod_from chk (value ∷ values) = polymod_from (polymod_round chk value) values

unfoldable pub bech32_polymod : List ℕ → ℕ
unfolding polymod_from
bech32_polymod values = polymod_from 1 values

-- `[(polymod >> 5 * (5 - i)) & 31 for i in range(6)]`, with `n` items left to do
unfoldable pub checksum_digits : ℕ → ℕ → List ℕ
checksum_digits zero polymod = []
checksum_digits (suc n) polymod = bit_and (polymod / 2 ^ (5 * n)) 31 ∷ checksum_digits n polymod

-- The six values that `pubkeyhash_to_addr_bech32` appends to the expanded prefix and the data.
unfoldable pub checksum : ℕ → List ℕ → List ℕ
unfolding bech32_polymod checksum_digits
checksum checksum_xor values =
    checksum_digits 6 (bit_xor (bech32_polymod (values ++ replicate 6 0)) checksum_xor)
