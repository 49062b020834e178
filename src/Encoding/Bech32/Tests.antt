-- ===== src/Encoding/Bech32/Tests.antt =====
-- Runs of the Bech32 definitions of bitcoinlib/encoding.py: the address "A12UEL5L" of BIP 173 and
-- the address "A1LQFN3A" of BIP 350.
use bitcoinlib.Common.{◌≡◌, refl, ◌↔◌, List, [], ◌∷◌, ◌++◌, ℕ, arith}
use bitcoinlib.Encoding.Bech32.{bech32_polymod, checksum}
use bitcoinlib.Encoding.Bech32.Verify.{bech32_polymod-checksum}

abbrev prefix_a : List ℕ
prefix_a = 3 ∷ 0 ∷ 1 ∷ []

abbrev checksum_a : List ℕ
checksum_a = 10 ∷ 28 ∷ 25 ∷ 31 ∷ 20 ∷ 31 ∷ []

checksum_bech32 : checksum 1 prefix_a ≡ checksum_a
unfolding checksum
checksum_bech32 = refl

checksum_bech32m : checksum 0x2bc8_30a3 prefix_a ≡ 31 ∷ 0 ∷ 9 ∷ 19 ∷ 17 ∷ 29 ∷ []
unfolding checksum
checksum_bech32m = refl

bech32_polymod-checksum_example :
    (bech32_polymod (prefix_a ++ checksum 1 prefix_a) ≡ 1)
    × ((bech32_polymod (prefix_a ++ checksum_a) ≡ 1) ↔ (checksum_a ≡ checksum 1 prefix_a))
bech32_polymod-checksum_example =
    bech32_polymod-checksum 1 prefix_a checksum_a (omega arith) refl
      (omega arith, (omega arith, (omega arith, (omega arith, (omega arith, (omega arith, tt))))))
