-- ===== src/Encoding/Base58/Tests.antt =====
-- Runs of `base58encode` of bitcoinlib/encoding.py.
use bitcoinlib.Common.{ℕ, ◌≡◌, refl, List, [], ◌∷◌, ◌-◌, length}
use bitcoinlib.Encoding.Bytes.{from_big, lstrip_zeros}
use bitcoinlib.Encoding.Base58.{base58encode}
use bitcoinlib.Encoding.Base58.Value.{leading_ones, value_from, base58encode_lem}

abbrev sample : List ℕ
sample = 0 ∷ 0 ∷ 1 ∷ 2 ∷ []

-- The sample is written "115T".
base58_bytes : base58encode sample ≡ 49 ∷ 49 ∷ 53 ∷ 84 ∷ []
unfolding base58encode
base58_bytes = refl

base58encode_lem_example :
    (leading_ones (base58encode sample) ≡ length sample - length (lstrip_zeros sample))
    × (value_from 0 (base58encode sample) ≡ from_big sample)
base58encode_lem_example = base58encode_lem sample
