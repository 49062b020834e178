-- ===== src/Encoding/ConvertBits/Tests.antt =====
-- Runs of `convertbits` of bitcoinlib/encoding.py.
use bitcoinlib.Common.{
  ℕ, ◌+◌, ◌<◌, ◌≡◌, refl, List, [], ◌∷◌, true, false, none, some, ok, err, encoding_error, arith,
}
use bitcoinlib.Encoding.ConvertBits.{convertbits}
use bitcoinlib.Encoding.ConvertBits.Digits.{AreDigits, total_bits}
use bitcoinlib.Encoding.ConvertBits.RoundTrip.{convertbits-convertbits}

convertbits_bytes : convertbits (255 ∷ 1 ∷ []) 8 5 true ≡ ok (some (31 ∷ 28 ∷ 0 ∷ 16 ∷ []))
unfolding convertbits
convertbits_bytes = refl

convertbits_range : convertbits (32 ∷ []) 5 8 false ≡ ok none
unfolding convertbits
convertbits_range = refl

convertbits_padding : convertbits (31 ∷ 29 ∷ []) 5 8 false ≡ err encoding_error
unfolding convertbits
convertbits_padding = refl

convertbits-convertbits_example :
    (code : List ℕ) × (convertbits (255 ∷ 1 ∷ []) 8 5 true ≡ ok (some code))
    × AreDigits 5 code
    × (total_bits 5 code < total_bits 8 (255 ∷ 1 ∷ []) + 5)
    × (convertbits code 5 8 false ≡ ok (some (255 ∷ 1 ∷ [])))
convertbits-convertbits_example =
    convertbits-convertbits 8 5 (255 ∷ 1 ∷ []) (omega arith) (omega arith)
      (omega arith, (omega arith, tt))
