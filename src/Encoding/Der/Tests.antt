-- ===== src/Encoding/Der/Tests.antt =====
-- Runs of the DER functions, and the theorems at concrete inputs.
use bitcoinlib.Common.{ℕ, ◌≤◌, ◌≡◌, refl, List, [], ◌∷◌, ◌++◌, ok, err, index_error, arith, length}
use bitcoinlib.Encoding.Bytes.{IsBytes, from_big, little_digits}
use bitcoinlib.Encoding.VarInt.{int_to_varbyteint, varstr, varbyteint_to_int}
use bitcoinlib.Encoding.Der.{der_integer, signature_der_encode, signature_der_decode, unpack_int}
use bitcoinlib.Encoding.Der.RoundTrip.{
  IsMinimal, signature_der_decode-encode, der_integer-IsMinimal,
}

encode_small : signature_der_encode 300 5 ≡ ok (0x30 ∷ 7 ∷ 2 ∷ 2 ∷ 1 ∷ 44 ∷ 2 ∷ 1 ∷ 5 ∷ [])
unfolding signature_der_encode der_integer little_digits varstr int_to_varbyteint
encode_small = refl

decode_small : signature_der_decode (0x30 ∷ 7 ∷ 2 ∷ 2 ∷ 1 ∷ 44 ∷ 2 ∷ 1 ∷ 5 ∷ []) ≡ ok (300, 5)
unfolding signature_der_decode unpack_int varbyteint_to_int
decode_small = refl

-- An r of 0 has no first byte.
encode_zero : signature_der_encode 0 5 ≡ err index_error
unfolding signature_der_encode der_integer little_digits
encode_zero = refl

signature_der_decode-encode_example :
    (sig : List ℕ) × (signature_der_encode 300 200 ≡ ok sig)
    × (length sig ≤ 72)
    × (signature_der_decode sig ≡ ok (300, 200))
    × (signature_der_decode (sig ++ (1 ∷ [])) ≡ ok (300, 200))
signature_der_decode-encode_example =
    signature_der_decode-encode 300 200 1 (omega arith) (omega arith) (omega arith) (omega arith)

der_integer-IsMinimal_example :
    IsMinimal (0 ∷ 200 ∷ []) × IsBytes (0 ∷ 200 ∷ []) × (2 ≤ 33) × (from_big (0 ∷ 200 ∷ []) ≡ 200)
der_integer-IsMinimal_example =
    der_integer-IsMinimal 200 (0 ∷ 200 ∷ []) (omega arith) (omega arith) encoded
  where
    encoded : der_integer 200 ≡ ok (0 ∷ 200 ∷ [])
    encoded = unfold der_integer little_digits in refl
