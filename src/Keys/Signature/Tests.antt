-- ===== src/Keys/Signature/Tests.antt =====
-- Runs of `Signature.parse_bytes` of bitcoinlib/keys.py.
use bitcoinlib.Common.{
  ℕ, ◌^◌, ◌≡◌, refl, List, [], ◌∷◌, ◌++◌, replicate, some, ok, err, bkey_error, arith,
}
use bitcoinlib.Encoding.Bytes.{little_digits}
use bitcoinlib.Encoding.VarInt.{int_to_varbyteint, varstr}
use bitcoinlib.Encoding.Der.{signature_der_encode, der_integer}
use bitcoinlib.Keys.Signature.{parse_bytes}
use bitcoinlib.Keys.Signature.RoundTrip.{parse_bytes-signature_der_encode}

abbrev integer : List ℕ
integer = 0x02 ∷ 33 ∷ 0 ∷ 128 ∷ replicate 31 0

abbrev signature : List ℕ
signature = 0x30 ∷ 70 ∷ (integer ++ integer)

encode_signature : signature_der_encode (2 ^ 255) (2 ^ 255) ≡ ok signature
unfolding signature_der_encode der_integer varstr int_to_varbyteint little_digits
encode_signature = refl

parse_short : parse_bytes (1 ∷ 2 ∷ []) ≡ err bkey_error
unfolding parse_bytes
parse_short = refl

-- The constructor refuses an r of 0 and an s that is as large as the order of the curve.
parse_zero : parse_bytes (replicate 63 0 ++ 1 ∷ []) ≡ err bkey_error
unfolding parse_bytes
parse_zero = refl

parse_large : parse_bytes (replicate 64 255) ≡ err bkey_error
unfolding parse_bytes
parse_large = refl

parse_bytes-signature_der_encode_example :
    parse_bytes (signature ++ (3 ∷ []))
    ≡ ok (record { r = 2 ^ 255; s = 2 ^ 255; der_signature = some signature; hash_type = 3 })
parse_bytes-signature_der_encode_example =
    parse_bytes-signature_der_encode (2 ^ 255) (2 ^ 255) 3 signature (omega arith) (omega arith)
      (omega arith) (omega arith) encode_signature (omega arith)
