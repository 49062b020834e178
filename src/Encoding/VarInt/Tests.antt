-- ===== src/Encoding/VarInt/Tests.antt =====
-- Runs of the CompactSize functions, and the theorems at concrete inputs.
use bitcoinlib.Common.{
  ℕ, ◌^◌, ◌≤◌, ◌<◌, ◌≡◌, refl, ◌↔◌, List, [], ◌∷◌, ok, err, overflow_error, arith,
}
use bitcoinlib.Encoding.Bytes.{little_digits}
use bitcoinlib.Encoding.Stream.{Stream, remaining}
use bitcoinlib.Encoding.VarInt.{
  varbyteint_to_int, read_varbyteint, read_varbyteint_return, int_to_varbyteint, varstr,
}
use bitcoinlib.Encoding.VarInt.RoundTrip.{
  int_to_varbyteint_total, read_varbyteint-int_to_varbyteint,
}
use bitcoinlib.Encoding.VarInt.Minimal.{int_to_varbyteint_shortest}

encode_10000 : int_to_varbyteint 10000 ≡ ok (0xfd ∷ 0x10 ∷ 0x27 ∷ [])
unfolding int_to_varbyteint little_digits
encode_10000 = refl

-- The tests are `<` where the protocol has `<=`, so 65535 takes five bytes, though three decode.
encode_65535 : int_to_varbyteint 65535 ≡ ok (0xfe ∷ 0xff ∷ 0xff ∷ 0 ∷ 0 ∷ [])
unfolding int_to_varbyteint little_digits
encode_65535 = refl

decode_65535 : varbyteint_to_int (0xfd ∷ 0xff ∷ 0xff ∷ []) ≡ (65535, 3)
unfolding varbyteint_to_int
decode_65535 = refl

encode_4294967295 :
    int_to_varbyteint 4294967295 ≡ ok (0xff ∷ 0xff ∷ 0xff ∷ 0xff ∷ 0xff ∷ 0 ∷ 0 ∷ 0 ∷ 0 ∷ [])
unfolding int_to_varbyteint little_digits
encode_4294967295 = refl

too_large : int_to_varbyteint (2 ^ 64) ≡ err overflow_error
unfolding int_to_varbyteint
too_large = refl

-- A truncated encoding is read as a smaller number.
truncated : varbyteint_to_int (0xfd ∷ 0x10 ∷ []) ≡ (16, 3)
unfolding varbyteint_to_int
truncated = refl

zero_byte : varstr (0 ∷ []) ≡ ok (0 ∷ [])
unfolding varstr
zero_byte = refl

abbrev tape : Stream
tape = record { buffer = 7 ∷ 0xfd ∷ 0x10 ∷ 0x27 ∷ 9 ∷ []; position = 1 }

int_to_varbyteint_total_example :
    ((code : List ℕ) × (int_to_varbyteint 10000 ≡ ok code)) ↔ (10000 < 2 ^ 64)
int_to_varbyteint_total_example = int_to_varbyteint_total 10000

read_varbyteint-int_to_varbyteint_example :
    ((read_varbyteint tape).0 ≡ 10000)
    × (remaining (read_varbyteint tape).1 ≡ 9 ∷ [])
    × ((read_varbyteint_return tape).0 ≡ (10000, 0xfd ∷ 0x10 ∷ 0x27 ∷ []))
    × (remaining (read_varbyteint_return tape).1 ≡ 9 ∷ [])
read_varbyteint-int_to_varbyteint_example =
    read_varbyteint-int_to_varbyteint 10000 (0xfd ∷ 0x10 ∷ 0x27 ∷ []) (9 ∷ []) tape encode_10000
      refl

int_to_varbyteint_shortest_example : 3 ≤ 9
int_to_varbyteint_shortest_example =
    int_to_varbyteint_shortest 10000 (0xfd ∷ 0x10 ∷ 0x27 ∷ [])
      (0xff ∷ 0x10 ∷ 0x27 ∷ 0 ∷ 0 ∷ 0 ∷ 0 ∷ 0 ∷ 0 ∷ []) (omega arith) (omega arith) encode_10000
      (omega arith) (λ e. cc) decodes
  where
    decodes : varbyteint_to_int (0xff ∷ 0x10 ∷ 0x27 ∷ 0 ∷ 0 ∷ 0 ∷ 0 ∷ 0 ∷ 0 ∷ []) ≡ (10000, 9)
    decodes = unfold varbyteint_to_int in refl
