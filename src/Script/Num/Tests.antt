-- ===== src/Script/Num/Tests.antt =====
-- Runs of the number codec, and the theorems at concrete inputs.
use bitcoinlib.Common.{◌+◌, ◌≤◌, ◌≡◌, refl, [], ◌∷◌, arith, length}
use bitcoinlib.Common.Integer.{pos, negsuc}
use bitcoinlib.Encoding.Bytes.{little_digits}
use bitcoinlib.Script.Num.{add_sign, encode_num, sign_bit, clear_sign, decode_num}
use bitcoinlib.Script.Num.BitLength.{bit_length}
use bitcoinlib.Script.Num.Laws.{decode_num-encode_num, length-encode_num}

encode_1000000 : encode_num (pos 1000000) ≡ 64 ∷ 66 ∷ 15 ∷ []
unfolding encode_num add_sign little_digits bit_length
encode_1000000 = refl

encode_minus_128 : encode_num (negsuc 127) ≡ 128 ∷ 128 ∷ []
unfolding encode_num add_sign little_digits bit_length
encode_minus_128 = refl

-- Zero with the sign bit set is a zero.
decode_negative_zero : decode_num (0 ∷ 0x80 ∷ []) ≡ pos 0
unfolding decode_num sign_bit clear_sign
decode_negative_zero = refl

decode_num-encode_num_example : decode_num (encode_num (negsuc 127)) ≡ negsuc 127
decode_num-encode_num_example = decode_num-encode_num (negsuc 127)

length-encode_num_example : length (encode_num (negsuc 127)) ≤ 1 + 1
length-encode_num_example = length-encode_num (negsuc 127) 1 (omega arith)
