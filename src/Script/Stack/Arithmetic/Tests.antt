-- ===== src/Script/Stack/Arithmetic/Tests.antt =====
-- Runs of the arithmetic operations, and the theorems at concrete inputs.
use bitcoinlib.Common.{◌≡◌, refl, true, false, [], ◌∷◌, ok, err, index_error, arith}
use bitcoinlib.Common.Integer.{pos, negsuc, ◌+ℤ◌, ◌-ℤ◌}
use bitcoinlib.Encoding.Bytes.{little_digits}
use bitcoinlib.Script.Num.{encode_num, decode_num, add_sign, sign_bit, clear_sign}
use bitcoinlib.Script.Num.BitLength.{bit_length}
use bitcoinlib.Script.Stack.Arithmetic.{
  op_1add, op_1sub, op_negate, op_abs, op_add, op_sub, op_min, op_max, op_within, op_numequal,
  op_numnotequal, op_booland, op_boolor,
}
use bitcoinlib.Script.Stack.Arithmetic.Laws.{op_add_sub_min_max, op_unary_numbers, op_tests}

-- The first number is the top of the stack: 5 - 2, where the protocol has 2 - 5.
sub_order : op_sub ((5 ∷ []) ∷ (2 ∷ []) ∷ []) ≡ ok (true, (3 ∷ []) ∷ [])
unfolding op_sub encode_num decode_num add_sign sign_bit clear_sign little_digits bit_length
sub_order = refl

-- The top is the number and the bottom the upper bound, where the protocol has the number lowest.
within_order : op_within ((8 ∷ []) ∷ (7 ∷ []) ∷ (9 ∷ []) ∷ []) ≡ ok (true, (1 ∷ []) ∷ [])
unfolding op_within decode_num sign_bit clear_sign
within_order = refl

too_few : op_add ((5 ∷ []) ∷ []) ≡ err index_error
unfolding op_add
too_few = refl

too_long :
    op_add ((1 ∷ 2 ∷ 3 ∷ 4 ∷ 5 ∷ []) ∷ (1 ∷ []) ∷ [])
    ≡ ok (false, (1 ∷ 2 ∷ 3 ∷ 4 ∷ 5 ∷ []) ∷ (1 ∷ []) ∷ [])
unfolding op_add
too_long = refl

op_add_sub_min_max_example :
    (op_add (encode_num (pos 5) ∷ encode_num (negsuc 6) ∷ [])
      ≡ ok (true, encode_num (pos 5 +ℤ negsuc 6) ∷ []))
    × (op_sub (encode_num (pos 5) ∷ encode_num (negsuc 6) ∷ [])
        ≡ ok (true, encode_num (pos 5 -ℤ negsuc 6) ∷ []))
    × (op_min (encode_num (pos 5) ∷ encode_num (negsuc 6) ∷ [])
        ≡ ok (true, encode_num (negsuc 6) ∷ []))
    × (op_max (encode_num (pos 5) ∷ encode_num (negsuc 6) ∷ [])
        ≡ ok (true, encode_num (pos 5) ∷ []))
op_add_sub_min_max_example = op_add_sub_min_max [] (pos 5) (negsuc 6) (omega arith) (omega arith)

op_unary_numbers_example :
    (op_1add (encode_num (negsuc 6) ∷ []) ≡ ok (true, encode_num (negsuc 5) ∷ []))
    × (op_1sub (encode_num (negsuc 6) ∷ []) ≡ ok (true, encode_num (negsuc 7) ∷ []))
    × (op_negate (encode_num (negsuc 6) ∷ []) ≡ ok (true, encode_num (pos 7) ∷ []))
    × (op_abs (encode_num (negsuc 6) ∷ []) ≡ ok (true, encode_num (pos 7) ∷ []))
op_unary_numbers_example = op_unary_numbers [] (negsuc 6) (omega arith)

op_tests_example :
    (op_numequal (encode_num (pos 5) ∷ encode_num (pos 0) ∷ []) ≡ ok (true, [] ∷ []))
    × (op_numnotequal (encode_num (pos 5) ∷ encode_num (pos 0) ∷ []) ≡ ok (true, (1 ∷ []) ∷ []))
    × (op_booland (encode_num (pos 5) ∷ encode_num (pos 0) ∷ []) ≡ ok (true, [] ∷ []))
    × (op_boolor (encode_num (pos 5) ∷ encode_num (pos 0) ∷ []) ≡ ok (true, (1 ∷ []) ∷ []))
op_tests_example = op_tests [] (pos 5) (pos 0) (omega arith) (omega arith)
