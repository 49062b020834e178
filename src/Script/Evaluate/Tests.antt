-- ===== src/Script/Evaluate/Tests.antt =====
-- Runs of scripts, and the theorems at concrete inputs. The example curve accepts a signature that
-- equals the key, and its hash puts a byte in front.
use bitcoinlib.Common.{
  ◌≡◌, ◌≢◌, refl, ◌↔◌, List, [], ◌∷◌, ◌++◌, Bool, true, false, ◌&&◌, none, some, ok, script_error,
  key_error, bytes_eq, if◌then◌else◌,
}
use bitcoinlib.Common.Integer.{pos}
use bitcoinlib.Encoding.Bytes.{little_digits}
use bitcoinlib.Script.Num.{encode_num, decode_num, add_sign, sign_bit, clear_sign}
use bitcoinlib.Script.Num.BitLength.{bit_length}
use bitcoinlib.Script.Stack.{Bytes, truth}
use bitcoinlib.Script.Stack.Arithmetic.{op_add}
use bitcoinlib.Script.Stack.Crypto.{Crypto, hash160, check, op_checkmultisig}
use bitcoinlib.Script.Stack.Crypto.Matching.{Matches}
use bitcoinlib.Script.Stack.Crypto.Multisig.{op_checkmultisig-Matches}
use bitcoinlib.Script.Command.{Command, code, single, nested, flatten, op_if, op_notif, is_zero}
use bitcoinlib.Script.Command.Balance.{closes, op_if-else}
use bitcoinlib.Script.Evaluate.{
  Environment, returned, raised, exhausted, methods, step, run, verdict, evaluate,
}
use bitcoinlib.Script.Evaluate.Total.{evaluate-ne-exhausted}
use bitcoinlib.Script.Evaluate.Templates.{passes, p2pkh, p2pk, evaluate-p2pkh, evaluate-p2pk}

abbrev curve : Crypto Bytes
curve = record {
  ripemd160 = λ x. 7 ∷ x;
  sha1 = λ x. x;
  sha256 = λ x. x;
  parse_bytes = λ x key. ok x;
  verify = λ signature message key. ok (bytes_eq signature key);
}

abbrev no_data : Environment
no_data = record { redeemscript = none; sequence = none; locktime = none; version = none }

-- `Script([op.op_2, op.op_4, op.op_add]).evaluate()`
two_plus_four :
    evaluate curve [] no_data (single (code 82) ∷ single (code 84) ∷ single (code 147) ∷ [])
    ≡ returned true
unfolding evaluate flatten run step methods verdict op_add encode_num decode_num add_sign sign_bit
    clear_sign little_digits bit_length
two_plus_four = refl

-- OP_LESSTHAN has no method, so it raises.
less_than_raises :
    evaluate curve [] no_data (single (code 81) ∷ single (code 82) ∷ single (code 159) ∷ [])
    ≡ raised script_error
unfolding evaluate flatten run step methods
less_than_raises = refl

unnamed_opcode_raises : evaluate curve [] no_data (single (code 200) ∷ []) ≡ raised key_error
unfolding evaluate flatten run step
unnamed_opcode_raises = refl

unclosed_if : evaluate curve [] no_data (single (code 81) ∷ single (code 99) ∷ []) ≡ returned false
unfolding evaluate flatten run step op_if
unclosed_if = refl

evaluate-ne-exhausted_example : evaluate curve [] no_data (nested (code 81 ∷ []) ∷ []) ≢ exhausted
evaluate-ne-exhausted_example = evaluate-ne-exhausted curve [] no_data (nested (code 81 ∷ []) ∷ [])

evaluate-p2pkh_example :
    evaluate curve [] no_data (p2pkh (3 ∷ []) (3 ∷ []) (7 ∷ 3 ∷ []))
    ≡ returned (
        bytes_eq (7 ∷ 3 ∷ []) (hash160 curve (3 ∷ []))
        && passes (check curve (3 ∷ []) (some (3 ∷ [])) [] (3 ∷ [])))
evaluate-p2pkh_example = evaluate-p2pkh curve [] no_data (3 ∷ []) (3 ∷ []) (7 ∷ 3 ∷ [])

evaluate-p2pk_example :
    evaluate curve [] no_data (p2pk (3 ∷ []) (3 ∷ []))
    ≡ returned (passes (check curve (3 ∷ []) (some (3 ∷ [])) [] (3 ∷ [])))
evaluate-p2pk_example = evaluate-p2pk curve [] no_data (3 ∷ []) (3 ∷ [])

-- A conditional inside the first branch, and 2 as the item.
abbrev inner : List Command
inner = code 99 ∷ code 81 ∷ code 103 ∷ code 82 ∷ code 104 ∷ []

op_if-else_example :
    (op_if (inner ++ (code 103 ∷ ((code 83 ∷ []) ++ (code 104 ∷ code 97 ∷ [])))) ((2 ∷ []) ∷ [])
      ≡ ok (some ([], (if is_zero (2 ∷ []) then code 83 ∷ [] else inner) ++ (code 97 ∷ []))))
    × (op_notif
          (inner ++ (code 103 ∷ ((code 83 ∷ []) ++ (code 104 ∷ code 97 ∷ []))))
          ((2 ∷ []) ∷ [])
        ≡ ok (some ([], (if is_zero (2 ∷ []) then inner else code 83 ∷ []) ++ (code 97 ∷ []))))
op_if-else_example =
    op_if-else inner (code 83 ∷ []) (code 97 ∷ []) (unfold closes in refl) (unfold closes in refl)
      (2 ∷ []) []

-- Two keys, and one signature that is valid for the second.
op_checkmultisig-Matches_example :
    (b : Bool) × (op_checkmultisig curve []
        (encode_num (pos 2) ∷ ((4 ∷ []) ∷ (3 ∷ []) ∷ encode_num (pos 1) ∷ (3 ∷ []) ∷ [] ∷ []))
      ≡ ok (true, truth b ∷ []))
    × ((b ≡ true) ↔ Matches curve [] ((4 ∷ []) ∷ (3 ∷ []) ∷ []) ((3 ∷ []) ∷ []))
op_checkmultisig-Matches_example =
    op_checkmultisig-Matches curve [] ((4 ∷ []) ∷ (3 ∷ []) ∷ []) (3 ∷ []) [] [] []
      (((false, unfold check in refl), tt), (((true, unfold check in refl), tt), tt))
