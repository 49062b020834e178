-- ===== src/Transaction/Size/Tests.antt =====
-- Runs of the sizes, totals and fees of bitcoinlib/transactions.py.
use bitcoinlib.Common.{
  ℕ, ◌+◌, ◌*◌, ◌/◌, ◌≡◌, refl, [], ◌∷◌, ◌++◌, true, false, none, ok, err, transaction_error, arith,
  replicate, length,
}
use bitcoinlib.Common.Integer.{pos}
use bitcoinlib.Encoding.Bytes.{little_digits}
use bitcoinlib.Encoding.VarInt.{int_to_varbyteint, varstr}
use bitcoinlib.Transaction.{Bytes, Input, Transaction, legacy, segwit, p2sh_multisig}
use bitcoinlib.Transaction.Raw.{raw_bytes}
use bitcoinlib.Transaction.Tests.{spend, signed_input, payment}
use bitcoinlib.Transaction.Size.{
  SizedInput, estimate_size, update_totals, calculate_fee, get_unlocking_script_type, p2wsh,
  other_type,
}
use bitcoinlib.Transaction.Size.Legacy.{estimate_size-raw_bytes}

abbrev legacy_input : Input
legacy_input = record signed_input {
  unlocking_script = 1 ∷ 2 ∷ 3 ∷ [];
  witness_type = legacy;
  witnesses = [];
}

abbrev one_key : Input → ℕ → SizedInput
one_key i signatures = record {
  input = i;
  signatures = signatures;
  sigs_required = 1;
  keys = 1;
  compressed = true;
}

abbrev legacy_spend : Transaction
legacy_spend = record spend { inputs = legacy_input ∷ []; witness_type = legacy }

abbrev legacy_bytes : Bytes
legacy_bytes =
    (2 ∷ 0 ∷ 0 ∷ 0 ∷ 1 ∷ [])
    ++ (replicate 32 7
        ++ (1 ∷ 0 ∷ 0 ∷ 0 ∷ 3 ∷ 1 ∷ 2 ∷ 3 ∷ 253 ∷ 255 ∷ 255 ∷ 255 ∷ 1 ∷ 160 ∷ 15 ∷ 0 ∷ 0 ∷ 0 ∷ 0 ∷ 0
            ∷ 0 ∷ 3 ∷ 0 ∷ 1 ∷ 5 ∷ 192 ∷ 39 ∷ 9 ∷ 0 ∷ []))

write_legacy : raw_bytes none 1 legacy legacy_spend ≡ ok legacy_bytes
unfolding raw_bytes int_to_varbyteint varstr little_digits
write_legacy = refl

-- An input that is not signed, with a change output.
estimate_unsigned :
    estimate_size segwit
      (one_key (record signed_input { unlocking_script = [] }) 0 ∷ [])
      (payment ∷ [])
      1
    ≡ ok (205, pos 122)
unfolding estimate_size int_to_varbyteint varstr little_digits
estimate_unsigned = refl

totals_of_spend : update_totals (record spend { fee = none; input_total = pos 0 }) ≡ spend
unfolding update_totals
totals_of_spend = refl

fee_is_bounded :
    calculate_fee (λ vsize per_kb. vsize * per_kb / 1000) 1000 50000 200 90000 ≡ ok 10000
unfolding calculate_fee
fee_is_bounded = refl

unlock_script_hash : get_unlocking_script_type p2wsh segwit false ≡ ok p2sh_multisig
unfolding get_unlocking_script_type
unlock_script_hash = refl

unlock_unknown : get_unlocking_script_type other_type segwit true ≡ err transaction_error
unfolding get_unlocking_script_type
unlock_unknown = refl

estimate_size-raw_bytes_example :
    estimate_size legacy (one_key legacy_input 1 ∷ []) (payment ∷ []) 0
    ≡ ok (length legacy_bytes + 2, pos (length legacy_bytes + 2))
estimate_size-raw_bytes_example =
    estimate_size-raw_bytes legacy_spend (one_key legacy_input 1) [] 1 legacy_bytes refl
      (
        record {
          complete = refl;
          no_witness = refl;
          standard = refl;
          txid_size = refl;
          n_size = refl;
        },
        tt,
      )
      (refl, tt) refl (omega arith) (omega arith) write_legacy
