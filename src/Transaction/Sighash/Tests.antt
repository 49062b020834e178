-- ===== src/Transaction/Sighash/Tests.antt =====
-- Runs of the signature code of bitcoinlib/transactions.py, with a constant in place of the hash.
use bitcoinlib.Common.{ℕ, ◌≡◌, refl, [], ◌∷◌, ◌++◌, ok, replicate}
use bitcoinlib.Encoding.Bytes.{little_digits}
use bitcoinlib.Encoding.VarInt.{int_to_varbyteint, varstr}
use bitcoinlib.Transaction.{Bytes, Input, Transaction}
use bitcoinlib.Transaction.Parse.{double_sha256}
use bitcoinlib.Transaction.Tests.{spend, signed_input, payment}
use bitcoinlib.Transaction.Sighash.{
  no_hash, script_code, hash_prevouts, hash_outputs, signature_segwit,
}
use bitcoinlib.Transaction.Sighash.Binding.{IsSigned, signature_segwit-binding}

abbrev hash : Bytes → Bytes
hash m = replicate 32 9

abbrev signed_bytes : Bytes
signed_bytes =
    (2 ∷ 0 ∷ 0 ∷ 0 ∷ [])
    ++ (replicate 64 9
        ++ (replicate 32 7
            ++ (1 ∷ 0 ∷ 0 ∷ 0 ∷ 2 ∷ 118 ∷ 169 ∷ 136 ∷ 19 ∷ 0 ∷ 0 ∷ 0 ∷ 0 ∷ 0 ∷ 0 ∷ 253 ∷ 255 ∷ 255
                ∷ 255 ∷ [])
            ++ (replicate 32 9 ++ (192 ∷ 39 ∷ 9 ∷ 0 ∷ 1 ∷ 0 ∷ 0 ∷ 0 ∷ []))))

abbrev kept : Transaction
kept = record spend { inputs = record signed_input { redeemscript = 118 ∷ 169 ∷ [] } ∷ [] }

sign_spend : signature_segwit hash 0 1 spend ≡ ok (signed_bytes, kept)
unfolding signature_segwit int_to_varbyteint varstr little_digits
sign_spend = refl

-- The witnesses are not signed.
abbrev unsigned_input : Input
unsigned_input = record signed_input { witnesses = [] }

abbrev unsigned : Transaction
unsigned = record spend { inputs = unsigned_input ∷ [] }

abbrev unsigned_kept : Transaction
unsigned_kept = record spend {
  inputs = record unsigned_input { redeemscript = 118 ∷ 169 ∷ [] } ∷ [];
}

sign_unsigned : signature_segwit hash 0 1 unsigned ≡ ok (signed_bytes, unsigned_kept)
unfolding signature_segwit int_to_varbyteint varstr little_digits
sign_unsigned = refl

-- With the hash type SINGLE no output is hashed, and with NONE the output of the input's number is.
single_output : hash_outputs hash 3 0 (payment ∷ []) ≡ ok no_hash
unfolding hash_outputs
single_output = refl

none_output : hash_outputs hash 2 0 (payment ∷ []) ≡ ok (double_sha256 hash [])
unfolding hash_outputs int_to_varbyteint varstr little_digits
none_output = refl

spend-IsSigned : IsSigned spend 0 signed_input
spend-IsSigned = record {
  input = refl;
  fields = record { version = refl; txid = refl; output_n = refl; spends = refl };
}

unsigned-IsSigned : IsSigned unsigned 0 unsigned_input
unsigned-IsSigned = record {
  input = refl;
  fields = record { version = refl; txid = refl; output_n = refl; spends = refl };
}

signature_segwit-binding_example :
    (spend.version ≡ unsigned.version)
    × (spend.locktime ≡ unsigned.locktime)
    × (◌≡◌ {A = ℕ} 1 1)
    × (signed_input.prev_txid ≡ unsigned_input.prev_txid)
    × (signed_input.output_n ≡ unsigned_input.output_n)
    × (signed_input.value ≡ unsigned_input.value)
    × (signed_input.sequence ≡ unsigned_input.sequence)
    × (script_code signed_input ≡ script_code unsigned_input)
    × (hash_prevouts hash 1 spend.inputs ≡ hash_prevouts hash 1 unsigned.inputs)
    × (hash_outputs hash 1 0 spend.outputs ≡ hash_outputs hash 1 0 unsigned.outputs)
signature_segwit-binding_example =
    signature_segwit-binding hash (λ m. refl) 0 0 1 1 spend unsigned kept unsigned_kept signed_input
      unsigned_input signed_bytes spend-IsSigned unsigned-IsSigned sign_spend sign_unsigned
