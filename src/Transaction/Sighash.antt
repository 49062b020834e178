-- ===== src/Transaction/Sighash.antt =====
-- bitcoinlib/transactions.py, `Transaction.signature_segwit`, `signature` and `signature_hash`: the
-- bytes that a signature signs.
pub mod Binding
mod Tests
use bitcoinlib.Common.{
  ℕ, zero, suc, ◌+◌, List, [], ◌∷◌, ◌++◌, reverse, Bool, true, false, not, ◌&&◌, ◌||◌, Option, none,
  some, Result, ok, err, index_error, overflow_error, transaction_error, assertion_error, ◌>>=◌,
  ◌>>◌, guard, ltb, ◌==◌, if◌then◌else◌, length, get_elem?, bytes_eq, bit_and, replicate,
}
use bitcoinlib.Common.Integer.{ℤ, pos, negsuc}
use bitcoinlib.Encoding.Bytes.{to_little}
use bitcoinlib.Encoding.VarInt.{varstr}
use bitcoinlib.Transaction.{
  Bytes, Input, Output, Transaction, WitnessType, legacy, segwit, p2sh_segwit, is_segwit,
  is_coinbase,
}
use bitcoinlib.Transaction.Raw.{is_empty, raw}
use bitcoinlib.Transaction.Parse.{double_sha256}

abbrev pub no_hash : Bytes
no_hash = replicate 32 0

-- `hash_type & SIGHASH_ANYONECANPAY`, and the tests of `hash_type & 0x1f`
abbrev pub anyone_can_pay : ℕ → Bool
anyone_can_pay hash_type = not (bit_and hash_type 0x80 == 0)

abbrev pub is_single : ℕ → Bool
is_single hash_type = bit_and hash_type 0x1f == 3

abbrev pub is_none_type : ℕ → Bool
is_none_type hash_type = bit_and hash_type 0x1f == 2

unfoldable pub write_prevouts : List Input → Bytes
write_prevouts [] = []
write_prevouts (i ∷ is) = reverse i.prev_txid ++ (reverse i.output_n ++ write_prevouts is)

unfoldable pub write_sequences : List Input → Result Bytes
write_sequences [] = ok []
write_sequences (i ∷ is) = do
  sequence ← to_little 4 i.sequence
  rest ← write_sequences is
  ok (sequence ++ rest)

-- Unlike `raw` this has no test for a value below 0, which `to_bytes` refuses.
unfoldable pub sign_value : ℤ → Result Bytes
sign_value (negsuc n) = err overflow_error
sign_value (pos n) = to_little 8 n

unfoldable pub sign_output : Output → Result Bytes
unfolding sign_value
sign_output o = do value ← sign_value o.value; script ← varstr o.lock_script; ok (value ++ script)

unfoldable pub sign_outputs : List Output → Result Bytes
unfolding sign_output
sign_outputs [] = ok []
sign_outputs (o ∷ os) = do code ← sign_output o; codes ← sign_outputs os; ok (code ++ codes)

-- `self.inputs[sign_id].redeemscript`, which is the locking script where it is empty.
abbrev pub script_code : Input → Bytes
script_code i = if is_empty i.redeemscript then i.locking_script else i.redeemscript

-- `self.inputs[sign_id].redeemscript = …`
unfoldable pub keep_redeemscript : ℕ → List Input → List Input
keep_redeemscript zero [] = []
keep_redeemscript (suc n) [] = []
keep_redeemscript zero (i ∷ is) = record i { redeemscript = script_code i } ∷ is
keep_redeemscript (suc n) (i ∷ is) = i ∷ keep_redeemscript n is

-- What is signed for the input `i`; the hashes are those of the whole transaction.
unfoldable pub preimage : Transaction → ℕ → Bytes → Bytes → Bytes → Input → Result Bytes
preimage t hash_type prevouts sequences outputs i = do
  guard (not (i.value == 0) || is_coinbase i.script_type) transaction_error
  let script = script_code i
  guard (not (is_empty script || bytes_eq script (0 ∷ [])) || is_coinbase i.script_type)
      transaction_error
  code ← varstr script
  value ← to_little 8 i.value
  sequence ← to_little 4 i.sequence
  locktime ← to_little 4 t.locktime
  suffix ← to_little 4 hash_type
  ok (
      reverse t.version
      ++ (prevouts
          ++ (sequences
              ++ (reverse i.prev_txid
                  ++ (reverse i.output_n
                      ++ (code ++ (value ++ (sequence ++ (outputs ++ (locktime ++ suffix))))))))))

unfoldable pub preimage_at : Transaction → ℕ → Bytes → Bytes → Bytes → Option Input → Result Bytes
unfolding preimage
preimage_at t hash_type prevouts sequences outputs none = err index_error
preimage_at t hash_type prevouts sequences outputs (some i) =
    preimage t hash_type prevouts sequences outputs i

module _ (sha256 : Bytes → Bytes) where
  unfoldable pub hash_prevouts : ℕ → List Input → Bytes
  unfolding write_prevouts double_sha256
  hash_prevouts hash_type inputs =
      if anyone_can_pay hash_type then no_hash else double_sha256 sha256 (write_prevouts inputs)

  -- `sequences` are the sequences in a row.
  unfoldable pub hash_sequence : ℕ → Bytes → Bytes
  unfolding double_sha256
  hash_sequence hash_type sequences =
      if not (anyone_can_pay hash_type) && not (is_single hash_type) && not (is_none_type hash_type)
      then double_sha256 sha256 sequences
      else no_hash

  -- The one output that is hashed where the hash type is not SINGLE.
  unfoldable pub hash_one_output : Option Output → Result Bytes
  unfolding sign_output double_sha256
  hash_one_output none = ok no_hash
  hash_one_output (some o) = sign_output o >>= λ code. ok (double_sha256 sha256 code)

  unfoldable pub hash_outputs : ℕ → ℕ → List Output → Result Bytes
  unfolding sign_outputs hash_one_output double_sha256
  hash_outputs hash_type sign_id outputs =
      if not (is_single hash_type) && not (is_none_type hash_type)
      then (sign_outputs outputs >>= λ codes. ok (double_sha256 sha256 codes))
      else if not (is_single hash_type)
      then hash_one_output (get_elem? outputs sign_id)
      else ok no_hash

  -- The bytes, and the transaction with the redeem script of the input.
  unfoldable pub signature_segwit : ℕ → ℕ → Transaction → Result (Bytes × Transaction)
  unfolding preimage_at hash_prevouts hash_sequence hash_outputs write_sequences keep_redeemscript
  signature_segwit sign_id hash_type t = do
    guard (is_segwit t.witness_type) assertion_error
    sequences ← write_sequences t.inputs
    outputs ← hash_outputs hash_type sign_id t.outputs
    ser_tx ←
        preimage_at t hash_type (hash_prevouts hash_type t.inputs)
          (hash_sequence hash_type sequences) outputs (get_elem? t.inputs sign_id)
    ok (ser_tx, record t { inputs = keep_redeemscript sign_id t.inputs })

  -- With no input to sign the whole transaction is written as a legacy transaction.
  unfoldable pub signature_as :
      Option ℕ → ℕ → WitnessType → Transaction → Result (Bytes × Transaction)
  unfolding signature_segwit raw
  signature_as none hash_type witness_type t = raw none hash_type legacy t
  signature_as (some sign_id) hash_type legacy t = raw (some sign_id) hash_type legacy t
  signature_as (some sign_id) hash_type segwit t = signature_segwit sign_id hash_type t
  signature_as (some sign_id) hash_type p2sh_segwit t = signature_segwit sign_id hash_type t

  -- The witness type is that of the transaction where the caller gives none.
  unfoldable pub signature :
      Option ℕ → ℕ → Option WitnessType → Transaction → Result (Bytes × Transaction)
  unfolding signature_as
  signature sign_id hash_type none t = signature_as sign_id hash_type t.witness_type t
  signature sign_id hash_type (some witness_type) t = signature_as sign_id hash_type witness_type t

  unfoldable pub signature_hash :
      Option ℕ → ℕ → Option WitnessType → Transaction → Result (Bytes × Transaction)
  unfolding signature double_sha256
  signature_hash sign_id hash_type witness_type t = do
    (code, kept) ← signature sign_id hash_type witness_type t
    ok (double_sha256 sha256 code, kept)
