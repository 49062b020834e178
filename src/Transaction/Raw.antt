-- ===== src/Transaction/Raw.antt =====
-- bitcoinlib/transactions.py, `Transaction.raw`: the bytes of a transaction, or with `sign_id` the
-- bytes that a legacy signature of that input signs.
use bitcoinlib.Common.{
  ℕ, List, [], ◌∷◌, ◌++◌, reverse, Bool, true, false, not, ◌&&◌, Option, none, some, Result, ok,
  err, transaction_error, ◌>>=◌, ◌==◌, if◌then◌else◌, length,
}
use bitcoinlib.Common.Integer.{ℤ, pos, negsuc}
use bitcoinlib.Encoding.Bytes.{to_little}
use bitcoinlib.Encoding.VarInt.{int_to_varbyteint, varstr}
use bitcoinlib.Transaction.{
  Bytes, Input, Output, Transaction, WitnessType, is_legacy, is_segwit, is_multisig, is_nonstandard,
}
use bitcoinlib.Transaction.Weight.{counted_witnesses, calc_weight_units}

-- `if not xs`
abbrev pub is_empty {ℓ} : {A : Type ℓ} → List A → Bool
is_empty [] = true
is_empty (x ∷ xs) = false

-- What `r_witness` gains for an input.
unfoldable pub write_witness : Input → Result Bytes
unfolding counted_witnesses
write_witness i =
    if not (is_empty i.witnesses) && not (is_legacy i.witness_type)
    then counted_witnesses i.witnesses
    else ok (0 ∷ [])

unfoldable pub write_script : Option ℕ → Input → Result Bytes
write_script none i =
    let mark = if is_nonstandard i.script_type then 1 ∷ [] else [] in
    varstr i.unlocking_script >>= λ script. ok (mark ++ script)
write_script (some sign_id) i =
    if sign_id == i.index_n
    then varstr (if is_multisig i.script_type then i.redeemscript else i.locking_script)
    else ok (0 ∷ [])

-- What `r` and `r_witness` gain for an input.
unfoldable pub write_input : Option ℕ → Input → Result (Bytes × Bytes)
unfolding write_witness write_script
write_input sign_id i = do
  witness ← write_witness i
  script ← write_script sign_id i
  sequence ← to_little 4 i.sequence
  ok (reverse i.prev_txid ++ (reverse i.output_n ++ (script ++ sequence)), witness)

unfoldable pub write_inputs : Option ℕ → List Input → Result (Bytes × Bytes)
unfolding write_input
write_inputs sign_id [] = ok ([], [])
write_inputs sign_id (i ∷ is) = do
  (code, witness) ← write_input sign_id i
  (codes, witnesses) ← write_inputs sign_id is
  ok (code ++ codes, witness ++ witnesses)

-- `int(o.value).to_bytes(8, 'little')`, for a value that is not below 0.
unfoldable pub write_value : ℤ → Result Bytes
write_value (negsuc n) = err transaction_error
write_value (pos n) = to_little 8 n

unfoldable pub write_output : Output → Result Bytes
unfolding write_value
write_output o = do value ← write_value o.value; script ← varstr o.lock_script; ok (value ++ script)

unfoldable pub write_outputs : List Output → Result Bytes
unfolding write_output
write_outputs [] = ok []
write_outputs (o ∷ os) = do code ← write_output o; codes ← write_outputs os; ok (code ++ codes)

abbrev pub is_none : Option ℕ → Bool
is_none none = true
is_none (some k) = false

-- The hash type follows what is signed.
unfoldable pub write_hash_type : Option ℕ → ℕ → Result Bytes
write_hash_type none hash_type = ok []
write_hash_type (some sign_id) hash_type = to_little 4 hash_type

unfoldable pub raw_bytes : Option ℕ → ℕ → WitnessType → Transaction → Result Bytes
unfolding write_inputs write_outputs write_hash_type
raw_bytes sign_id hash_type witness_type t = do
  let whole = is_none sign_id && is_segwit witness_type
  n_inputs ← int_to_varbyteint (length t.inputs)
  (inputs, witnesses) ← write_inputs sign_id t.inputs
  n_outputs ← int_to_varbyteint (length t.outputs)
  outputs ← write_outputs t.outputs
  locktime ← to_little 4 t.locktime
  suffix ← write_hash_type sign_id hash_type
  ok (
      reverse t.version
      ++ ((if whole then 0 ∷ 1 ∷ [] else [])
          ++ (n_inputs
              ++ (inputs
                  ++ (n_outputs
                      ++ (outputs
                          ++ ((if whole then witnesses else []) ++ (locktime ++ suffix))))))))

-- `b'' not in [i.unlocking_script for i in self.inputs]`
abbrev all_unlocked : List Input → Bool
all_unlocked [] = true
all_unlocked (i ∷ is) = not (is_empty i.unlocking_script) && all_unlocked is

-- The size and the weight are filled in where the size is not known yet.
unfoldable pub keep_size : Option ℕ → ℕ → Transaction → Result Transaction
unfolding calc_weight_units
keep_size sign_id n t =
    if is_none sign_id && (t.size == 0) && all_unlocked t.inputs
    then (calc_weight_units (record t { size = n }) >>= λ weighed. ok weighed.1)
    else ok t

-- The bytes, and the transaction with its size.
unfoldable pub raw : Option ℕ → ℕ → WitnessType → Transaction → Result (Bytes × Transaction)
unfolding raw_bytes keep_size
raw sign_id hash_type witness_type t = do
  r ← raw_bytes sign_id hash_type witness_type t
  kept ← keep_size sign_id (length r) t
  ok (r, kept)
