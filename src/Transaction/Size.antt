-- ===== src/Transaction/Size.antt =====
-- bitcoinlib/transactions.py, `Transaction.estimate_size`, `update_totals` and `calculate_fee`, and
-- `get_unlocking_script_type`.
pub mod Legacy
mod Tests
use bitcoinlib.Common.{
  ℕ, ◌+◌, ◌*◌, List, [], ◌∷◌, Bool, true, false, not, ◌&&◌, ◌||◌, Option, some, Result, ok, err,
  transaction_error, ◌>>=◌, ltb, leb, ◌==◌, if◌then◌else◌, length,
}
use bitcoinlib.Common.Integer.{ℤ, pos, sub_ℕ, ◌+ℤ◌, ◌-ℤ◌, int_eq}
use bitcoinlib.Encoding.VarInt.{varstr}
use bitcoinlib.Transaction.{
  Bytes, Input, Output, Transaction, WitnessType, ScriptType, legacy, segwit, p2sh_segwit,
  sig_pubkey, p2sh_multisig, signature_only, coinbase_script, nonstandard_0001, other_script,
  is_legacy, is_multisig,
}
use bitcoinlib.Transaction.Weight.{ceil_quarter}
use bitcoinlib.Transaction.Raw.{is_empty}

-- An input with the number of its signatures and keys, the number of signatures that it needs, and
-- whether its keys are compressed.
pub record SizedInput : Type 0 where
  pub input : Input
  pub signatures : ℕ
  pub sigs_required : ℕ
  pub keys : ℕ
  pub compressed : Bool

abbrev pub is_p2sh_segwit : WitnessType → Bool
is_p2sh_segwit legacy = false
is_p2sh_segwit segwit = false
is_p2sh_segwit p2sh_segwit = true

-- `sum([1 + len(w) for w in inp.witnesses])`
abbrev witness_sizes : List Bytes → ℕ
witness_sizes [] = 0
witness_sizes (w ∷ ws) = 1 + length w + witness_sizes ws

-- The size of an unlocking script that is not complete, by its type.
unfoldable pub expected_script_size : SizedInput → ScriptType → Bool → Result ℕ
expected_script_size s sig_pubkey nested =
    ok (107 + (if s.compressed then 0 else 33) + (if nested then 24 else 0))
expected_script_size s p2sh_multisig nested =
    ok (9 + s.keys * 34 + s.sigs_required * 72 + (if nested then 17 * s.sigs_required else 0))
expected_script_size s signature_only nested = ok (9 + 72)
expected_script_size s coinbase_script nested = err transaction_error
expected_script_size s nonstandard_0001 nested = err transaction_error
expected_script_size s other_script nested = err transaction_error

abbrev pub is_complete : SizedInput → Bool
is_complete s = not (is_empty s.input.unlocking_script) && leb s.sigs_required s.signatures

unfoldable pub script_size : SizedInput → Result ℕ
unfolding expected_script_size
script_size s =
    let nested = is_p2sh_segwit s.input.witness_type in
    if is_complete s
    then (varstr s.input.unlocking_script >>= λ script.
        ok (length script + (if nested then witness_sizes s.input.witnesses else 0)))
    else expected_script_size s s.input.script_type nested

-- What the inputs add to the size, and to the size of the witnesses.
unfoldable pub inputs_size : List SizedInput → Result (ℕ × ℕ)
unfolding script_size
inputs_size [] = ok (0, 0)
inputs_size (s ∷ ss) = do
  scr_size ← script_size s
  (est_size, witness_size) ← inputs_size ss
  ok (
    40 + (if is_legacy s.input.witness_type then 0 else 1) + scr_size + est_size,
    scr_size + witness_size,
  )

-- `if outp.lock_script`, with a script that is not empty in its place.
unfoldable pub output_size : Output → Result ℕ
output_size o =
    if is_empty o.lock_script
    then err transaction_error
    else (varstr o.lock_script >>= λ script. ok (8 + length script))

unfoldable pub outputs_size : List Output → Result ℕ
unfolding output_size
outputs_size [] = ok 0
outputs_size (o ∷ os) = do size ← output_size o; rest ← outputs_size os; ok (size + rest)

-- The size of a change output.
unfoldable pub change_size : List SizedInput → ℕ
change_size [] = 8 + 26
change_size (s ∷ ss) =
    let is_multisig = is_multisig s.input.script_type in
    8
    + (if is_legacy s.input.witness_type
        then (if is_multisig then 24 else 26)
        else if is_p2sh_segwit s.input.witness_type
        then 24
        else if is_multisig
        then 33
        else 23)

-- With no inputs, one is assumed.
abbrev pub or_assumed : List SizedInput → ℕ × ℕ → ℕ × ℕ
or_assumed [] sizes = (125, 72)
or_assumed (s ∷ ss) sizes = sizes

-- `math.ceil((((est_size - witness_size) * 3 + est_size) / 4) - 1.5)`
abbrev pub discounted : ℕ → ℕ → ℤ
discounted est_size witness_size = ceil_quarter (sub_ℕ (est_size * 4) (witness_size * 3 + 6))

-- The attributes `size` and `vsize` that it sets; it returns the second.
unfoldable pub estimate_size : WitnessType → List SizedInput → List Output → ℕ → Result (ℕ × ℤ)
unfolding inputs_size outputs_size change_size
estimate_size witness_type inputs outputs number_of_change_outputs = do
  sizes ← inputs_size inputs
  outputs_est ← outputs_size outputs
  let (inputs_est, scripts) = or_assumed inputs sizes
  let est_size =
      12
      + (if is_legacy witness_type then 0 else 2)
      + inputs_est
      + outputs_est
      + number_of_change_outputs * change_size inputs
  let vsize = if is_legacy witness_type then pos est_size else discounted est_size (2 + scripts)
  ok (est_size, vsize)

abbrev sum_inputs : List Input → ℕ
sum_inputs [] = 0
sum_inputs (i ∷ is) = i.value + sum_inputs is

abbrev sum_outputs : List Output → ℤ
sum_outputs [] = pos 0
sum_outputs (o ∷ os) = o.value +ℤ sum_outputs os

-- The fee per kilobyte, which is a quotient of floats, is left out.
unfoldable pub update_totals : Transaction → Transaction
update_totals t =
    let output_total = sum_outputs t.outputs in
    let input_total = if t.coinbase then output_total else pos (sum_inputs t.inputs) in
    let fee = if int_eq input_total (pos 0) then t.fee else some (input_total -ℤ output_total) in
    record t { input_total = input_total; output_total = output_total; fee = fee }

-- `fee_of_size` is `int(vsize / 1000.0 * fee_per_kb)`; the fee per kilobyte, 0 for None, stays between
-- the bounds of the network. The size is known.
unfoldable pub calculate_fee : (ℕ → ℕ → ℕ) → ℕ → ℕ → ℕ → ℕ → Result ℕ
calculate_fee fee_of_size fee_min fee_max vsize fee_per_kb =
    let bounded =
      if ltb fee_per_kb fee_min
      then fee_min
      else if ltb fee_max fee_per_kb
      then fee_max
      else fee_per_kb in
    if fee_per_kb == 0 then err transaction_error else ok (fee_of_size vsize bounded)

-- The types of locking scripts; `other_type` is any other name.
pub data LockingType : Type 0 where
  p2pkh p2sh p2wpkh p2wsh p2pk other_type : LockingType

unfoldable pub get_unlocking_script_type : LockingType → WitnessType → Bool → Result ScriptType
get_unlocking_script_type p2pkh witness_type multisig = ok sig_pubkey
get_unlocking_script_type p2wpkh witness_type multisig = ok sig_pubkey
get_unlocking_script_type p2wsh witness_type multisig = ok p2sh_multisig
get_unlocking_script_type p2sh witness_type multisig =
    ok (if multisig then p2sh_multisig else sig_pubkey)
get_unlocking_script_type p2pk witness_type multisig =
    ok (if is_legacy witness_type && multisig then p2sh_multisig else signature_only)
get_unlocking_script_type other_type witness_type multisig =
    if is_legacy witness_type && multisig then ok p2sh_multisig else err transaction_error
