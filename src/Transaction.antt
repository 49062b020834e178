-- ===== src/Transaction.antt =====
-- bitcoinlib/transactions.py: the fields of `Input`, `Output` and `Transaction` that their
-- serialization, their size and their totals depend on. What the constructors and
-- `Input.update_scripts` derive from scripts and keys is not modelled.
pub mod Reader
pub mod Moves
pub mod Advance
pub mod Weight
pub mod Raw
pub mod Size
pub mod Parse
pub mod RoundTrip
pub mod Locktime
pub mod Sighash
pub mod Fee
mod Tests
use bitcoinlib.Common.{ℕ, List, Bool, true, false, Option}
use bitcoinlib.Common.Integer.{ℤ}

abbrev pub Bytes : Type 0
Bytes = List ℕ

pub data WitnessType : Type 0 where
  legacy segwit p2sh_segwit : WitnessType

-- The script types that the code below tells apart: `signature_only` is named signature, and
-- `other_script` is any other name.
pub data ScriptType : Type 0 where
  sig_pubkey p2sh_multisig signature_only coinbase_script nonstandard_0001 other_script : ScriptType

abbrev pub is_legacy : WitnessType → Bool
is_legacy legacy = true
is_legacy segwit = false
is_legacy p2sh_segwit = false

abbrev pub is_segwit : WitnessType → Bool
is_segwit legacy = false
is_segwit segwit = true
is_segwit p2sh_segwit = false

abbrev pub is_multisig : ScriptType → Bool
is_multisig p2sh_multisig = true
is_multisig sig_pubkey = false
is_multisig signature_only = false
is_multisig coinbase_script = false
is_multisig nonstandard_0001 = false
is_multisig other_script = false

abbrev pub is_nonstandard : ScriptType → Bool
is_nonstandard nonstandard_0001 = true
is_nonstandard sig_pubkey = false
is_nonstandard signature_only = false
is_nonstandard p2sh_multisig = false
is_nonstandard coinbase_script = false
is_nonstandard other_script = false

abbrev pub is_coinbase : ScriptType → Bool
is_coinbase coinbase_script = true
is_coinbase sig_pubkey = false
is_coinbase signature_only = false
is_coinbase p2sh_multisig = false
is_coinbase nonstandard_0001 = false
is_coinbase other_script = false

-- `prev_txid` and `output_n` are in the order in which they are shown, the reverse of the wire's.
pub record Input : Type 0 where
  pub prev_txid : Bytes
  pub output_n : Bytes
  pub unlocking_script : Bytes
  pub locking_script : Bytes
  pub redeemscript : Bytes
  pub script_type : ScriptType
  pub witness_type : WitnessType
  pub witnesses : List Bytes
  pub sequence : ℕ
  pub index_n : ℕ
  pub value : ℕ

-- Python code may change a value, so that it is below 0.
pub record Output : Type 0 where
  pub value : ℤ
  pub lock_script : Bytes
  pub change : Bool

-- `size` and `vsize` are 0 where Python has None or 0.
pub record Transaction : Type 0 where
  pub version : Bytes
  pub version_int : ℕ
  pub inputs : List Input
  pub outputs : List Output
  pub locktime : ℕ
  pub witness_type : WitnessType
  pub coinbase : Bool
  pub size : ℕ
  pub vsize : ℤ
  pub input_total : ℤ
  pub output_total : ℤ
  pub fee : Option ℤ
