-- ===== src/Transaction/Parse.antt =====
-- bitcoinlib/transactions.py, `Input.parse`, `Output.parse` and `Transaction.parse_bytesio`: what the
-- constructors are called with, after the conversion `to_bytes` with which they begin, and the
-- witnesses that are read for each input. The analysis of the scripts is in Parse/Analysis.
pub mod Analysis
use bitcoinlib.Common.{
  ℕ, zero, suc, ◌+◌, ◌-◌, List, [], ◌∷◌, reverse, Bool, false, not, ◌&&◌, ◌||◌, Option, none, some,
  ok, transaction_error, ◌==◌, if◌then◌else◌, length, bytes_eq, replicate,
}
use bitcoinlib.Encoding.Bytes.{from_big}
use bitcoinlib.Encoding.Hex.{to_bytes}
use bitcoinlib.Encoding.Stream.{Stream, read, seek}
use bitcoinlib.Transaction.{
  Bytes, WitnessType, legacy, segwit, ScriptType, nonstandard_0001, is_segwit,
}
use bitcoinlib.Transaction.Raw.{is_empty}
use bitcoinlib.Transaction.Reader.{Reader, ◌>>=◌, ◌>>◌, return, require, read_bytes, read_count}

-- The arguments of `Input(…)` and `Output(…)`, of which the transaction ID and the scripts are
-- converted already; `script_type` is `none` where it is left to the
-- constructor.
pub record InputArguments : Type 0 where
  pub prev_txid : Bytes
  pub output_n : Bytes
  pub unlocking_script : Bytes
  pub witness_type : WitnessType
  pub sequence : Bytes
  pub index_n : ℕ
  pub script_type : Option ScriptType

pub record OutputArguments : Type 0 where
  pub value : ℕ
  pub lock_script : Bytes
  pub output_n : ℕ

-- The arguments of `Transaction(…)`, with the witnesses of the inputs in order.
pub record Parsed : Type 0 where
  pub version : Bytes
  pub flag : Option Bytes
  pub witness_type : WitnessType
  pub inputs : List InputArguments
  pub outputs : List OutputArguments
  pub witnesses : List (List Bytes)
  pub locktime : ℕ
  pub coinbase : Bool
  pub output_total : ℕ

unfoldable pub parse_input : WitnessType → ℕ → Reader InputArguments
parse_input witness_type n = do
  prev ← read_bytes 32
  require (length prev == 32) transaction_error
  output_n ← read_bytes 4
  script_size ← read_count
  script ← read_bytes script_size
  sequence ← read_bytes 4
  let nonstandard = (script_size == 1) && bytes_eq script (0 ∷ [])
  return (record {
    prev_txid = to_bytes (reverse prev);
    output_n = reverse output_n;
    unlocking_script = to_bytes script;
    witness_type = if is_segwit witness_type && (script_size == 0) then segwit else legacy;
    sequence = sequence;
    index_n = n;
    script_type = if nonstandard then some nonstandard_0001 else none;
  })

-- `for n in range(0, n_inputs)`: `left` inputs are left to read, the next has number `n`.
unfoldable pub parse_inputs : WitnessType → ℕ → ℕ → Reader (List InputArguments)
unfolding parse_input
parse_inputs witness_type zero n = return []
parse_inputs witness_type (suc left) n = do
  i ← parse_input witness_type n
  is ← parse_inputs witness_type left (n + 1)
  return (i ∷ is)

unfoldable pub parse_output : ℕ → Reader OutputArguments
parse_output n = do
  value ← read_bytes 8
  script_size ← read_count
  script ← read_bytes script_size
  return (record { value = from_big (reverse value); lock_script = to_bytes script; output_n = n })

unfoldable pub parse_outputs : ℕ → ℕ → Reader (List OutputArguments)
unfolding parse_output
parse_outputs zero n = return []
parse_outputs (suc left) n = do o ← parse_output n; os ← parse_outputs left (n + 1); return (o ∷ os)

-- A witness of size 0 is read as one byte 0.
unfoldable pub parse_witness : Reader Bytes
parse_witness = do
  item_size ← read_count
  if item_size == 0 then return (0 ∷ []) else read_bytes item_size

unfoldable pub parse_items : ℕ → Reader (List Bytes)
unfolding parse_witness
parse_items zero = return []
parse_items (suc left) = do w ← parse_witness; ws ← parse_items left; return (w ∷ ws)

-- The witnesses of one input.
unfoldable pub parse_counted : Reader (List Bytes)
unfolding parse_items
parse_counted = do n_items ← read_count; parse_items n_items

-- The witnesses of the inputs, one round for each input.
unfoldable pub parse_witnesses : List InputArguments → Reader (List (List Bytes))
unfolding parse_counted
parse_witnesses [] = return []
parse_witnesses (i ∷ is) = do ws ← parse_counted; wss ← parse_witnesses is; return (ws ∷ wss)

-- `rawtx.seek(-1, 1)`
unfoldable pub put_back : Reader (Option Bytes)
put_back s = ok (none, seek (s.position - 1) s)

-- The flag behind a byte 0; any other byte is put back.
unfoldable pub parse_flag : Reader (Option Bytes)
unfolding put_back
parse_flag = do
  marker ← read_bytes 1
  if bytes_eq marker (0 ∷ []) then (read_bytes 1 >>= λ flag. return (some flag)) else put_back

abbrev pub flagged_type : Option Bytes → WitnessType
flagged_type none = legacy
flagged_type (some flag) = if bytes_eq flag (1 ∷ []) then segwit else legacy

abbrev pub any_null : List InputArguments → Bool
any_null [] = false
any_null (i ∷ is) = bytes_eq i.prev_txid (replicate 32 0) || any_null is

abbrev pub total_value : List OutputArguments → ℕ
total_value [] = 0
total_value (o ∷ os) = o.value + total_value os

-- What stands behind the outputs.
unfoldable pub parse_end :
    Bool → Bytes → Option Bytes → List InputArguments → List OutputArguments → Reader Parsed
unfolding parse_witnesses
parse_end strict version flag inputs outputs = do
  require (not (is_empty outputs)) transaction_error
  witnesses ← if is_segwit (flagged_type flag) then parse_witnesses inputs else return []
  locktime ← read_bytes 4
  require ((length locktime == 4) || not strict) transaction_error
  return (record {
    version = reverse version;
    flag = flag;
    witness_type = flagged_type flag;
    inputs = inputs;
    outputs = outputs;
    witnesses = witnesses;
    locktime = from_big (reverse locktime);
    coinbase = any_null inputs;
    output_total = total_value outputs;
  })

-- What stands behind the version and the flag.
unfoldable pub parse_rest : Bool → Bytes → Option Bytes → Reader Parsed
unfolding parse_inputs parse_outputs parse_end
parse_rest strict version flag = do
  n_inputs ← read_count
  inputs ← parse_inputs (flagged_type flag) n_inputs 0
  n_outputs ← read_count
  outputs ← parse_outputs n_outputs 0
  parse_end strict version flag inputs outputs

unfoldable pub parse_transaction : Bool → Reader Parsed
unfolding parse_flag parse_rest
parse_transaction strict = do
  version ← read_bytes 4
  flag ← parse_flag
  parse_rest strict version flag

-- `raw_bytes` is empty where the caller has only the stream: the bytes are then read again.
unfoldable pub parsed_bytes : Bytes → ℕ → Stream → Bytes × Stream
parsed_bytes [] start s = read (s.position - start) (seek start s)
parsed_bytes (b ∷ bs) start s = (b ∷ bs, s)

module _ (sha256 : Bytes → Bytes) where
  unfoldable pub double_sha256 : Bytes → Bytes
  double_sha256 s = sha256 (sha256 s)

  -- The ID is left to the constructor where the transaction has a flag for witnesses.
  abbrev pub parsed_txid : Parsed → Bytes → Option Bytes
  parsed_txid parsed bytes =
      if is_segwit parsed.witness_type then none else some (reverse (double_sha256 bytes))

  -- The arguments of `Transaction(…)`, the raw bytes and the transaction ID.
  unfoldable pub parse_bytesio : Bool → Bytes → Reader (Parsed × Bytes × Option Bytes)
  unfolding parse_transaction parsed_bytes double_sha256
  parse_bytesio strict raw s =
      (parse_transaction strict >>= λ parsed t.
      let (bytes, t') = parsed_bytes raw s.position t in
      ok ((parsed, bytes, parsed_txid parsed bytes), t'))
        s
