-- ===== src/Transaction/Parse/Analysis.antt =====
-- bitcoinlib/transactions.py, the analysis of the scripts in `Transaction.parse_bytesio` and in the
-- constructors of inputs and outputs, which may refuse a transaction. An analysis is
-- `Script.parse_bytes`, a parameter: the arguments strict and is_locking and the script give whether
-- its only type is p2tr_unlock, or an exception. The source analyses a script as soon as it is read,
-- so that where several parts are refused the exception may be another one.
use bitcoinlib.Common.{
  List, [], ◌∷◌, Bool, true, false, not, ◌&&◌, ◌||◌, Option, Result, ok, transaction_error, ◌>>=◌,
  ◌>>◌, guard, if◌then◌else◌, bytes_eq, replicate,
}
use bitcoinlib.Encoding.Stream.{Stream}
use bitcoinlib.Transaction.{Bytes}
use bitcoinlib.Transaction.Raw.{is_empty}
use bitcoinlib.Transaction.Parse.{InputArguments, OutputArguments, Parsed, parse_bytesio}

module _ (analyse : Bool → Bool → Bytes → Result Bool) where
  -- Neither an empty script nor that of a coinbase is analysed.
  unfoldable pub analyse_input : Bool → InputArguments → Result (Unit {0})
  analyse_input strict i =
      if is_empty i.unlocking_script || bytes_eq i.prev_txid (replicate 32 0)
      then ok tt
      else (analyse strict false i.unlocking_script >>= λ taproot. ok tt)

  unfoldable pub analyse_inputs : Bool → List InputArguments → Result (Unit {0})
  unfolding analyse_input
  analyse_inputs strict [] = ok tt
  analyse_inputs strict (i ∷ is) = do analyse_input strict i; analyse_inputs strict is

  -- In strict mode an output must have a script.
  unfoldable pub analyse_output : Bool → OutputArguments → Result (Unit {0})
  analyse_output strict o = do
    guard (not (strict && is_empty o.lock_script)) transaction_error
    taproot ← analyse strict true o.lock_script
    ok tt

  unfoldable pub analyse_outputs : Bool → List OutputArguments → Result (Unit {0})
  unfolding analyse_output
  analyse_outputs strict [] = ok tt
  analyse_outputs strict (o ∷ os) = do analyse_output strict o; analyse_outputs strict os

  -- Behind the unlocking of a taproot output no witness is analysed.
  unfoldable pub analyse_witnesses : Bool → List Bytes → Result (Unit {0})
  analyse_witnesses strict [] = ok tt
  analyse_witnesses strict (w ∷ ws) =
      let rest = analyse_witnesses strict ws in
      analyse strict false w >>= λ taproot. if taproot then ok tt else rest

  unfoldable pub analyse_all_witnesses : Bool → List (List Bytes) → Result (Unit {0})
  unfolding analyse_witnesses
  analyse_all_witnesses strict [] = ok tt
  analyse_all_witnesses strict (ws ∷ wss) = do
    analyse_witnesses strict ws
    analyse_all_witnesses strict wss

  unfoldable pub analyse_parsed : Bool → Parsed → Result (Unit {0})
  unfolding analyse_inputs analyse_outputs analyse_all_witnesses
  analyse_parsed strict parsed = do
    analyse_inputs strict parsed.inputs
    analyse_outputs strict parsed.outputs
    analyse_all_witnesses strict parsed.witnesses

  module _ (sha256 : Bytes → Bytes) where
    -- The transaction is read, and its scripts are analysed.
    unfoldable pub parse_analysed :
        Bool → Bytes → Stream → Result ((Parsed × Bytes × Option Bytes) × Stream)
    unfolding parse_bytesio analyse_parsed
    parse_analysed strict raw s = do
      (found, t) ← parse_bytesio sha256 strict raw s
      analyse_parsed strict found.0
      ok (found, t)
