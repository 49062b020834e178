-- ===== src/Transaction/RoundTrip/Analysed.antt =====
-- `Transaction.raw` and then `Transaction.parse_bytesio` of bitcoinlib/transactions.py, with the
-- analysis of the scripts.
use bitcoinlib.Common.{◌≡◌, List, Bool, true, false, ◌&&◌, Result, ok, All}
use bitcoinlib.Encoding.Stream.{Stream}
use bitcoinlib.Transaction.{Bytes, Transaction}
use bitcoinlib.Transaction.Raw.{is_empty}
use bitcoinlib.Transaction.Parse.{InputArguments, OutputArguments, Parsed}

module _ (analyse : Bool → Bool → Bytes → Result Bool) (strict : Bool) where
  -- The analysis of a script raises nothing.
  abbrev pub IsAccepted : Bool → Bytes → Type 0
  IsAccepted is_locking script = (taproot : Bool) × (analyse strict is_locking script ≡ ok taproot)

  abbrev pub IsAcceptedInput : InputArguments → Type 0
  IsAcceptedInput i = IsAccepted false i.unlocking_script

  -- In strict mode the script of an output is not empty.
  abbrev pub IsAcceptedOutput : OutputArguments → Type 0
  IsAcceptedOutput o = (strict && is_empty o.lock_script ≡ false) × IsAccepted true o.lock_script

  abbrev pub AreAccepted : List Bytes → Type 0
  AreAccepted ws = All (IsAccepted false) ws

  -- Nothing in a transaction is refused.
  pub record IsAcceptable (parsed : Parsed) : Type 0 where
    pub inputs : All IsAcceptedInput parsed.inputs
    pub outputs : All IsAcceptedOutput parsed.outputs
    pub witnesses : All AreAccepted parsed.witnesses
