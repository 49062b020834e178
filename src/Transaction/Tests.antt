-- ===== src/Transaction/Tests.antt =====
-- Runs of the transaction code of bitcoinlib/transactions.py. The hash of the tests keeps the first
-- 32 bytes.
use bitcoinlib.Common.{
  ◌≡◌, refl, [], ◌∷◌, ◌++◌, Bool, true, false, Result, ◌>>=◌, script_error, none, some, ok, err,
  transaction_error, replicate, take,
}
use bitcoinlib.Common.Integer.{pos, negsuc}
use bitcoinlib.Encoding.Bytes.{little_digits}
use bitcoinlib.Encoding.VarInt.{int_to_varbyteint, varstr}
use bitcoinlib.Transaction.{Bytes, Input, Output, Transaction, segwit, sig_pubkey}
use bitcoinlib.Transaction.Raw.{raw, write_outputs}
use bitcoinlib.Transaction.Parse.{parse_output}
use bitcoinlib.Encoding.Hex.{to_bytes}
use bitcoinlib.Script.Wire.{read_command}

abbrev pub signed_input : Input
signed_input = record {
  prev_txid = replicate 32 7;
  output_n = 0 ∷ 0 ∷ 0 ∷ 1 ∷ [];
  unlocking_script = [];
  locking_script = 118 ∷ 169 ∷ [];
  redeemscript = [];
  script_type = sig_pubkey;
  witness_type = segwit;
  witnesses = (1 ∷ 1 ∷ []) ∷ (2 ∷ 9 ∷ 9 ∷ []) ∷ [];
  sequence = 0xffff_fffd;
  index_n = 0;
  value = 5000;
}

abbrev pub payment : Output
payment = record { value = pos 4000; lock_script = 0 ∷ 1 ∷ 5 ∷ []; change = false }

abbrev pub spend : Transaction
spend = record {
  version = 0 ∷ 0 ∷ 0 ∷ 2 ∷ [];
  version_int = 2;
  inputs = signed_input ∷ [];
  outputs = payment ∷ [];
  locktime = 600000;
  witness_type = segwit;
  coinbase = false;
  size = 100;
  vsize = pos 80;
  input_total = pos 5000;
  output_total = pos 4000;
  fee = some (pos 1000);
}

abbrev spend_bytes : Bytes
spend_bytes =
    (2 ∷ 0 ∷ 0 ∷ 0 ∷ 0 ∷ 1 ∷ 1 ∷ [])
    ++ (replicate 32 7
        ++ (1 ∷ 0 ∷ 0 ∷ 0 ∷ 0 ∷ 253 ∷ 255 ∷ 255 ∷ 255 ∷ 1 ∷ 160 ∷ 15 ∷ 0 ∷ 0 ∷ 0 ∷ 0 ∷ 0 ∷ 0 ∷ 3 ∷ 0
            ∷ 1 ∷ 5 ∷ 2 ∷ 2 ∷ 1 ∷ 1 ∷ 3 ∷ 2 ∷ 9 ∷ 9 ∷ 192 ∷ 39 ∷ 9 ∷ 0 ∷ []))

-- A value below 0 is refused.
write_negative :
    raw none 1 segwit (record spend { outputs = record payment { value = negsuc 0 } ∷ [] })
    ≡ err transaction_error
unfolding raw int_to_varbyteint varstr little_digits
write_negative = refl

-- An output whose script is the byte 0 is written like one with no script.
write_zero_script :
    write_outputs (record payment { lock_script = 0 ∷ [] } ∷ [])
    ≡ write_outputs (record payment { lock_script = [] } ∷ [])
unfolding write_outputs int_to_varbyteint varstr little_digits
write_zero_script = refl

-- A lock script that spells two bytes is replaced by them when it is read.
parse_hex_script :
    parse_output 0 (record { buffer = replicate 8 0 ++ 4 ∷ 49 ∷ 50 ∷ 51 ∷ 52 ∷ []; position = 0 })
    ≡ ok (
      record { value = 0; lock_script = 18 ∷ 52 ∷ []; output_n = 0 },
      record { buffer = replicate 8 0 ++ 4 ∷ 49 ∷ 50 ∷ 51 ∷ 52 ∷ []; position = 13 },
    )
unfolding parse_output to_bytes bitcoinlib.Transaction.Reader.◌>>=◌
    bitcoinlib.Transaction.Reader.read_bytes bitcoinlib.Transaction.Reader.read_count
    bitcoinlib.Transaction.Reader.return bitcoinlib.Encoding.VarInt.read_varbyteint
parse_hex_script = refl

abbrev short_hash : Bytes → Bytes
short_hash = take 32

-- An analysis that reads the first command of a script.
abbrev first_command : Bool → Bool → Bytes → Result Bool
first_command strict is_locking [] = ok false
first_command strict is_locking (ch ∷ script) = read_command ch script >>= λ command. ok false

-- A witness that is cut short is refused.
analyse_malformed : first_command true false (48 ∷ 1 ∷ []) ≡ err script_error
unfolding read_command
analyse_malformed = refl
