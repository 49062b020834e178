-- ===== src/Script/Wire/Tests.antt =====
-- Runs of `Script.serialize`, and of the step that reads a command, of bitcoinlib/scripts.py.
use bitcoinlib.Common.{
  ℕ, ◌≡◌, refl, List, [], ◌∷◌, ◌++◌, map, replicate, ok, err, script_error, arith,
}
use bitcoinlib.Encoding.Bytes.{little_digits}
use bitcoinlib.Script.Command.{Command, code, item, single, nested}
use bitcoinlib.Script.Wire.{serialize, data_pack, read_command}
use bitcoinlib.Script.Wire.RoundTrip.{read_command-data_pack}

abbrev commands : List Command
commands = code 118 ∷ item (1 ∷ 2 ∷ 3 ∷ []) ∷ code 0 ∷ []

serialize_opcodes : serialize (map single commands) ≡ ok (118 ∷ 3 ∷ 1 ∷ 2 ∷ 3 ∷ 0 ∷ [])
unfolding serialize little_digits
serialize_opcodes = refl

serialize_nested : serialize (nested (code 81 ∷ code 174 ∷ []) ∷ []) ≡ ok (2 ∷ 81 ∷ 174 ∷ [])
unfolding serialize little_digits
serialize_nested = refl

read_opcode : read_command 118 (3 ∷ []) ≡ ok (code 118, 3 ∷ [])
unfolding read_command
read_opcode = refl

read_malformed : read_command 3 (1 ∷ 2 ∷ []) ≡ err script_error
unfolding read_command
read_malformed = refl

read_command-data_pack_example :
    (ch : ℕ) × (bs : List ℕ) × (data_pack (replicate 100 7) ≡ ok (ch ∷ bs))
    × ((rest : List ℕ) → read_command ch (bs ++ rest) ≡ ok (item (replicate 100 7), rest))
read_command-data_pack_example =
    read_command-data_pack (replicate 100 7) (omega arith) (omega arith)
