-- ===== src/Script/Wire.antt =====
-- bitcoinlib/scripts.py: `data_pack`, `Script.serialize` and `Script.serialize_list`, and the step of
-- the loop of `Script.parse_bytesio` that reads an opcode and the data behind it, with `strict` set.
-- The loop, and what it finds out about the data (keys, signatures, scripts inside a script), is no
-- part of it.
pub mod RoundTrip
mod Tests
use bitcoinlib.Common.{
  ℕ, zero, suc, ◌+◌, List, [], ◌∷◌, ◌++◌, Option, none, some, Result, ok, err, script_error,
  value_error, type_error, ◌>>=◌, ◌>>◌, guard, ltb, leb, ◌==◌, ◌&&◌, if◌then◌else◌, length, take,
  drop,
}
use bitcoinlib.Encoding.Bytes.{from_little, to_little}
use bitcoinlib.Script.Stack.{Bytes}
use bitcoinlib.Script.Command.{Command, code, item, Entry, single, nested}

unfoldable pub data_pack : Bytes → Result Bytes
data_pack data_ =
    if leb (length data_) 75
    then (to_little 1 (length data_) >>= λ size. ok (size ++ data_))
    else if leb (length data_) 255
    then (to_little 1 (length data_) >>= λ size. ok (0x4c ∷ (size ++ data_)))
    else (to_little 2 (length data_) >>= λ size. ok (0x4d ∷ (size ++ data_)))

-- `bytes(cmd)` of a list: the numbers in it, below 256.
nested_bytes : List Command → Result Bytes
nested_bytes [] = ok []
nested_bytes (code n ∷ cs) = do guard (ltb n 256) value_error; bs ← nested_bytes cs; ok (n ∷ bs)
nested_bytes (item d ∷ cs) = err type_error

-- What one element of `self.commands` adds.
unfoldable pub serialize_entry : Entry → Result Bytes
unfolding data_pack nested_bytes
serialize_entry (single (code n)) = do guard (ltb n 256) value_error; ok (n ∷ [])
serialize_entry (single (item d)) = data_pack d
serialize_entry (nested cs) = nested_bytes cs >>= data_pack

unfoldable pub serialize : List Entry → Result Bytes
unfolding serialize_entry
serialize [] = ok []
serialize (cmd ∷ commands) = do
  raw ← serialize_entry cmd
  rest ← serialize commands
  ok (raw ++ rest)

-- The length of the data behind an opcode, 0 where there is none, and the bytes that follow it.
unfoldable pub data_length : ℕ → List ℕ → ℕ × List ℕ
data_length ch rest =
    if leb 1 ch && leb ch 75
    then (ch, rest)
    else if ch == 76
    then (from_little (take 1 rest), drop 1 rest)
    else if ch == 77
    then (from_little (take 2 rest), drop 2 rest)
    else (0, rest)

-- An opcode whose byte is read, or the data that stands behind it, and the bytes that follow.
unfoldable pub read_command : ℕ → List ℕ → Result (Command × List ℕ)
unfolding data_length
read_command ch script =
    let (size, rest) = data_length ch script in
    if size == 0
    then ok (code ch, rest)
    else if length (take size rest) == size
    then ok (item (take size rest), drop size rest)
    else err script_error
