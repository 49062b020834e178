-- ===== src/Block/Serialize.antt =====
-- bitcoinlib/blocks.py, `Block.serialize`.
use bitcoinlib.Common.{
  List, [], ◌∷◌, ◌++◌, reverse, not, ◌&&◌, none, Result, ok, value_error, ◌>>=◌, ◌>>◌, guard, ltb,
  ◌==◌, length,
}
use bitcoinlib.Encoding.Bytes.{to_little}
use bitcoinlib.Encoding.VarInt.{int_to_varbyteint}
use bitcoinlib.Transaction.{Transaction}
use bitcoinlib.Transaction.Raw.{raw}
use bitcoinlib.Block.{Bytes, Block}

-- `t.raw()` of each transaction, which keeps its size.
unfoldable pub write_transactions : List Transaction → Result (Bytes × List Transaction)
write_transactions [] = ok ([], [])
write_transactions (t ∷ ts) = do
  (code, kept) ← raw none 1 t.witness_type t
  (codes, others) ← write_transactions ts
  ok (code ++ codes, kept ∷ others)

-- The header, whose length is all that is tested.
unfoldable pub write_header : Block Transaction → Result Bytes
write_header b = do
  time ← to_little 4 b.time
  let rb =
      reverse b.version
      ++ (reverse b.prev_block
          ++ (reverse b.merkle_root ++ (time ++ (reverse b.bits ++ reverse b.nonce))))
  guard (length rb == 80) value_error
  ok rb

unfoldable pub serialize_block : Block Transaction → Result (Bytes × Block Transaction)
unfolding write_header write_transactions
serialize_block b = do
  guard ((length b.transactions == b.tx_count) && not (ltb (length b.transactions) 1)) value_error
  rb ← write_header b
  count ← int_to_varbyteint (length b.transactions)
  (codes, kept) ← write_transactions b.transactions
  ok (rb ++ (count ++ codes), record b { transactions = kept })
