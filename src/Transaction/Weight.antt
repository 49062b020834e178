-- ===== src/Transaction/Weight.antt =====
-- bitcoinlib/transactions.py, `Transaction.witness_data` and `Transaction.calc_weight_units`.
use bitcoinlib.Common.{
  ℕ, suc, ◌+◌, ◌*◌, ◌/◌, List, [], ◌∷◌, ◌++◌, Bool, ◌&&◌, Option, none, some, Result, ok, ◌>>=◌,
  ltb, ◌==◌, if◌then◌else◌, length,
}
use bitcoinlib.Common.Integer.{ℤ, pos, negsuc, sub_ℕ}
use bitcoinlib.Encoding.VarInt.{int_to_varbyteint, varstr}
use bitcoinlib.Transaction.{Bytes, Input, Transaction, is_segwit}

-- `b''.join([bytes(varstr(w)) for w in i.witnesses])`
unfoldable pub join_witnesses : List Bytes → Result Bytes
join_witnesses [] = ok []
join_witnesses (w ∷ ws) = do code ← varstr w; rest ← join_witnesses ws; ok (code ++ rest)

-- The count of the witnesses of an input, and the witnesses.
unfoldable pub counted_witnesses : List Bytes → Result Bytes
unfolding join_witnesses
counted_witnesses ws = do
  count ← int_to_varbyteint (length ws)
  witnesses ← join_witnesses ws
  ok (count ++ witnesses)

unfoldable pub witness_data : List Input → Result Bytes
unfolding counted_witnesses
witness_data [] = ok []
witness_data (i ∷ is) = do
  code ← counted_witnesses i.witnesses
  rest ← witness_data is
  ok (code ++ rest)

-- `math.ceil(wu / 4)`, which is exact below 2 ^ 53
abbrev pub ceil_quarter : ℤ → ℤ
ceil_quarter (pos n) = pos ((n + 3) / 4)
ceil_quarter (negsuc n) = sub_ℕ 0 (suc n / 4)

-- What is taken off four times the size, for a transaction of `witness_size` bytes of witnesses.
abbrev pub discount : Bool → ℕ → ℕ
discount segwit witness_size = if segwit && ltb 1 witness_size then 6 + witness_size * 3 else 0

unfoldable pub calc_weight_units : Transaction → Result (Option ℤ × Transaction)
unfolding witness_data
calc_weight_units t = if t.size == 0 then ok (none, t) else (do
  witnesses ← witness_data t.inputs
  let wu = sub_ℕ (t.size * 4) (discount (is_segwit t.witness_type) (length witnesses))
  ok (some wu, record t { vsize = ceil_quarter wu }))
