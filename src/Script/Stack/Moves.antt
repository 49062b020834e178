-- ===== src/Script/Stack/Moves.antt =====
-- bitcoinlib/scripts.py, `class Stack`: the operations that move, copy and drop items, and the
-- ones that compare or measure them as byte strings.
use bitcoinlib.Common.{
  ℕ, zero, suc, ◌+◌, [], ◌∷◌, ◌++◌, reverse, Bool, true, false, value_error, ok, get_elem?, take,
  drop, length, if◌then◌else◌, bytes_eq,
}
use bitcoinlib.Common.Integer.{ℤ, pos, negsuc}
use bitcoinlib.Script.Num.{encode_num}
use bitcoinlib.Script.Stack.{
  Bytes, Method, ◌>>=◌, ◌>>◌, return, pop, push, peek_at, pop_at, from_option, require,
  pop_as_number, op_verify, truth,
}

unfoldable pub op_nop : Method Bool
op_nop = return true

unfoldable pub op_return : Method Bool
op_return = return false

unfoldable pub op_2drop : Method Bool
op_2drop = do pop; pop; return true

unfoldable pub op_2dup : Method Bool
op_2dup = do require 2 value_error; x ← peek_at 1; y ← peek_at 0; push x; push y; return true

unfoldable pub op_3dup : Method Bool
op_3dup = do
  require 3 value_error
  x ← peek_at 2
  y ← peek_at 1
  z ← peek_at 0
  push x
  push y
  push z
  return true

unfoldable pub op_2over : Method Bool
op_2over = do require 4 value_error; x ← peek_at 3; y ← peek_at 2; push x; push y; return true

unfoldable pub op_2rot : Method Bool
op_2rot = do x ← pop_at 5; y ← pop_at 4; push x; push y; return true

-- `self[-2:-2] = [x, y]`: the slice starts at the bottom of a stack with fewer than two items.
abbrev insert_below_two : Bytes → Bytes → Method (Unit {0})
insert_below_two x y s = ok (tt, take 2 s ++ (y ∷ x ∷ drop 2 s))

unfoldable pub op_2swap : Method Bool
op_2swap = do x ← pop; y ← pop; insert_below_two x y; return true

unfoldable pub op_ifdup : Method Bool
op_ifdup = do
  require 1 value_error
  x ← peek_at 0
  if bytes_eq x [] then return true else (push x >> return true)

unfoldable pub op_depth : Method Bool
op_depth s = ok (true, encode_num (pos (length s)) ∷ s)

unfoldable pub op_drop : Method Bool
op_drop = do pop; return true

unfoldable pub op_dup : Method Bool
op_dup [] = ok (false, [])
op_dup (x ∷ s) = ok (true, x ∷ x ∷ s)

unfoldable pub op_nip : Method Bool
op_nip = do pop_at 1; return true

unfoldable pub op_over : Method Bool
op_over = do require 2 value_error; x ← peek_at 1; push x; return true

-- `self[-n]` for a number n: from the top for n > 0, and from the bottom for n <= 0.
abbrev item_at : ℤ → Method Bytes
item_at (pos (suc n)) s = from_option (get_elem? s n) s
item_at (pos zero) s = from_option (get_elem? (reverse s) 0) s
item_at (negsuc n) s = from_option (get_elem? (reverse s) (suc n)) s

-- `self.pop(-n)`
abbrev pop_bottom : ℕ → Method Bytes
pop_bottom k s =
    from_option (get_elem? (reverse s) k) (reverse (take k (reverse s) ++ drop (k + 1) (reverse s)))

abbrev pop_item_at : ℤ → Method Bytes
pop_item_at (pos (suc n)) = pop_at n
pop_item_at (pos zero) = pop_bottom 0
pop_item_at (negsuc n) = pop_bottom (suc n)

unfoldable pub op_pick : Method Bool
unfolding pop_as_number
op_pick = do n ← pop_as_number; x ← item_at n; push x; return true

unfoldable pub op_roll : Method Bool
unfolding pop_as_number
op_roll = do n ← pop_as_number; x ← pop_item_at n; push x; return true

unfoldable pub op_rot : Method Bool
op_rot = do x ← pop_at 2; push x; return true

unfoldable pub op_swap : Method Bool
op_swap = do x ← pop_at 1; push x; return true

unfoldable pub op_tuck : Method Bool
op_tuck = do x ← peek_at 1; push x; return true

unfoldable pub op_size : Method Bool
op_size = do x ← peek_at 0; push (encode_num (pos (length x))); return true

unfoldable pub op_equal : Method Bool
op_equal = do x ← pop; y ← pop; push (truth (bytes_eq x y)); return true

unfoldable pub op_equalverify : Method Bool
unfolding op_equal op_verify
op_equalverify = do op_equal; op_verify
