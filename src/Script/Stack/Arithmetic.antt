-- ===== src/Script/Stack/Arithmetic.antt =====
-- bitcoinlib/scripts.py, `class Stack`: the operations on numbers. Operands longer than four bytes
-- make an operation return False; the results may be longer.
pub mod Laws
mod Tests
use bitcoinlib.Common.{
  ℕ, List, [], ◌∷◌, Bool, true, false, not, ◌&&◌, ◌||◌, index_error, ok, err, ltb, leb, length,
  take, if◌then◌else◌, bytes_eq,
}
use bitcoinlib.Common.Integer.{ℤ, pos, negsuc, ◌+ℤ◌, ◌-ℤ◌, magnitude, ltb_ℤ, leb_ℤ}
use bitcoinlib.Script.Num.{encode_num}
use bitcoinlib.Script.Stack.{
  Bytes, Stack, Method, ◌>>=◌, ◌>>◌, return, pop, push, pop_as_number, op_verify, truth,
}

all_short : List Bytes → Bool
all_short [] = true
all_short (x ∷ xs) = leb (length x) 4 && all_short xs

unfoldable pub is_arithmetic : ℕ → Method Bool
unfolding all_short
is_arithmetic items s =
    if ltb (length s) items then err index_error else ok (all_short (take items s), s)

-- `if not self.is_arithmetic(items): return False`, then the body.
unfoldable pub when_arithmetic : ℕ → Method (Unit {0}) → Method Bool
unfolding is_arithmetic
when_arithmetic items body = do
  arithmetic ← is_arithmetic items
  if arithmetic then (body >> return true) else return false

-- `self.append(encode_num(f(self.pop_as_number())))`, and the same of two and three numbers, where
-- the first number is the top of the stack.
unary : (ℤ → Bytes) → Method Bool
unfolding when_arithmetic pop_as_number
unary f = when_arithmetic 1 (do a ← pop_as_number; push (f a))

binary : (ℤ → ℤ → Bytes) → Method Bool
unfolding when_arithmetic pop_as_number
binary f = when_arithmetic 2 (do a ← pop_as_number; b ← pop_as_number; push (f a b))

ternary : (ℤ → ℤ → ℤ → Bytes) → Method Bool
unfolding when_arithmetic pop_as_number
ternary f =
    when_arithmetic 3 (do a ← pop_as_number; b ← pop_as_number; c ← pop_as_number; push (f a b c))

-- The operations that look at the bytes of their operands.
unary_bytes : (Bytes → Bytes) → Method Bool
unfolding when_arithmetic
unary_bytes f = when_arithmetic 1 (do a ← pop; push (f a))

binary_bytes : (Bytes → Bytes → Bool) → Method Bool
unfolding when_arithmetic
binary_bytes f = when_arithmetic 2 (do a ← pop; b ← pop; push (truth (f a b)))

unfoldable pub op_1add : Method Bool
unfolding unary
op_1add = unary (λ a. encode_num (a +ℤ pos 1))

unfoldable pub op_1sub : Method Bool
unfolding unary
op_1sub = unary (λ a. encode_num (a -ℤ pos 1))

unfoldable pub op_negate : Method Bool
unfolding unary
op_negate = unary (λ a. encode_num (pos 0 -ℤ a))

unfoldable pub op_abs : Method Bool
unfolding unary
op_abs = unary (λ a. encode_num (pos (magnitude a)))

unfoldable pub op_not : Method Bool
unfolding unary_bytes
op_not = unary_bytes (λ a. truth (bytes_eq a []))

unfoldable pub op_0notequal : Method Bool
unfolding unary_bytes
op_0notequal = unary_bytes (λ a. truth (not (bytes_eq a [])))

unfoldable pub op_add : Method Bool
unfolding binary
op_add = binary (λ a b. encode_num (a +ℤ b))

unfoldable pub op_sub : Method Bool
unfolding binary
op_sub = binary (λ a b. encode_num (a -ℤ b))

unfoldable pub op_booland : Method Bool
unfolding binary_bytes
op_booland = binary_bytes (λ a b. not (bytes_eq a []) && not (bytes_eq b []))

unfoldable pub op_boolor : Method Bool
unfolding binary_bytes
op_boolor = binary_bytes (λ a b. not (bytes_eq a []) || not (bytes_eq b []))

unfoldable pub op_numequal : Method Bool
unfolding binary_bytes
op_numequal = binary_bytes (λ a b. bytes_eq a b)

unfoldable pub op_numequalverify : Method Bool
unfolding op_numequal op_verify
op_numequalverify = do op_numequal; op_verify

unfoldable pub op_numnotequal : Method Bool
unfolding binary_bytes
op_numnotequal = binary_bytes (λ a b. not (bytes_eq a b))

unfoldable pub op_numlessthan : Method Bool
unfolding binary
op_numlessthan = binary (λ a b. truth (ltb_ℤ a b))

unfoldable pub op_numgreaterthan : Method Bool
unfolding binary
op_numgreaterthan = binary (λ a b. truth (ltb_ℤ b a))

unfoldable pub op_numlessthanorequal : Method Bool
unfolding binary
op_numlessthanorequal = binary (λ a b. truth (leb_ℤ a b))

unfoldable pub op_numgreaterthanorequal : Method Bool
unfolding binary
op_numgreaterthanorequal = binary (λ a b. truth (leb_ℤ b a))

unfoldable pub op_min : Method Bool
unfolding binary
op_min = binary (λ a b. if ltb_ℤ a b then encode_num a else encode_num b)

unfoldable pub op_max : Method Bool
unfolding binary
op_max = binary (λ a b. if ltb_ℤ b a then encode_num a else encode_num b)

unfoldable pub op_within : Method Bool
unfolding ternary
op_within = ternary (λ x vmin vmax. truth (leb_ℤ vmin x && ltb_ℤ x vmax))
