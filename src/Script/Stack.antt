-- ===== src/Script/Stack.antt =====
-- bitcoinlib/scripts.py, `class Stack`: the stack of the script language. Python keeps the top at
-- the end of a list; here the top is the head, so `self[-1]` is the head and `self[-k]` the
-- element number k - 1.
pub mod Moves
pub mod Arithmetic
pub mod Crypto
pub mod Timelock
use bitcoinlib.Common.{
  ℕ, ◌+◌, List, [], ◌∷◌, ◌++◌, Bool, true, false, Option, none, some, Exception, Result, ok, err,
  index_error, get_elem?, take, drop, ltb, length, not, if◌then◌else◌, bytes_eq,
}
use bitcoinlib.Common.Integer.{ℤ}
use bitcoinlib.Script.Num.{encode_num, decode_num}

abbrev pub Bytes : Type 0
Bytes = List ℕ

abbrev pub Stack : Type 0
Stack = List Bytes

-- A method of the stack: it changes the stack and returns, or raises.
abbrev pub Method : Type 0 → Type 0
Method A = Stack → Result (A × Stack)

infixl 5 ◌>>=◌ ◌>>◌
abbrev pub ◌>>=◌ : {A B : Type 0} → Method A → (A → Method B) → Method B
◌>>=◌ m f s = elim (m s) [ err e ↦ err e | ok (a, t) ↦ f a t ]

abbrev pub ◌>>◌ : {A B : Type 0} → Method A → Method B → Method B
m >> k = m >>= λ _. k

abbrev pub return : {A : Type 0} → A → Method A
return a s = ok (a, s)

abbrev pub raise : {A : Type 0} → Exception → Method A
raise e s = err e

-- `self.pop()`, `self.append(x)`
abbrev pub pop : Method Bytes
pop [] = err index_error
pop (x ∷ s) = ok (x, s)

abbrev pub push : Bytes → Method (Unit {0})
push x s = ok (tt, x ∷ s)

abbrev from_option : Option Bytes → Method Bytes
from_option none s = err index_error
from_option (some x) s = ok (x, s)

-- `self[-(k + 1)]`
abbrev pub peek_at : ℕ → Method Bytes
peek_at k s = from_option (get_elem? s k) s

-- `self.pop(-(k + 1))`
abbrev pub pop_at : ℕ → Method Bytes
pop_at k s = from_option (get_elem? s k) (take k s ++ drop (k + 1) s)

-- `if len(self) < n: raise e`
abbrev pub require : ℕ → Exception → Method (Unit {0})
require n e s = if ltb (length s) n then err e else ok (tt, s)

-- `Stack.pop_as_number`
unfoldable pub pop_as_number : Method ℤ
pop_as_number = do x ← pop; return (decode_num x)

unfoldable pub op_verify : Method Bool
op_verify = do x ← pop; return (not (bytes_eq x []))

-- The truth values that the operations push.
abbrev pub truth : Bool → Bytes
truth true = 1 ∷ []
truth false = []
