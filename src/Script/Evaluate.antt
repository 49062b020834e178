-- ===== src/Script/Evaluate.antt =====
-- bitcoinlib/scripts.py, `Script.evaluate`, with the opcode names of
-- bitcoinlib/config/opcodes.py that decide which stack method an opcode runs.
pub mod Total
pub mod Templates
mod Tests
use bitcoinlib.Common.{
  ℕ, zero, suc, ◌+◌, ◌-◌, List, [], ◌∷◌, ◌++◌, Bool, true, false, not, Option, none, some,
  Exception, Result, ok, err, script_error, index_error, key_error, ◌==◌, ◌&&◌, ◌||◌, leb,
  if◌then◌else◌, length, bytes_eq,
}
use bitcoinlib.Common.Integer.{ℤ, pos, negsuc}
use bitcoinlib.Script.Num.{encode_num}
use bitcoinlib.Script.Stack.{Bytes, Stack, Method, ◌>>=◌, ◌>>◌, return, raise, pop, push, op_verify}
use bitcoinlib.Script.Stack.Moves
use bitcoinlib.Script.Stack.Arithmetic
use bitcoinlib.Script.Stack.Crypto
use bitcoinlib.Script.Stack.Crypto.{Crypto}
use bitcoinlib.Script.Stack.Timelock
use bitcoinlib.Script.Command.{Command, code, item, Entry, flatten, Branching, op_if, op_notif}

-- The keys of `env_data` that evaluation reads; a missing key is `none`.
pub record Environment : Type 0 where
  pub redeemscript : Option Bytes
  pub sequence : Option ℕ
  pub locktime : Option ℕ
  pub version : Option ℕ

-- What one command does: go on, return a result, or raise out of `evaluate`.
pub data Step : Type 0 where
  next : Stack → List Command → Step
  stop : Bool → Step
  throw : Exception → Step

-- The outcome of a run; `exhausted` is no outcome of the program: the fuel of the loop ran out.
pub data Outcome : Type 0 where
  returned : Bool → Outcome
  raised : Exception → Outcome
  exhausted : Outcome

-- `self.env_data[key]`
abbrev required : {A : Type 0} → Option A → Method A
required none s = err key_error
required (some a) s = ok (a, s)

-- `opcodenames` names 0, the opcodes from 76 to 185, and 255.
abbrev is_named : ℕ → Bool
is_named n = (n == 0) || (leb 76 n && leb n 185) || (n == 255)

abbrev lookup : {A : Type 0} → ℕ → List (ℕ × A) → Option A
lookup n [] = none
lookup n ((m, a) ∷ rest) = if n == m then some a else lookup n rest

-- A method that raises, or returns False, ends the evaluation with False.
abbrev pub settle : List Command → Result (Bool × Stack) → Step
settle cs (err e) = stop false
settle cs (ok (false, s)) = stop false
settle cs (ok (true, s)) = next s cs

-- A named opcode without a method raises.
abbrev call : Option (Method Bool) → List Command → Stack → Step
call none cs s = throw script_error
call (some m) cs s = settle cs (m s)

-- `if not method(commands): return False`, outside the `try`.
abbrev settle_branch : Branching → Step
settle_branch (err e) = throw e
settle_branch (ok none) = stop false
settle_branch (ok (some (s, cs))) = next s cs

-- After the last command: an empty stack, and an empty top item, are false.
unfoldable pub verdict : Stack → Bool
verdict [] = false
verdict (x ∷ s) = not (bytes_eq x [])

module _ {Signature : Type 0} (c : Crypto Signature) (message : Bytes) (env : Environment) where
  -- `op_checkmultisig` as `evaluate` calls it: verified at once, then the redeemscript is pushed.
  unfoldable pub run_checkmultisig : Method Bool
  run_checkmultisig = do
    Crypto.op_checkmultisig c message
    res ← op_verify
    script ← required env.redeemscript
    push script
    return res

  unfoldable pub run_checkmultisigverify : Method Bool
  run_checkmultisigverify = do
    res ← Crypto.op_checkmultisigverify c message
    script ← required env.redeemscript
    push script
    return res

  unfoldable pub run_checklocktimeverify : Method Bool
  run_checklocktimeverify = do
    sequence ← required env.sequence
    Timelock.op_checklocktimeverify sequence env.locktime

  unfoldable pub run_checksequenceverify : Method Bool
  run_checksequenceverify = do
    sequence ← required env.sequence
    version ← required env.version
    Timelock.op_checksequenceverify sequence version

  -- The named opcodes whose lower-case name is a method of `Stack`. OP_LESSTHAN, OP_GREATERTHAN,
  -- OP_LESSTHANOREQUAL and OP_GREATERTHANOREQUAL are not: the methods are called `op_numlessthan`
  -- and so on.
  unfoldable pub methods : List (ℕ × Method Bool)
  methods =
      (97, Moves.op_nop)
      ∷ (105, op_verify)
      ∷ (106, Moves.op_return)
      ∷ (109, Moves.op_2drop)
      ∷ (110, Moves.op_2dup)
      ∷ (111, Moves.op_3dup)
      ∷ (112, Moves.op_2over)
      ∷ (113, Moves.op_2rot)
      ∷ (114, Moves.op_2swap)
      ∷ (115, Moves.op_ifdup)
      ∷ (116, Moves.op_depth)
      ∷ (117, Moves.op_drop)
      ∷ (118, Moves.op_dup)
      ∷ (119, Moves.op_nip)
      ∷ (120, Moves.op_over)
      ∷ (121, Moves.op_pick)
      ∷ (122, Moves.op_roll)
      ∷ (123, Moves.op_rot)
      ∷ (124, Moves.op_swap)
      ∷ (125, Moves.op_tuck)
      ∷ (130, Moves.op_size)
      ∷ (135, Moves.op_equal)
      ∷ (136, Moves.op_equalverify)
      ∷ (139, Arithmetic.op_1add)
      ∷ (140, Arithmetic.op_1sub)
      ∷ (143, Arithmetic.op_negate)
      ∷ (144, Arithmetic.op_abs)
      ∷ (145, Arithmetic.op_not)
      ∷ (146, Arithmetic.op_0notequal)
      ∷ (147, Arithmetic.op_add)
      ∷ (148, Arithmetic.op_sub)
      ∷ (154, Arithmetic.op_booland)
      ∷ (155, Arithmetic.op_boolor)
      ∷ (156, Arithmetic.op_numequal)
      ∷ (157, Arithmetic.op_numequalverify)
      ∷ (158, Arithmetic.op_numnotequal)
      ∷ (163, Arithmetic.op_min)
      ∷ (164, Arithmetic.op_max)
      ∷ (165, Arithmetic.op_within)
      ∷ (166, Crypto.op_ripemd160 c)
      ∷ (167, Crypto.op_sha1 c)
      ∷ (168, Crypto.op_sha256 c)
      ∷ (169, Crypto.op_hash160 c)
      ∷ (170, Crypto.op_hash256 c)
      ∷ (172, Crypto.op_checksig c message)
      ∷ (173, Crypto.op_checksigverify c message)
      ∷ (174, run_checkmultisig)
      ∷ (175, run_checkmultisigverify)
      ∷ (176, Moves.op_nop)
      ∷ (177, run_checklocktimeverify)
      ∷ (178, run_checksequenceverify)
      ∷ (179, Moves.op_nop)
      ∷ (180, Moves.op_nop)
      ∷ (181, Moves.op_nop)
      ∷ (182, Moves.op_nop)
      ∷ (183, Moves.op_nop)
      ∷ (184, Moves.op_nop)
      ∷ (185, Moves.op_nop)
      ∷ []

  -- One round of the loop: the command is already taken off the list.
  unfoldable pub step : Command → List Command → Stack → Step
  step (item d) cs s = next (d ∷ s) cs
  step (code n) cs s =
      if n == 0
      then next (encode_num (pos 0) ∷ s) cs
      else if n == 79
      then next (encode_num (negsuc 0) ∷ s) cs
      else if leb 81 n && leb n 96
      then next (encode_num (pos (n - 80)) ∷ s) cs
      else if n == 99
      then settle_branch (op_if cs s)
      else if n == 100
      then settle_branch (op_notif cs s)
      else if is_named n
      then call (lookup n methods) cs s
      else throw key_error

  unfoldable pub run : ℕ → List Command → Stack → Outcome
  run fuel [] s = returned (verdict s)
  run zero (x ∷ cs) s = exhausted
  run (suc fuel) (x ∷ cs) s = elim (step x cs s) [
    | next t ds ↦ run fuel ds t
    | stop b ↦ returned b
    | throw e ↦ raised e
  ]

  -- `Script.evaluate`: each round leaves fewer commands, so their number is fuel enough.
  unfoldable pub evaluate : List Entry → Outcome
  evaluate script = let commands = flatten script in run (length commands) commands []
