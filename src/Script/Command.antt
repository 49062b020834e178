-- ===== src/Script/Command.antt =====
-- bitcoinlib/scripts.py: a parsed script as a list of opcodes and data, and the conditional
-- opcodes `Stack.op_if` and `Stack.op_notif`, which rewrite the commands that are still to run.
pub mod Balance
use bitcoinlib.Common.{
  ℕ, zero, suc, ◌+◌, List, [], ◌∷◌, ◌++◌, Bool, true, false, Option, none, some, Result, ok, err,
  index_error, ◌==◌, ◌&&◌, ◌||◌, if◌then◌else◌,
}
use bitcoinlib.Common.Integer.{ℤ, pos, magnitude}
use bitcoinlib.Script.Num.{decode_num}
use bitcoinlib.Script.Stack.{Bytes, Stack}

-- An opcode, or data to push.
pub data Command : Type 0 where
  code : ℕ → Command
  item : Bytes → Command

-- An element of `Script.commands`; a redeemscript is a list inside the list.
pub data Entry : Type 0 where
  single : Command → Entry
  nested : List Command → Entry

-- The commands that `evaluate` runs.
unfoldable pub flatten : List Entry → List Command
flatten [] = []
flatten (single c ∷ es) = c ∷ flatten es
flatten (nested cs ∷ es) = cs ++ flatten es

abbrev pub is_code : ℕ → Command → Bool
is_code n (code m) = m == n
is_code n (item d) = false

-- `current_array.append(item)`, where the current array is one of the two.
pub record Branches : Type 0 where
  pub true_items : List Command
  pub false_items : List Command
  pub in_else : Bool

abbrev pub append_item : Command → Branches → Branches
append_item c b =
    if b.in_else
    then record b { false_items = b.false_items ++ (c ∷ []) }
    else record b { true_items = b.true_items ++ (c ∷ []) }

-- The loop of `op_if`. It returns both branches and the commands behind the matching OP_ENDIF, or
-- `none` where the commands end before one is found. `depth + 1` is `num_endifs_needed`.
unfoldable pub split_branches : ℕ → Branches → List Command → Option (Branches × List Command)
split_branches depth b [] = none
split_branches zero b (c ∷ cs) =
    let deeper = split_branches 1 (append_item c b) cs in
    let other = split_branches 0 (record b { in_else = true }) cs in
    let further = split_branches 0 (append_item c b) cs in
    if is_code 99 c || is_code 100 c
    then deeper
    else if is_code 103 c
    then other
    else if is_code 104 c
    then some (b, cs)
    else further
split_branches (suc depth) b (c ∷ cs) =
    let deeper = split_branches (suc (suc depth)) (append_item c b) cs in
    let shallower = split_branches depth (append_item c b) cs in
    let further = split_branches (suc depth) (append_item c b) cs in
    if is_code 99 c || is_code 100 c then deeper else if is_code 104 c then shallower else further

abbrev pub no_branches : Branches
no_branches = record { true_items = []; false_items = []; in_else = false }

-- `decode_num(element) == 0`
abbrev pub is_zero : Bytes → Bool
is_zero x = magnitude (decode_num x) == 0

abbrev chosen : Bytes → Branches → List Command
chosen element b = if is_zero element then b.false_items else b.true_items

-- What `op_if` returns, with the new stack and commands: `none` is False.
abbrev pub Branching : Type 0
Branching = Result (Option (Stack × List Command))

abbrev take_branch : Stack → Branches × List Command → Branching
take_branch [] found = err index_error
take_branch (element ∷ s) (b, cs) = ok (some (s, chosen element b ++ cs))

unfoldable pub op_if : List Command → Stack → Branching
unfolding split_branches
op_if commands s = elim (split_branches 0 no_branches commands) [
  | none ↦ ok none
  | some found ↦ take_branch s found
]

unfoldable pub op_notif : List Command → Stack → Branching
unfolding op_if
op_notif commands [] = err index_error
op_notif commands (element ∷ s) = op_if commands ((if is_zero element then 1 ∷ [] else 0 ∷ []) ∷ s)
