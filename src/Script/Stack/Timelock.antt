-- ===== src/Script/Stack/Timelock.antt =====
-- bitcoinlib/scripts.py, `Stack.op_checklocktimeverify` and `Stack.op_checksequenceverify`.
use bitcoinlib.Common.{
  ℕ, Bool, true, false, Option, none, some, ◌&&◌, ◌||◌, ◌==◌, if◌then◌else◌, ltb,
}
use bitcoinlib.Common.Integer.{ℤ, pos, ltb_ℤ}
use bitcoinlib.Script.Num.{decode_num}
use bitcoinlib.Script.Stack.{Method, ◌>>=◌, return, peek_at}

-- The tests that follow once the script's own lock time is read.
unfoldable pub locktime_passed : ℕ → ℤ → Bool
locktime_passed tx_locktime locktime =
    if ltb_ℤ locktime (pos 0)
    then false
    else if (ltb_ℤ locktime (pos 50000000) && ltb 50000000 tx_locktime)
        || (ltb_ℤ (pos 50000000) locktime && ltb tx_locktime 50000000)
    then false
    else if ltb_ℤ (pos tx_locktime) locktime
    then false
    else true

-- `tx_locktime` may be None, and None and 0 are both false.
unfoldable pub op_checklocktimeverify : ℕ → Option ℕ → Method Bool
unfolding locktime_passed
op_checklocktimeverify sequence none = return false
op_checklocktimeverify sequence (some tx_locktime) =
    if tx_locktime == 0
    then return false
    else if sequence == 0xffff_ffff
    then return false
    else (do locktime ← peek_at 0; return (locktime_passed tx_locktime (decode_num locktime)))

-- It returns the class NotImplementedError, which is not False.
unfoldable pub op_checksequenceverify : ℕ → ℕ → Method Bool
op_checksequenceverify sequence version = return true
