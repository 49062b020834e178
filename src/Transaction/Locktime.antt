-- ===== src/Transaction/Locktime.antt =====
-- bitcoinlib/transactions.py, `Transaction.set_locktime_blocks`, `set_locktime_time`,
-- `set_locktime_relative_blocks` and `set_locktime_relative_time`, up to the signing that ends each
-- of them: the transaction that is signed, and which methods are called on it.
pub mod Final
pub mod Relative
mod Tests
use bitcoinlib.Common.{
  ℕ, zero, suc, ◌+◌, ◌/◌, ◌^◌, List, [], ◌∷◌, Bool, Option, none, some, Result, ok, err,
  index_error, transaction_error, ◌>>=◌, ltb, leb, ◌==◌, ◌||◌, if◌then◌else◌, map,
}
use bitcoinlib.Transaction.{Input, Transaction}

-- What ends a setter: `self.sign(…)`, `self.sign(…)` and then `self.verify()`, or
-- `self.sign_and_update(…)`; with the number of the input that is signed.
pub data Signing : Type 0 where
  sign : Option ℕ → Signing
  sign_and_verify : Signing
  sign_and_update : Option ℕ → Signing

abbrev pub sequence_locktime_mask : ℕ
sequence_locktime_mask = 0xffff

abbrev pub sequence_locktime_type_flag : ℕ
sequence_locktime_type_flag = 0x40_0000

abbrev pub sequence_enable_locktime : ℕ
sequence_enable_locktime = 0xffff_fffe

-- `self.inputs[n].sequence = sequence`
unfoldable pub set_sequence : ℕ → ℕ → List Input → Result (List Input)
set_sequence n sequence [] = err index_error
set_sequence zero sequence (i ∷ is) = ok (record i { sequence = sequence } ∷ is)
set_sequence (suc n) sequence (i ∷ is) = set_sequence n sequence is >>= λ others. ok (i ∷ others)

-- `if not n` or n is the largest sequence.
abbrev pub is_unset : ℕ → Bool
is_unset n = (n == 0) || (n == 0xffff_ffff)

-- The sequence, the version and the locktime of a relative lock; 0 is no locktime of the caller.
unfoldable pub lock_relative : ℕ → ℕ → ℕ → Transaction → Result (Transaction × Signing)
unfolding set_sequence
lock_relative sequence input_index_n locktime t = do
  inputs ← set_sequence input_index_n sequence t.inputs
  ok (
    record t {
      inputs = inputs;
      version_int = if ltb t.version_int 2 then 2 else t.version_int;
      locktime = if locktime == 0 then t.locktime else locktime;
    },
    sign_and_update (some input_index_n),
  )

unfoldable pub unlock_relative : ℕ → Transaction → Result (Transaction × Signing)
unfolding set_sequence
unlock_relative input_index_n t = do
  inputs ← set_sequence input_index_n 0xffff_ffff t.inputs
  ok (record t { inputs = inputs }, sign (some input_index_n))

unfoldable pub set_locktime_relative_blocks :
    ℕ → ℕ → ℕ → Transaction → Result (Transaction × Signing)
unfolding lock_relative unlock_relative
set_locktime_relative_blocks blocks input_index_n locktime t =
    if is_unset blocks
    then unlock_relative input_index_n t
    else if ltb sequence_locktime_mask blocks
    then err transaction_error
    else lock_relative blocks input_index_n locktime t

unfoldable pub set_locktime_relative_time : ℕ → ℕ → ℕ → Transaction → Result (Transaction × Signing)
unfolding lock_relative unlock_relative
set_locktime_relative_time seconds input_index_n locktime t =
    if is_unset seconds
    then unlock_relative input_index_n t
    else if ltb seconds 512
    then lock_relative (512 / 512 + sequence_locktime_type_flag) input_index_n locktime t
    else if ltb sequence_locktime_mask (seconds / 512)
    then err transaction_error
    else lock_relative (seconds / 512 + sequence_locktime_type_flag) input_index_n locktime t

-- A sequence that would switch the locktime off is lowered.
abbrev pub enable_locktime : Input → Input
enable_locktime i =
    if i.sequence == 0xffff_ffff then record i { sequence = sequence_enable_locktime } else i

-- The end of both setters of an absolute locktime.
unfoldable pub lock_absolute : ℕ → Transaction → Transaction × Signing
lock_absolute locktime t =
    (record t { locktime = locktime; inputs = map enable_locktime t.inputs }, sign_and_update none)

unfoldable pub unlock_absolute : Transaction → Transaction × Signing
unlock_absolute t = (record t { locktime = 0xffff_ffff }, sign_and_verify)

unfoldable pub set_locktime_blocks : ℕ → Transaction → Result (Transaction × Signing)
unfolding lock_absolute unlock_absolute
set_locktime_blocks blocks t =
    if is_unset blocks
    then ok (unlock_absolute t)
    else if ltb 500000000 blocks
    then err transaction_error
    else ok (lock_absolute blocks t)

unfoldable pub set_locktime_time : ℕ → Transaction → Result (Transaction × Signing)
unfolding lock_absolute unlock_absolute
set_locktime_time timestamp t =
    if is_unset timestamp
    then ok (unlock_absolute t)
    else if leb timestamp 500000000
    then err transaction_error
    else if ltb 0xffff_fffe timestamp
    then err transaction_error
    else ok (lock_absolute timestamp t)
