-- ===== src/Transaction/Locktime/Relative.antt =====
-- What a relative locktime of bitcoinlib/transactions.py means (BIP68).
use bitcoinlib.Common.{
  ℕ, zero, suc, ◌+◌, ◌*◌, ◌/◌, ◌%◌, ◌^◌, ◌<◌, ◌≤◌, ◌≡◌, refl, List, [], ◌∷◌, Bool, true, false,
  Option, none, some, Result, ok, ltb, ◌==◌, if◌then◌else◌, length, get_elem?, arith,
}
use bitcoinlib.Transaction.{Input, Transaction}
use bitcoinlib.Transaction.Locktime.{
  Signing, sign_and_update, is_unset, sequence_locktime_mask, set_sequence, lock_relative,
  set_locktime_relative_blocks, set_locktime_relative_time,
}

-- The rule of the protocol on a sequence: the highest bit switches the lock off, bit 22 tells units
-- of 512 seconds from blocks, and the lowest 16 bits count them.
unfoldable pub relative_lock : ℕ → Option (Bool × ℕ)
relative_lock sequence =
    if sequence / 2 ^ 31 % 2 == 1
    then none
    else some (sequence / 2 ^ 22 % 2 == 1, sequence % 2 ^ 16)

-- An input that is there gets the sequence.
get_elem-set_sequence :
    (n sequence : ℕ) (is : List Input)
    → n < length is
    → (is' : List Input) × (set_sequence n sequence is ≡ ok is')
      × ((i : Input) × (get_elem? is' n ≡ some i) × (i.sequence ≡ sequence))
unfolding set_sequence
get_elem-set_sequence n sequence [] h = absurd (omega arith)
get_elem-set_sequence zero sequence (i ∷ is) h =
    (record i { sequence = sequence } ∷ is, refl, (record i { sequence = sequence }, refl, refl))
get_elem-set_sequence (suc n) sequence (i ∷ is) h =
    let (others, e, found) = get_elem-set_sequence n sequence is (omega arith) in
    (i ∷ others, rw e refl, found)

-- What a call that locks an input does: it signs that input in a transaction of version 2 or more,
-- in which the input has the sequence.
abbrev pub Locks : Result (Transaction × Signing) → ℕ → ℕ → Type 0
Locks result n sequence =
    (t' : Transaction) × (result ≡ ok (t', sign_and_update (some n)))
    × (2 ≤ t'.version_int)
    × ((i : Input) × (get_elem? t'.inputs n ≡ some i) × (i.sequence ≡ sequence))

lock_relative-Locks :
    (sequence n locktime : ℕ) (t : Transaction)
    → n < length t.inputs
    → Locks (lock_relative sequence n locktime t) n sequence
unfolding lock_relative
lock_relative-Locks sequence n locktime t h =
    let (is, e, found) = get_elem-set_sequence n sequence t.inputs h in
    (
      record t {
        inputs = is;
        version_int = if ltb t.version_int 2 then 2 else t.version_int;
        locktime = if locktime == 0 then t.locktime else locktime;
      },
      rw e refl,
      ground arith,
      found,
    )

-- Locking an input for 1 to 65535 blocks succeeds and signs that input: its sequence is a relative
-- lock of as many blocks, in a transaction of version 2 or more.
pub set_locktime_relative_blocks-relative_lock :
    (blocks n locktime : ℕ) (t : Transaction)
    → 0 < blocks
    → blocks ≤ 0xffff
    → n < length t.inputs
    → Locks (set_locktime_relative_blocks blocks n locktime t) n blocks
      × (relative_lock blocks ≡ some (false, blocks))
unfolding set_locktime_relative_blocks relative_lock
set_locktime_relative_blocks-relative_lock blocks n locktime t low high h =
    let set : is_unset blocks ≡ false = ground arith in
    let fits : ltb sequence_locktime_mask blocks ≡ false = ground arith in
    (
      rw (set, fits) (lock_relative-Locks blocks n locktime t h),
      rw (flag_off, type_off, value) refl,
    )
  where
    flag_off : (blocks / 2 ^ 31 % 2 == 1) ≡ false
    flag_off = ground arith

    type_off : (blocks / 2 ^ 22 % 2 == 1) ≡ false
    type_off = ground arith

    value : blocks % 2 ^ 16 ≡ blocks
    value = omega arith

-- Locking an input for 1 to 65535 whole units of 512 seconds succeeds and signs that input: its
-- sequence is a relative lock of as many units, in a transaction of version 2 or more.
pub set_locktime_relative_time-relative_lock :
    (units n locktime : ℕ) (t : Transaction)
    → 0 < units
    → units ≤ 0xffff
    → n < length t.inputs
    → Locks (set_locktime_relative_time (units * 512) n locktime t) n (units + 0x40_0000)
      × (relative_lock (units + 0x40_0000) ≡ some (true, units))
unfolding set_locktime_relative_time relative_lock
set_locktime_relative_time-relative_lock units n locktime t low high h =
    let set : is_unset (units * 512) ≡ false = ground arith in
    let long : ltb (units * 512) 512 ≡ false = ground arith in
    let whole : units * 512 / 512 ≡ units = omega arith in
    let fits : ltb sequence_locktime_mask units ≡ false = ground arith in
    (
      rw (set, long, whole, fits) (lock_relative-Locks (units + 0x40_0000) n locktime t h),
      rw (flag_off, type_on, value) refl,
    )
  where
    flag_off : ((units + 0x40_0000) / 2 ^ 31 % 2 == 1) ≡ false
    flag_off = ground arith

    type_on : ((units + 0x40_0000) / 2 ^ 22 % 2 == 1) ≡ true
    type_on = ground arith

    value : (units + 0x40_0000) % 2 ^ 16 ≡ units
    value = omega arith
