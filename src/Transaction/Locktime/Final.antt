-- ===== src/Transaction/Locktime/Final.antt =====
-- What an absolute locktime of bitcoinlib/transactions.py means for a block that wants to include
-- the transaction.
use bitcoinlib.Common.{
  ℕ, ◌<◌, ◌≡◌, ◌↔◌, inl, inr, refl, List, [], ◌∷◌, map, Bool, true, false, ◌&&◌, ◌||◌, ok, none,
  Bool-cases, ltb→lt, lt→ltb, ltb, leb, ◌==◌, if◌then◌else◌, length, arith,
}
use bitcoinlib.Transaction.{Input, Transaction}
use bitcoinlib.Transaction.Locktime.{
  sign_and_update, enable_locktime, is_unset, lock_absolute, set_locktime_blocks, set_locktime_time,
}

-- All sequences have the value that switches the locktime off.
abbrev pub all_final : List Input → Bool
all_final [] = true
all_final (i ∷ is) = (i.sequence == 0xffff_ffff) && all_final is

-- The rule of the protocol: a block of this height and time may include the transaction. Locktimes
-- below 500000000 are heights, the others are times.
unfoldable pub is_final : ℕ → ℕ → Transaction → Bool
is_final height time t =
    (t.locktime == 0)
    || ltb t.locktime (if ltb t.locktime 500000000 then height else time)
    || all_final t.inputs

enabled : (i : Input) → ((enable_locktime i).sequence == 0xffff_ffff) ≡ false
enabled i = elim (Bool-cases (i.sequence == 0xffff_ffff)) [ inl e ↦ rw e refl | inr e ↦ rw e e ]

none_final : (is : List Input) → 0 < length is → all_final (map enable_locktime is) ≡ false
none_final [] h = absurd (omega arith)
none_final (i ∷ is) h = rw (enabled i) refl

locked :
    (n : ℕ) (t : Transaction)
    → ok (lock_absolute n t) ≡ ok ((lock_absolute n t).0, sign_and_update none)
unfolding lock_absolute
locked n t = refl

-- A transaction with a locktime that is not 0 waits for the height or the time that it names.
is_final-lock_absolute :
    (n height time : ℕ) (t : Transaction)
    → 0 < n
    → 0 < length t.inputs
    → is_final height time (lock_absolute n t).0 ≡ ltb n (if ltb n 500000000 then height else time)
unfolding is_final lock_absolute
is_final-lock_absolute n height time t h some_input =
    let set : (n == 0) ≡ false = ground arith in
    rw (set, none_final t.inputs some_input) (or-false _)
  where
    or-false : (b : Bool) → (b || false) ≡ b
    or-false true = refl
    or-false false = refl

is_true_lt : (a b : ℕ) → (ltb a b ≡ true) ↔ (a < b)
is_true_lt a b = (ltb→lt a b, lt→ltb a b)

-- Locking a transaction to a height below 500000000 succeeds, and it ends in signing all inputs: a
-- block may then include the transaction exactly if its height is above the one that was given,
-- whatever the sequences were. The conditions are that the height is not 0 and that there is an
-- input.
pub set_locktime_blocks-is_final :
    (blocks height time : ℕ) (t : Transaction)
    → 0 < blocks
    → blocks < 500000000
    → 0 < length t.inputs
    → (t' : Transaction) × (set_locktime_blocks blocks t ≡ ok (t', sign_and_update none))
      × ((is_final height time t' ≡ true) ↔ (blocks < height))
unfolding set_locktime_blocks
set_locktime_blocks-is_final blocks height time t low high some_input =
    let final = is_final-lock_absolute blocks height time t low some_input in
    let set : is_unset blocks ≡ false = ground arith in
    let small : ltb 500000000 blocks ≡ false = ground arith in
    let is_height : ltb blocks 500000000 ≡ true = ground arith in
    (
      (lock_absolute blocks t).0,
      rw (set, small) (locked blocks t),
      rw (final, is_height) (is_true_lt blocks height),
    )

-- Locking a transaction to a time above 500000000 and below the largest number of 32 bits succeeds,
-- and it ends in signing all inputs: a block may then include the transaction exactly if its time is
-- above the one that was given, whatever the sequences were. The transaction has an input.
pub set_locktime_time-is_final :
    (timestamp height time : ℕ) (t : Transaction)
    → 500000000 < timestamp
    → timestamp < 0xffff_ffff
    → 0 < length t.inputs
    → (t' : Transaction) × (set_locktime_time timestamp t ≡ ok (t', sign_and_update none))
      × ((is_final height time t' ≡ true) ↔ (timestamp < time))
unfolding set_locktime_time
set_locktime_time-is_final timestamp height time t low high some_input =
    let final = is_final-lock_absolute timestamp height time t (omega arith) some_input in
    let set : is_unset timestamp ≡ false = ground arith in
    let above : leb timestamp 500000000 ≡ false = ground arith in
    let below : ltb 0xffff_fffe timestamp ≡ false = ground arith in
    let is_time : ltb timestamp 500000000 ≡ false = ground arith in
    (
      (lock_absolute timestamp t).0,
      rw (set, above, below) (locked timestamp t),
      rw (final, is_time) (is_true_lt timestamp time),
    )
