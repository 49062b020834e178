-- ===== src/Transaction/Locktime/Tests.antt =====
-- Runs of the locktime setters of bitcoinlib/transactions.py.
use bitcoinlib.Common.{
  ◌+◌, ◌*◌, ◌<◌, ◌≡◌, ◌↔◌, refl, true, false, none, some, ok, err, transaction_error, arith,
}
use bitcoinlib.Transaction.{Transaction}
use bitcoinlib.Transaction.Tests.{spend}
use bitcoinlib.Transaction.Locktime.{
  sign_and_verify, sign_and_update, set_locktime_blocks, set_locktime_time,
  set_locktime_relative_blocks, set_locktime_relative_time,
}
use bitcoinlib.Transaction.Locktime.Final.{
  is_final, set_locktime_blocks-is_final, set_locktime_time-is_final,
}
use bitcoinlib.Transaction.Locktime.Relative.{
  relative_lock, Locks, set_locktime_relative_blocks-relative_lock,
  set_locktime_relative_time-relative_lock,
}

-- Switching the locktime off gives the latest of all times.
no_locktime :
    set_locktime_blocks 0 spend ≡ ok (record spend { locktime = 0xffff_ffff }, sign_and_verify)
unfolding set_locktime_blocks
no_locktime = refl

-- So no block below that time may include a transaction whose input allows a locktime.
no_locktime_waits : is_final 900000 1700000000 (record spend { locktime = 0xffff_ffff }) ≡ false
unfolding is_final
no_locktime_waits = refl

-- The bound itself is taken for a height, and refused as a time.
bound_as_height :
    set_locktime_blocks 500000000 spend
    ≡ ok (record spend { locktime = 500000000 }, sign_and_update none)
unfolding set_locktime_blocks
bound_as_height = refl

bound_as_time : set_locktime_time 500000000 spend ≡ err transaction_error
unfolding set_locktime_time
bound_as_time = refl

set_locktime_blocks-is_final_example :
    (t' : Transaction) × (set_locktime_blocks 700000 spend ≡ ok (t', sign_and_update none))
    × ((is_final 700001 0 t' ≡ true) ↔ (700000 < 700001))
set_locktime_blocks-is_final_example =
    set_locktime_blocks-is_final 700000 700001 0 spend (omega arith) (omega arith) (omega arith)

set_locktime_time-is_final_example :
    (t' : Transaction) × (set_locktime_time 1700000000 spend ≡ ok (t', sign_and_update none))
    × ((is_final 900000 1700000001 t' ≡ true) ↔ (1700000000 < 1700000001))
set_locktime_time-is_final_example =
    set_locktime_time-is_final 1700000000 900000 1700000001 spend (omega arith) (omega arith)
      (omega arith)

set_locktime_relative_blocks-relative_lock_example :
    Locks (set_locktime_relative_blocks 144 0 0 spend) 0 144
    × (relative_lock 144 ≡ some (false, 144))
set_locktime_relative_blocks-relative_lock_example =
    set_locktime_relative_blocks-relative_lock 144 0 0 spend (omega arith) (omega arith)
      (omega arith)

set_locktime_relative_time-relative_lock_example :
    Locks (set_locktime_relative_time (3 * 512) 0 0 spend) 0 (3 + 0x40_0000)
    × (relative_lock (3 + 0x40_0000) ≡ some (true, 3))
set_locktime_relative_time-relative_lock_example =
    set_locktime_relative_time-relative_lock 3 0 0 spend (omega arith) (omega arith) (omega arith)
