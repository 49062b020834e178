-- ===== src/Wallet/Payment/Tests.antt =====
-- A payment of a wallet, by `Wallet.transaction_create` of bitcoinlib/wallets.py.
use bitcoinlib.Common.{ℕ, ◌+◌, ◌≤◌, ◌≡◌, refl, [], ◌∷◌, ok, err, wallet_error}
use bitcoinlib.Common.Integer.{pos, ◌+ℤ◌}
use bitcoinlib.Wallet.Select.{sum, values}
use bitcoinlib.Wallet.Select.Tests.{coins, unordered, unordered-IsDatabase, any_key, worth}
use bitcoinlib.Wallet.Change.{Draft, Network, sum_ℤ}
use bitcoinlib.Wallet.Change.Tests.{evenly}
use bitcoinlib.Wallet.Payment.{pay, pay_bounds}

abbrev test_net : Network
test_net = record { dust_amount = 5; fee_min = 1; fee_max = 1000 }

abbrev owed : Draft
owed = record {
  input_total = 0;
  output_total = 60;
  size = 200;
  vsize = 200;
  fee_per_kb = 0;
  estimated = 0;
}

-- Two outputs are spent; the change that is left over is an output.
pay_with_change :
    pay (unordered coins) any_key evenly test_net owed (λ n. n) 10 1 0
    ≡ ok (worth 50 ∷ worth 40 ∷ [], (pos 10, pos 20 ∷ []))
unfolding pay
pay_with_change = refl

pay_too_much :
    pay
      (unordered coins)
      any_key
      evenly
      test_net
      (record owed { output_total = 600 })
      (λ n. n)
      10
      1
      0
    ≡ err wallet_error
unfolding pay
pay_too_much = refl

pay_bounds_example :
    ((paid : ℕ) × (pos 10 ≡ pos paid) × (10 ≤ paid) × (paid ≤ 10 + 5))
    × (pos (sum (values (worth 50 ∷ worth 40 ∷ []))) ≡ pos 10 +ℤ (pos 60 +ℤ sum_ℤ (pos 20 ∷ [])))
pay_bounds_example =
    pay_bounds (unordered coins) any_key evenly test_net owed (λ n. n) 10 1 0
      (worth 50 ∷ worth 40 ∷ []) (pos 10) (pos 20 ∷ []) (unordered-IsDatabase coins) pay_with_change
