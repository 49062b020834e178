-- ===== src/Wallet/Change/Tests.antt =====
-- Runs of the last part of `Wallet.transaction_create` of bitcoinlib/wallets.py.
use bitcoinlib.Common.{
  ℕ, ◌*◌, ◌/◌, ◌<◌, ◌≡◌, refl, ◌⊎◌, [], ◌∷◌, false, none, some, ok, arith, replicate,
  length-replicate,
}
use bitcoinlib.Common.Integer.{pos, pos_part}
use bitcoinlib.Wallet.Change.{
  Draws, Network, Draft, settle, skip_change, add_change, check_totals, finish_transaction,
}
use bitcoinlib.Wallet.Change.Balance.{IsDrawn, add_change-check_totals}

abbrev main_net : Network
main_net = record { dust_amount = 1000; fee_min = 1000; fee_max = 1000000 }

-- Equal shares, rounded down.
abbrev pub evenly : Draws
evenly = record {
  fee_of_size = λ size per_kb. size * per_kb / 1000;
  fee_per_kb = λ fee vsize. pos (pos_part fee * 1000 / vsize);
  many = 4;
  few = 2;
  several = 3;
  shares = λ n least change. replicate n (pos (pos_part change / n));
}

abbrev evenly-IsDrawn : IsDrawn evenly
evenly-IsDrawn = record {
  many_pos = omega arith;
  few_pos = omega arith;
  several_pos = omega arith;
  one_share_each = λ n least change. length-replicate n _;
}

abbrev draft : ℕ → ℕ → Draft
draft input_total output_total = record {
  input_total = input_total;
  output_total = output_total;
  size = 200;
  vsize = 200;
  fee_per_kb = 0;
  estimated = 5000;
}

one_change_output :
    finish_transaction evenly main_net (draft 100000 40000) (λ n. n) false none 1
    ≡ ok (pos 1000, pos 59000 ∷ [])
unfolding finish_transaction
one_change_output = refl

-- The first output takes what is left by rounding.
three_change_outputs :
    finish_transaction evenly main_net (draft 100000 40000) (λ n. n) false (some 500) 3
    ≡ ok (pos 500, pos 19834 ∷ pos 19833 ∷ pos 19833 ∷ [])
unfolding finish_transaction
three_change_outputs = refl

dust_change :
    finish_transaction evenly main_net (draft 41800 40000) (λ n. n) false (some 1000) 1
    ≡ ok (pos 1800, [])
unfolding finish_transaction
dust_change = refl

-- Inputs that do not cover the fee that is asked for: the fee is lowered.
lowered_fee :
    finish_transaction evenly main_net (draft 40400 40000) (λ n. n) false (some 1000) 1
    ≡ ok (pos 400, [])
unfolding finish_transaction
lowered_fee = refl

add_change-check_totals_example :
    let s = skip_change main_net (settle evenly main_net (draft 100000 40000) false (some 500)) in
    (check_totals (draft 100000 40000) s.fee (pos 19834 ∷ pos 19833 ∷ pos 19833 ∷ []) ≡ ok tt)
    × ((s.change ≡ pos 0) ⊎ ((c : ℕ) × (s.change ≡ pos c) × (1000 < c)))
unfolding add_change skip_change settle
add_change-check_totals_example =
    add_change-check_totals evenly main_net (draft 100000 40000) (λ n. n) false (some 500) 3
      (pos 19834 ∷ pos 19833 ∷ pos 19833 ∷ []) evenly-IsDrawn (λ count. refl) refl
