-- ===== src/Transaction/Fee/Tests.antt =====
-- Runs of `Transaction.bumpfee` of bitcoinlib/transactions.py.
use bitcoinlib.Common.{
  ℕ, ◌+◌, ◌≤◌, ◌≡◌, refl, List, [], ◌∷◌, true, some, ok, err, transaction_error, arith,
}
use bitcoinlib.Common.Integer.{pos}
use bitcoinlib.Transaction.{Output, Transaction}
use bitcoinlib.Transaction.Tests.{spend, payment}
use bitcoinlib.Transaction.Fee.{bumpfee}
use bitcoinlib.Transaction.Fee.Laws.{gains, debts, bumpfee-gains}

abbrev change_of : ℕ → Output
change_of v = record payment { value = pos v; change = true }

abbrev with_outputs : List Output → Transaction
with_outputs outputs = record spend { outputs = outputs }

abbrev bumped : Transaction
bumped = record (with_outputs (payment ∷ change_of 700 ∷ [])) { fee = some (pos 1300) }

bump_once : bumpfee 0 1000 80 0 300 (with_outputs (payment ∷ change_of 1000 ∷ [])) ≡ ok bumped
unfolding bumpfee
bump_once = refl

-- A change output behind one that was deleted pays the whole extra fee again.
bump_twice :
    bumpfee 0 1000 80 0 300 (with_outputs (change_of 100 ∷ change_of 900 ∷ payment ∷ []))
    ≡ ok (record (with_outputs (change_of 600 ∷ payment ∷ [])) { fee = some (pos 1300) })
unfolding bumpfee
bump_twice = refl

-- A change output of less than twice the extra fee is deleted as a whole.
bump_whole :
    bumpfee 0 1000 80 0 300 (with_outputs (payment ∷ change_of 500 ∷ []))
    ≡ ok (record (with_outputs (payment ∷ [])) { fee = some (pos 1300) })
unfolding bumpfee
bump_whole = refl

bump_too_much :
    bumpfee 0 1000 80 0 300 (with_outputs (payment ∷ change_of 200 ∷ [])) ≡ err transaction_error
unfolding bumpfee
bump_too_much = refl

bumpfee-gains_example :
    (n : ℕ) × (bumped.fee ≡ some (pos (1000 + n)))
    × (80 ≤ n)
    × (gains bumped.outputs + n ≤ gains (payment ∷ change_of 1000 ∷ []) + debts bumped.outputs)
bumpfee-gains_example =
    bumpfee-gains 0 1000 80 0 300 (with_outputs (payment ∷ change_of 1000 ∷ [])) bumped
      (omega arith) ((4000, refl), ((1000, refl), tt)) bump_once
