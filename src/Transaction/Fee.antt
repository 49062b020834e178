-- ===== src/Transaction/Fee.antt =====
-- bitcoinlib/transactions.py, `Transaction.bumpfee`, up to the signing that ends it.
pub mod Laws
mod Tests
use bitcoinlib.Common.{
  ℕ, zero, suc, ◌+◌, ◌-◌, List, [], ◌∷◌, Bool, true, false, not, ◌&&◌, Option, none, some, Result,
  ok, err, transaction_error, ◌>>=◌, ◌>>◌, guard, ltb, leb, ◌==◌, if◌then◌else◌,
}
use bitcoinlib.Common.Integer.{ℤ, pos, negsuc, ◌+ℤ◌, ◌-ℤ◌, ltb_ℤ, int_eq}
use bitcoinlib.Transaction.{Input, Output, Transaction}

-- What becomes of an output, and the fee that remains: a change output pays the whole extra fee if
-- it is worth more than twice what remains, and is deleted if it is not.
-- `change` and `v` are those of the output.
unfoldable pub charge_as : ℤ → ℤ → Bool → ℤ → Output → Option Output × ℤ
charge_as extra_fee remaining false v o = (some o, remaining)
charge_as extra_fee remaining true v o =
    if int_eq remaining (pos 0)
    then (some o, remaining)
    else if ltb_ℤ (remaining +ℤ remaining) v
    then (some (record o { value = v -ℤ extra_fee }), pos 0)
    else if ltb_ℤ v remaining
    then (none, remaining -ℤ v)
    else (none, pos 0)

unfoldable pub charge : ℤ → ℤ → Output → Option Output × ℤ
unfolding charge_as
charge extra_fee remaining o = charge_as extra_fee remaining o.change o.value o

abbrev pub cons_kept : Option Output → List Output → List Output
cons_kept none os = os
cons_kept (some o) os = o ∷ os

unfoldable pub charge_outputs : ℤ → ℤ → List Output → List Output × ℤ
unfolding charge
charge_outputs extra_fee remaining [] = ([], remaining)
charge_outputs extra_fee remaining (o ∷ os) =
    let (kept, left) = charge extra_fee remaining o in
    let (others, rest) = charge_outputs extra_fee left os in (cons_kept kept others, rest)

-- The new fee and the extra fee, for a transaction of fee `current` and size `vsize`: 0 stands for
-- an argument that is not given. The fee that is chosen where neither is given is computed in
-- floating point, and is an argument here.
unfoldable pub choose_fee : ℕ → ℕ → ℕ → ℕ → ℕ → Result (ℕ × ℤ)
choose_fee default_fee current vsize zero zero = ok (default_fee, pos default_fee -ℤ pos current)
choose_fee default_fee current vsize zero (suc extra) = do
  guard (not (ltb (suc extra) vsize)) transaction_error
  ok (current + suc extra, pos (suc extra))
choose_fee default_fee current vsize (suc fee) extra_fee = do
  guard (not (ltb (suc fee) (current + vsize))) transaction_error
  ok (suc fee, pos (suc fee) -ℤ pos current)

-- The transaction that is signed; `current` is its fee, which must not be 0.
unfoldable pub bumpfee : ℕ → ℕ → ℕ → ℕ → ℕ → Transaction → Result Transaction
unfolding choose_fee charge_outputs
bumpfee default_fee current vsize fee extra_fee t = do
  guard (not (current == 0)) transaction_error
  (new_fee, extra) ← choose_fee default_fee current vsize fee extra_fee
  let charged = charge_outputs extra extra t.outputs
  guard (int_eq charged.1 (pos 0)) transaction_error
  ok (record t { outputs = charged.0; fee = some (pos new_fee) })
