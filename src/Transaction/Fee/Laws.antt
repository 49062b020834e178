-- ===== src/Transaction/Fee/Laws.antt =====
-- What `Transaction.bumpfee` of bitcoinlib/transactions.py takes from the outputs.
use bitcoinlib.Common.{
  ℕ, zero, suc, ◌+◌, ◌-◌, ◌≤◌, ◌<◌, ◌≡◌, refl, sym, ap, ◌∙◌, List, [], ◌∷◌, Bool, true, false, not,
  Option, none, some, ok, transaction_error, bind_ok, guard_ok, ok_value, ltb, ◌==◌, if◌then◌else◌,
  All, arith,
}
use bitcoinlib.Common.Integer.{
  ℤ, pos, pos_part, neg_part, sub_ℕ, ◌+ℤ◌, ltb_ℤ, int_eq, int_eq→eq, eq_of_parts,
}
use bitcoinlib.Transaction.{Output, Transaction}
use bitcoinlib.Transaction.Fee.{charge_as, charge, cons_kept, charge_outputs, choose_fee, bumpfee}

abbrev pub gains : List Output → ℕ
gains [] = 0
gains (o ∷ os) = pos_part o.value + gains os

abbrev pub debts : List Output → ℕ
debts [] = 0
debts (o ∷ os) = neg_part o.value + debts os

abbrev pub NotNegative : Output → Type 0
NotNegative o = (v : ℕ) × (o.value ≡ pos v)

abbrev gain : Option Output → ℕ
gain none = 0
gain (some o) = pos_part o.value

abbrev debt : Option Output → ℕ
debt none = 0
debt (some o) = neg_part o.value

sub_parts : (a b : ℕ) → pos_part (sub_ℕ a b) + b ≡ a + neg_part (sub_ℕ a b)
sub_parts a b = ground arith

-- A charged output, with the fee that remained before and the fee that remains.
abbrev Pays : ℕ → ℕ → Option Output × ℤ → Type 0
Pays r v charged =
    (r' : ℕ) × (charged.1 ≡ pos r') × (r' ≤ r) × (gain charged.0 + r ≤ v + debt charged.0 + r')

covers_if :
    (r v : ℕ) (b : Bool) (x y : Option Output × ℤ)
    → (b ≡ true → Pays r v x)
    → (b ≡ false → Pays r v y)
    → Pays r v (if b then x else y)
covers_if r v true x y h k = h refl
covers_if r v false x y h k = k refl

-- What an output pays covers what no longer remains.
charge_as-Pays :
    (extra r v : ℕ) (change : Bool) (o : Output)
    → o.value ≡ pos v
    → r ≤ extra
    → Pays r v (charge_as (pos extra) (pos r) change (pos v) o)
unfolding charge_as
charge_as-Pays extra r v false o e small =
    (r, refl, omega arith, omega (arith, ap pos_part e, ap neg_part e))
charge_as-Pays extra r v true o e small =
    covers_if r v (int_eq (pos r) (pos 0)) _ _
      (λ z. (r, refl, omega arith, omega (arith, ap pos_part e, ap neg_part e)))
      (λ n.
        covers_if r v (ltb_ℤ (pos r +ℤ pos r) (pos v)) _ _
          (λ big. (0, refl, omega arith, omega (arith, sub_parts (v + 0) (0 + extra))))
          (λ m.
            covers_if r v (ltb_ℤ (pos v) (pos r)) _ _
              (λ l. (r - v, ground (arith, l), omega arith, ground (arith, l)))
              (λ l. (0, refl, omega arith, ground (arith, l)))))

charge-charge_as :
    (extra remaining : ℤ) (o : Output) (v : ℕ)
    → o.value ≡ pos v
    → charge extra remaining o ≡ charge_as extra remaining o.change (pos v) o
unfolding charge
charge-charge_as extra remaining o v e = ap (λ x. charge_as extra remaining o.change x o) e

charge_outputs-cons :
    (extra remaining : ℤ) (o : Output) (os : List Output)
    → charge_outputs extra remaining (o ∷ os) ≡ (
      cons_kept
          (charge extra remaining o).0
          (charge_outputs extra (charge extra remaining o).1 os).0,
      (charge_outputs extra (charge extra remaining o).1 os).1,
    )
unfolding charge_outputs
charge_outputs-cons extra remaining o os = refl

charge_outputs-nil : (extra remaining : ℤ) → charge_outputs extra remaining [] ≡ ([], remaining)
unfolding charge_outputs
charge_outputs-nil extra remaining = refl

gains-cons_kept :
    (k : Option Output) (os : List Output) → gains (cons_kept k os) ≡ gain k + gains os
gains-cons_kept none os = omega arith
gains-cons_kept (some o) os = refl

debts-cons_kept :
    (k : Option Output) (os : List Output) → debts (cons_kept k os) ≡ debt k + debts os
debts-cons_kept none os = omega arith
debts-cons_kept (some o) os = refl

-- The kept outputs, with the fee that remained before and after the loop.
abbrev PaysAll : ℕ → List Output → List Output × ℤ → Type 0
PaysAll r os charged =
    (r' : ℕ) × (charged.1 ≡ pos r')
    × (r' ≤ r)
    × (gains charged.0 + r ≤ gains os + debts charged.0 + r')

charge_outputs-PaysAll :
    (extra r : ℕ) (os : List Output)
    → All NotNegative os
    → r ≤ extra
    → PaysAll r os (charge_outputs (pos extra) (pos r) os)
charge_outputs-PaysAll extra r [] h small =
    rw (charge_outputs-nil (pos extra) (pos r)) (r, refl, omega arith, omega arith)
charge_outputs-PaysAll extra r (o ∷ os) h small =
    let (v, e) = h.0 in
    let one = charge-charge_as (pos extra) (pos r) o v e in
    let pays = rw (← one) at (charge_as-Pays extra r v o.change o e small) in
    let (left, same, less, enough) = pays in
    let others = charge_outputs-PaysAll extra left os h.1 (omega arith) in
    rw (charge_outputs-cons (pos extra) (pos r) o os, same)
      (joined (charge (pos extra) (pos r) o).0 v left e less enough others)
  where
    joined :
        (k : Option Output) (v left : ℕ)
        → o.value ≡ pos v
        → left ≤ r
        → gain k + r ≤ v + debt k + left
        → PaysAll left os (charge_outputs (pos extra) (pos left) os)
        → PaysAll r (o ∷ os) (
          cons_kept k (charge_outputs (pos extra) (pos left) os).0,
          (charge_outputs (pos extra) (pos left) os).1,
        )
    joined k v left e less enough (r', rest, lower, total) =
        let kept = (charge_outputs (pos extra) (pos left) os).0 in
        (
          r',
          rest,
          omega arith,
          omega
              (arith, enough, total, gains-cons_kept k kept, debts-cons_kept k kept, ap pos_part e),
        )

choose_fee-raises :
    (default_fee current vsize fee extra_fee f : ℕ) (x : ℤ)
    → 0 < fee + extra_fee
    → choose_fee default_fee current vsize fee extra_fee ≡ ok (f, x)
    → (n : ℕ) × (x ≡ pos n) × (f ≡ current + n) × (vsize ≤ n)
unfolding choose_fee
choose_fee-raises default_fee current vsize zero zero f x h e = absurd (omega arith)
choose_fee-raises default_fee current vsize zero (suc extra) f x h e =
    let (g, e') = guard_ok (not (ltb (suc extra) vsize)) transaction_error _ (f, x) e in
    let same = ok_value e' in
    (suc extra, sym (ap (λ y. y.1) same), sym (ap (λ y. y.0) same), ground arith)
choose_fee-raises default_fee current vsize (suc fee) extra_fee f x h e =
    let (g, e') = guard_ok (not (ltb (suc fee) (current + vsize))) transaction_error _ (f, x) e in
    let same = ok_value e' in
    let high : current + vsize ≤ suc fee = ground arith in
    (
      suc fee - current,
      sym (ap (λ y. y.1) same) ∙ eq_of_parts _ _ (ground arith),
      sym (ap (λ y. y.0) same) ∙ omega arith,
      omega arith,
    )

-- A fee that is raised by an argument is raised by at least the size of the transaction, and the
-- change outputs pay for it: the outputs together lose at least the difference between the new and
-- the old fee. The outputs have values that are not below 0; an output that is charged may end
-- below 0, and this is counted as a loss.
pub bumpfee-gains :
    (default_fee current vsize fee extra_fee : ℕ) (t t' : Transaction)
    → 0 < fee + extra_fee
    → All NotNegative t.outputs
    → bumpfee default_fee current vsize fee extra_fee t ≡ ok t'
    → (n : ℕ) × (t'.fee ≡ some (pos (current + n)))
      × (vsize ≤ n)
      × (gains t'.outputs + n ≤ gains t.outputs + debts t'.outputs)
unfolding bumpfee
bumpfee-gains default_fee current vsize fee extra_fee t t' h plain e =
    let (g, e1) = guard_ok (not (current == 0)) transaction_error _ t' e in
    let ((f, x), e2, e3) = bind_ok (choose_fee default_fee current vsize fee extra_fee) _ t' e1 in
    let (n, same, total, minimal) =
      choose_fee-raises default_fee current vsize fee extra_fee f x h e2 in
    let (g', e4) =
      guard_ok (int_eq (charge_outputs x x t.outputs).1 (pos 0)) transaction_error _ t' e3 in
    let result = ok_value e4 in
    let whole = ap (λ y. charge_outputs y y t.outputs) same in
    let (r', rest, lower, enough) = charge_outputs-PaysAll n n t.outputs plain (omega arith) in
    let none_left : r' ≡ 0 = ap pos_part (
      sym rest
      ∙ sym (ap (λ y. y.1) whole)
      ∙ int_eq→eq (charge_outputs x x t.outputs).1 (pos 0) g') in
    let outputs = sym (ap (λ y. y.0) whole) ∙ ap (λ (u : Transaction). u.outputs) result in
    (
      n,
      sym (ap (λ (u : Transaction). u.fee) result) ∙ ap (λ m. some (pos m)) total,
      minimal,
      rw (← outputs) (omega (arith, enough)),
    )
