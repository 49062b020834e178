-- ===== src/Wallet/Change/Balance.antt =====
-- The balance of fee, outputs and change in `Wallet.transaction_create` of bitcoinlib/wallets.py.
use bitcoinlib.Common.{
  ℕ, zero, suc, ◌≡◌, ◌<◌, refl, sym, ap, ◌∙◌, ◌⊎◌, List, Bool, true, false, not, ◌&&◌, ◌||◌, Option,
  ok, Bool-cases, inl, inr, arith, length, ltb, ◌==◌, bind_ok, guard_ok, ok_value, if◌then◌else◌,
  ◌≤◌, ◌/◌, ◌*◌,
}
use bitcoinlib.Common.Integer.{ℤ, pos, pos_part, ◌+ℤ◌, ltb_ℤ, int_eq, int_eq→eq, int_eq_refl}
use bitcoinlib.Wallet.Change.{
  Draws, Network, Draft, Settled, settle, skip_change, sum_ℤ, eightfold, change_amounts, pay_keys,
  min_output_value, number_of_outputs, change_outputs, add_change, check_totals, is_zero,
}
use bitcoinlib.Wallet.Change.Amounts.{
  IsBalanced, settle-IsBalanced, skip_change-IsBalanced, skip_change-above, round_first-length,
  change_amounts-sum, pay_keys-all,
}

-- Numbers of outputs are drawn from ranges above 0, and there is a share for each output.
pub record IsDrawn (r : Draws) : Type 0 where
  pub many_pos : 1 ≤ r.many
  pub few_pos : 1 ≤ r.few
  pub several_pos : 1 ≤ r.several
  pub one_share_each : (n : ℕ) (least change : ℤ) → length (r.shares n least change) ≡ n

picked_pos : (b : Bool) {m n : ℕ} → 1 ≤ m → 1 ≤ n → 1 ≤ (if b then m else n)
picked_pos true h k = h
picked_pos false h k = k

number_of_outputs-pos :
    (r : Draws) (d : Draft) (least change : ℤ) (number : ℕ)
    → IsDrawn r
    → 1 ≤ number_of_outputs r d least change number
unfolding number_of_outputs
number_of_outputs-pos r d least change (suc n) k = omega arith
number_of_outputs-pos r d least change zero k =
    let small = ltb (pos_part change * 10) d.output_total || ltb_ℤ change (eightfold least) in
    let large = ltb (d.output_total * 10) (pos_part change) in
    picked_pos small {m = 1} (omega arith)
      (picked_pos large k.many_pos (picked_pos (r.few == 3) k.several_pos k.few_pos))

change_amounts-length :
    (r : Draws) (count : ℕ) (least change : ℤ) (amounts : List ℤ)
    → IsDrawn r
    → 1 ≤ count
    → change_amounts r count least change ≡ ok amounts
    → length amounts ≡ count
unfolding change_amounts
change_amounts-length r count least change amounts k p h = elim (Bool-cases (ltb 1 count)) [
  | inl t ↦
      round_first-length change _ amounts (rw (t, change_amounts) at h)
      ∙ k.one_share_each count least change
  | inr f ↦ let one = ap length (ok_value (rw (f, change_amounts) at h)) in ground arith
]

change_outputs-sum :
    (r : Draws) (n : Network) (d : Draft) (keys : ℕ → ℕ) (number : ℕ) (s : Settled)
    (amounts : List ℤ)
    → IsDrawn r
    → ((count : ℕ) → keys count ≡ count)
    → change_outputs r n d keys number s ≡ ok amounts
    → sum_ℤ amounts ≡ s.change
unfolding change_outputs
change_outputs-sum r n d keys number s amounts k one_key_each h =
    let least = min_output_value r n d s in
    let count = number_of_outputs r d least s.change number in
    let average = pos (pos_part s.change / count) in
    let g = guard_ok (not (ltb 1 count && ltb_ℤ average least)) _ _ amounts h in
    let (whole, e, f) = bind_ok (change_amounts r count least s.change) _ amounts g.1 in
    let size =
      change_amounts-length r count least s.change whole k
        (number_of_outputs-pos r d least s.change number k) e in
    let f' : pay_keys (length whole) whole ≡ ok amounts = rw (one_key_each count ∙ sym size) at f in
    ap sum_ℤ (sym (ok_value (sym (pay_keys-all whole) ∙ f')))
    ∙ change_amounts-sum r count least s.change whole e

add_change-sum :
    (r : Draws) (n : Network) (d : Draft) (keys : ℕ → ℕ) (number : ℕ) (s : Settled)
    (amounts : List ℤ)
    → IsDrawn r
    → ((count : ℕ) → keys count ≡ count)
    → add_change r n d keys number s ≡ ok amounts
    → sum_ℤ amounts ≡ s.change
unfolding add_change
add_change-sum r n d keys number s amounts k one_key_each h =
    let g = (guard_ok (not (ltb_ℤ s.change (pos 0))) _ _ amounts h).1 in
    elim (Bool-cases (is_zero s.change)) [
      | inl t ↦ ap sum_ℤ (sym (ok_value (rw t at g))) ∙ sym (int_eq→eq s.change (pos 0) t)
      | inr f ↦ change_outputs-sum r n d keys number s amounts k one_key_each (rw f at g)
    ]

check_totals-sum :
    (d : Draft) (fee : ℤ) (amounts : List ℤ)
    → IsBalanced d fee (sum_ℤ amounts)
    → check_totals d fee amounts ≡ ok tt
unfolding check_totals
check_totals-sum d fee amounts b =
    let t : int_eq (pos d.input_total) (fee +ℤ (pos d.output_total +ℤ sum_ℤ amounts)) ≡ true =
      ap (int_eq (pos d.input_total)) (sym b) ∙ int_eq_refl (pos d.input_total) in
    rw t refl

-- Where the change outputs are made, they are worth what is left of the inputs behind the outputs and
-- the fee, so that the check of the totals that follows does not raise, whatever amounts are drawn;
-- and the change is either none or above the dust amount. The conditions are that the ranges of the
-- random numbers are above 0 and a share is drawn for each output, and that there is a change key for
-- each change output.
pub add_change-check_totals :
    (r : Draws) (n : Network) (d : Draft) (keys : ℕ → ℕ) (given : Bool) (fee : Option ℕ)
    (number : ℕ) (amounts : List ℤ)
    → IsDrawn r
    → ((count : ℕ) → keys count ≡ count)
    → add_change r n d keys number (skip_change n (settle r n d given fee)) ≡ ok amounts
    → (check_totals d (skip_change n (settle r n d given fee)).fee amounts ≡ ok tt)
      × (((skip_change n (settle r n d given fee)).change ≡ pos 0)
          ⊎ ((c : ℕ) × ((skip_change n (settle r n d given fee)).change ≡ pos c)
              × (n.dust_amount < c)))
add_change-check_totals r n d keys given fee number amounts k one_key_each h =
    let s = skip_change n (settle r n d given fee) in
    let balanced = skip_change-IsBalanced n d _ (settle-IsBalanced r n d given fee) in
    (
      check_totals-sum d s.fee amounts
          (rw (add_change-sum r n d keys number s amounts k one_key_each h) balanced),
      skip_change-above n (settle r n d given fee),
    )
