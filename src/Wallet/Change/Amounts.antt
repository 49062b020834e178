-- ===== src/Wallet/Change/Amounts.antt =====
-- The fee, and the amounts of the change, in `Wallet.transaction_create` of bitcoinlib/wallets.py.
use bitcoinlib.Common.{
  ℕ, ◌+◌, ◌≡◌, ◌<◌, refl, sym, ap, ◌∙◌, ◌⊎◌, List, [], ◌∷◌, Bool, true, false, not, ◌&&◌, ◌||◌,
  Option, none, some, ok, Bool-cases, inl, inr, arith, length, ltb, ◌==◌, ok_value,
}
use bitcoinlib.Common.Integer.{
  ℤ, pos, negsuc, pos_part, neg_part, sub_ℕ, ◌+ℤ◌, ◌-ℤ◌, ltb_ℤ, leb_ℤ, eq_of_parts,
}
use bitcoinlib.Wallet.Change.{
  Draws, Network, Draft, Settled, settle, skip_change, sum_ℤ, round_first, change_amounts, pay_keys,
}

-- Both parts of a sum and of a difference.
sub_parts : (a b : ℕ) → pos_part (sub_ℕ a b) + b ≡ a + neg_part (sub_ℕ a b)
sub_parts a b = ground arith

plus_parts :
    (a b : ℤ)
    → pos_part (a +ℤ b) + (neg_part a + neg_part b) ≡ pos_part a + pos_part b + neg_part (a +ℤ b)
plus_parts a b = sub_parts _ _

minus_parts :
    (a b : ℤ)
    → pos_part (a -ℤ b) + (neg_part a + pos_part b) ≡ pos_part a + neg_part b + neg_part (a -ℤ b)
minus_parts a b = sub_parts _ _

rest_added : (i o f : ℤ) → i ≡ f +ℤ (o +ℤ (i -ℤ (o +ℤ f)))
rest_added i o f = eq_of_parts _ _ (
    omega (
      arith,
      plus_parts o f,
      minus_parts i (o +ℤ f),
      plus_parts o (i -ℤ (o +ℤ f)),
      plus_parts f (o +ℤ (i -ℤ (o +ℤ f))),
    ))

fee_added : (i o : ℤ) → i ≡ (i -ℤ o) +ℤ (o +ℤ pos 0)
fee_added i o =
    eq_of_parts _ _
      (omega (arith, minus_parts i o, plus_parts o (pos 0), plus_parts (i -ℤ o) (o +ℤ pos 0)))

change_moved : (f o c : ℤ) → f +ℤ (o +ℤ c) ≡ (f +ℤ c) +ℤ (o +ℤ pos 0)
change_moved f o c = eq_of_parts _ _ (
    omega (
      arith,
      plus_parts o c,
      plus_parts f (o +ℤ c),
      plus_parts f c,
      plus_parts o (pos 0),
      plus_parts (f +ℤ c) (o +ℤ pos 0),
    ))

-- `a + (change - (a + rest)) + rest` is the change.
rounded_sum : (c a s : ℤ) → (a +ℤ (c -ℤ (a +ℤ s))) +ℤ s ≡ c
rounded_sum c a s = eq_of_parts _ _ (
    omega (
      arith,
      plus_parts a s,
      minus_parts c (a +ℤ s),
      plus_parts a (c -ℤ (a +ℤ s)),
      plus_parts (a +ℤ (c -ℤ (a +ℤ s))) s,
    ))

plus-zero : (a : ℤ) → a +ℤ pos 0 ≡ a
plus-zero a = eq_of_parts _ _ (omega (arith, plus_parts a (pos 0)))

-- `fee + change` is what the inputs are worth beyond the outputs.
abbrev pub IsBalanced : Draft → ℤ → ℤ → Type 0
IsBalanced d fee change = pos d.input_total ≡ fee +ℤ (pos d.output_total +ℤ change)

pub settle-IsBalanced :
    (r : Draws) (n : Network) (d : Draft) (given : Bool) (fee : Option ℕ)
    → IsBalanced d (settle r n d given fee).fee (settle r n d given fee).change
unfolding settle
settle-IsBalanced r n d given (some fee) =
    rest_added (pos d.input_total) (pos d.output_total) (pos fee)
settle-IsBalanced r n d false none =
    rest_added (pos d.input_total) (pos d.output_total) (settle r n d false none).fee
settle-IsBalanced r n d true none =
    elim (Bool-cases ((d.output_total == 0) || (d.input_total == 0))) [
      | inl t ↦ rw t (rest_added (pos d.input_total) (pos d.output_total) (pos 0))
      | inr f ↦ rw f (fee_added (pos d.input_total) (pos d.output_total))
    ]

-- The test for a change that is skipped.
abbrev is_skipped : Network → Settled → Bool
is_skipped n s =
    (not (s.fee_per_output == 0) && ltb_ℤ s.change (pos s.fee_per_output))
    || leb_ℤ s.change (pos n.dust_amount)

pub skip_change-IsBalanced :
    (n : Network) (d : Draft) (s : Settled)
    → IsBalanced d s.fee s.change
    → IsBalanced d (skip_change n s).fee (skip_change n s).change
unfolding skip_change
skip_change-IsBalanced n d s h = elim (Bool-cases (is_skipped n s)) [
  | inl t ↦ rw t (h ∙ change_moved s.fee (pos d.output_total) s.change)
  | inr f ↦ rw f h
]

second_false : (a b : Bool) → a || b ≡ false → b ≡ false
second_false a b h = ground arith

-- A change that is not skipped is above the dust amount.
pub skip_change-above :
    (n : Network) (s : Settled)
    → ((skip_change n s).change ≡ pos 0)
      ⊎ ((c : ℕ) × ((skip_change n s).change ≡ pos c) × (n.dust_amount < c))
unfolding skip_change
skip_change-above n s = elim (Bool-cases (is_skipped n s)) [
  | inl t ↦ rw t (inl refl)
  | inr f ↦ rw f (inr (above s.change (second_false _ _ f)))
]
  where
    above :
        (a : ℤ) → leb_ℤ a (pos n.dust_amount) ≡ false → (c : ℕ) × (a ≡ pos c) × (n.dust_amount < c)
    above (pos c) e = (c, refl, ground arith)
    above (negsuc c) e = absurd (ground arith)

round_first-sum :
    (change : ℤ) (shares amounts : List ℤ)
    → round_first change shares ≡ ok amounts
    → sum_ℤ amounts ≡ change
unfolding round_first
round_first-sum change [] amounts h = cc
round_first-sum change (a ∷ rest) amounts h =
    ap sum_ℤ (sym (ok_value h)) ∙ rounded_sum change a (sum_ℤ rest)

pub round_first-length :
    (change : ℤ) (shares amounts : List ℤ)
    → round_first change shares ≡ ok amounts
    → length amounts ≡ length shares
unfolding round_first
round_first-length change [] amounts h = cc
round_first-length change (a ∷ rest) amounts h = ap length (sym (ok_value h))

-- The amounts of the change outputs are worth the change, and there are as many as were asked for.
module _ (r : Draws) (count : ℕ) (least change : ℤ) (amounts : List ℤ)
    (h : change_amounts r count least change ≡ ok amounts) where
  pub change_amounts-sum : sum_ℤ amounts ≡ change
  unfolding change_amounts
  change_amounts-sum = elim (Bool-cases (ltb 1 count)) [
    | inl t ↦ round_first-sum change _ amounts (rw (t, change_amounts) at h)
    | inr f ↦ ap sum_ℤ (sym (ok_value (rw (f, change_amounts) at h))) ∙ plus-zero change
  ]

pub pay_keys-all : (amounts : List ℤ) → pay_keys (length amounts) amounts ≡ ok amounts
unfolding pay_keys
pay_keys-all [] = refl
pay_keys-all (a ∷ rest) = rw (pay_keys-all rest) refl
