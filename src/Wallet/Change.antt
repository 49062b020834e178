-- ===== src/Wallet/Change.antt =====
-- bitcoinlib/wallets.py, the part of `Wallet.transaction_create` behind the inputs: the fee, the
-- change and its outputs, and the checks at the end. What is computed in floating point or drawn
-- at random is an interface, and the sizes are those that `estimate_size` has returned.
pub mod Amounts
pub mod Balance
pub mod Tests
use bitcoinlib.Common.{
  ℕ, zero, suc, ◌+◌, ◌*◌, ◌/◌, List, [], ◌∷◌, Bool, true, false, not, ◌&&◌, ◌||◌, Option, none,
  some, Result, ok, err, wallet_error, index_error, ◌>>=◌, ◌>>◌, guard, ltb, ◌==◌, if◌then◌else◌,
  length,
}
use bitcoinlib.Common.Integer.{ℤ, pos, negsuc, pos_part, ◌+ℤ◌, ◌-ℤ◌, ltb_ℤ, leb_ℤ, int_eq}

pub record Network : Type 0 where
  pub dust_amount : ℕ
  pub fee_min : ℕ
  pub fee_max : ℕ

-- `fee_of_size` is `round((size / 1000.0) * fee_per_kb)` and `fee_per_kb` is
-- `round((fee * 1000.0) / vsize)`. `many`, `few` and `several` are drawn from 2 to 5, 1 to 3, and
-- 3 to 4. `shares` are the amounts drawn for a number of outputs, of at least a value each, out of
-- the change.
pub record Draws : Type 0 where
  pub fee_of_size : ℕ → ℕ → ℕ
  pub fee_per_kb : ℤ → ℕ → ℤ
  pub many : ℕ
  pub few : ℕ
  pub several : ℕ
  pub shares : ℕ → ℤ → ℤ → List ℤ

-- The totals of the inputs and of the outputs that are paid, the sizes, the fee per kilobyte that
-- was estimated before the inputs were chosen (0 for None) and the one that is asked for after it.
pub record Draft : Type 0 where
  pub input_total : ℕ
  pub output_total : ℕ
  pub size : ℕ
  pub vsize : ℕ
  pub fee_per_kb : ℕ
  pub estimated : ℕ

-- `fee_per_output` and `fee_per_kb` are 0 where they are None.
pub record Settled : Type 0 where
  pub fee : ℤ
  pub change : ℤ
  pub fee_per_output : ℕ
  pub fee_per_kb : ℕ

abbrev pub is_zero : ℤ → Bool
is_zero a = int_eq a (pos 0)

-- The fee per kilobyte, at least the lowest one of the network.
abbrev pub raise_fee : ℕ → ℕ → ℕ → ℕ
raise_fee fee_min estimated per_kb =
    let asked = if per_kb == 0 then estimated else per_kb in
    if ltb asked fee_min then fee_min else asked

-- `fee` is the argument, `none` for None; `given` says whether inputs were handed over.
unfoldable pub settle : Draws → Network → Draft → Bool → Option ℕ → Settled
settle r n d given (some fee) = record {
  fee = pos fee;
  change = pos d.input_total -ℤ (pos d.output_total +ℤ pos fee);
  fee_per_output = 0;
  fee_per_kb = d.fee_per_kb;
}
settle r n d false none =
    let per_kb = raise_fee n.fee_min d.estimated d.fee_per_kb in
    let fee = r.fee_of_size d.size per_kb in
    record {
      fee = pos fee;
      change = pos d.input_total -ℤ (pos d.output_total +ℤ pos fee);
      fee_per_output = r.fee_of_size 50 per_kb;
      fee_per_kb = per_kb;
    }
settle r n d true none =
    if (d.output_total == 0) || (d.input_total == 0)
    then record {
      fee = pos 0;
      change = pos d.input_total -ℤ (pos d.output_total +ℤ pos 0);
      fee_per_output = 0;
      fee_per_kb = d.fee_per_kb;
    }
    else record {
      fee = pos d.input_total -ℤ pos d.output_total;
      change = pos 0;
      fee_per_output = 0;
      fee_per_kb = d.fee_per_kb;
    }

-- Change that is too small is added to the fee.
unfoldable pub skip_change : Network → Settled → Settled
skip_change n s =
    if (not (s.fee_per_output == 0) && ltb_ℤ s.change (pos s.fee_per_output))
      || leb_ℤ s.change (pos n.dust_amount)
    then record s { fee = s.fee +ℤ s.change; change = pos 0 }
    else s

unfoldable pub min_output_value : Draws → Network → Draft → Settled → ℤ
min_output_value r n d s =
    let per_kb = if s.fee_per_kb == 0 then r.fee_per_kb s.fee d.vsize else pos s.fee_per_kb in
    if not (is_zero s.fee) && not (d.size == 0)
    then (per_kb +ℤ pos (n.fee_min * 2)) +ℤ pos n.dust_amount
    else pos (n.dust_amount * 2 + n.fee_min * 4)

-- Eight times an integer.
abbrev pub eightfold : ℤ → ℤ
eightfold a = let double = a +ℤ a in let fourfold = double +ℤ double in fourfold +ℤ fourfold

-- `number_of_change_outputs`, drawn where it is 0. The quotients by 10 are taken as exact.
unfoldable pub number_of_outputs : Draws → Draft → ℤ → ℤ → ℕ → ℕ
number_of_outputs r d min_value change (suc n) = suc n
number_of_outputs r d min_value change zero =
    if ltb (pos_part change * 10) d.output_total || ltb_ℤ change (eightfold min_value)
    then 1
    else if ltb (d.output_total * 10) (pos_part change)
    then r.many
    else if r.few == 3
    then r.several
    else r.few

abbrev pub sum_ℤ : List ℤ → ℤ
sum_ℤ [] = pos 0
sum_ℤ (a ∷ rest) = a +ℤ sum_ℤ rest

-- `change_amounts[0] += rounding_diff`
unfoldable pub round_first : ℤ → List ℤ → Result (List ℤ)
round_first change [] = err index_error
round_first change (a ∷ rest) = ok ((a +ℤ (change -ℤ sum_ℤ (a ∷ rest))) ∷ rest)

unfoldable pub change_amounts : Draws → ℕ → ℤ → ℤ → Result (List ℤ)
unfolding round_first
change_amounts r number min_value change =
    if ltb 1 number then round_first change (r.shares number min_value change) else ok (change ∷ [])

-- `transaction.add_output(change_amounts[idx], …)` for each change key.
unfoldable pub pay_keys : ℕ → List ℤ → Result (List ℤ)
pay_keys zero amounts = ok []
pay_keys (suc keys) [] = err index_error
pay_keys (suc keys) (a ∷ others) = do rest ← pay_keys keys others; ok (a ∷ rest)

-- The values of the change outputs; `keys` is the number of keys that are got for a number of
-- outputs. `change // number_of_change_outputs` is that of a change that is not negative.
unfoldable pub change_outputs : Draws → Network → Draft → (ℕ → ℕ) → ℕ → Settled → Result (List ℤ)
unfolding min_output_value number_of_outputs change_amounts pay_keys
change_outputs r n d keys number s =
    let least = min_output_value r n d s in
    let count = number_of_outputs r d least s.change number in
    let average = pos (pos_part s.change / count) in
    do
      guard (not (ltb 1 count && ltb_ℤ average least)) wallet_error
      amounts ← change_amounts r count least s.change
      pay_keys (keys count) amounts

unfoldable pub add_change : Draws → Network → Draft → (ℕ → ℕ) → ℕ → Settled → Result (List ℤ)
unfolding change_outputs
add_change r n d keys number s = do
  guard (not (ltb_ℤ s.change (pos 0))) wallet_error
  if is_zero s.change then ok [] else change_outputs r n d keys number s

-- `transaction.input_total != transaction.fee + transaction.output_total`
unfoldable pub check_totals : Draft → ℤ → List ℤ → Result (Unit {0})
check_totals d fee amounts =
    guard (int_eq (pos d.input_total) (fee +ℤ (pos d.output_total +ℤ sum_ℤ amounts))) wallet_error

unfoldable pub check_fee : Draws → Network → Draft → Settled → Result (Unit {0})
check_fee r n d s =
    let per_kb = if s.fee_per_kb == 0 then r.fee_per_kb s.fee d.vsize else pos s.fee_per_kb in
    do
      guard (not (ltb_ℤ per_kb (pos n.fee_min))) wallet_error
      guard (not (ltb_ℤ (pos n.fee_max) per_kb)) wallet_error

-- The fee, and the values of the change outputs.
unfoldable pub finish_transaction :
    Draws → Network → Draft → (ℕ → ℕ) → Bool → Option ℕ → ℕ → Result (ℤ × List ℤ)
unfolding settle skip_change add_change check_totals check_fee
finish_transaction r n d keys given fee number =
    let s = skip_change n (settle r n d given fee) in
    do
      amounts ← add_change r n d keys number s
      check_totals d s.fee amounts
      check_fee r n d s
      ok (s.fee, amounts)
