-- ===== src/Wallet/Payment.antt =====
-- bitcoinlib/wallets.py, `Wallet.transaction_create` for an amount and a fee in numbers and no inputs:
-- the outputs to spend are selected, and the fee and the change are settled against them.
mod Tests
use bitcoinlib.Common.{
  ℕ, ◌+◌, ◌≤◌, ◌≡◌, refl, sym, ap, ◌∙◌, List, [], ◌∷◌, Bool, true, false, not, ◌&&◌, ◌||◌, Option,
  none, some, Result, ok, err, wallet_error, ◌>>=◌, ◌>>◌, guard, arith, leb, ◌-◌, bind_ok, guard_ok,
  ok_value, Bool-cases, inl, inr, if◌then◌else◌,
}
use bitcoinlib.Common.Integer.{
  ℤ, pos, negsuc, pos_part, neg_part, ◌+ℤ◌, ◌-ℤ◌, ltb_ℤ, leb_ℤ, int_eq, int_eq→eq,
}
use bitcoinlib.Wallet.Select.{Utxo, Database, Query, sum, values, no_utxos, eligible, select_inputs}
use bitcoinlib.Wallet.Select.Choice.{IsDatabase}
use bitcoinlib.Wallet.Select.Promise.{Selects, Selection}
use bitcoinlib.Wallet.Select.Refinement.{select_inputs-Selects}
use bitcoinlib.Wallet.Change.{
  Draws, Network, Draft, Settled, settle, skip_change, add_change, check_totals, check_fee, sum_ℤ,
  finish_transaction,
}

-- The draft of a transaction whose inputs are these outputs.
abbrev pub with_inputs : Draft → List Utxo → Draft
with_inputs draft selected = record draft { input_total = sum (values selected) }

-- `fee` is the argument, and `max_utxos` is 0 for None.
unfoldable pub pay :
    Database
    → Query
    → Draws
    → Network
    → Draft
    → (ℕ → ℕ)
    → ℕ
    → ℕ
    → ℕ
    → Result (List Utxo × (ℤ × List ℤ))
unfolding select_inputs finish_transaction
pay d q r n draft keys fee number max_utxos = do
  selected ← select_inputs d q (draft.output_total + fee) n.dust_amount max_utxos
  guard (not (no_utxos selected)) wallet_error
  finished ← finish_transaction r n (with_inputs draft selected) keys false (some fee) number
  ok (selected, finished)

covered :
    (us : List Utxo) (amount max_utxos : ℕ) (selected : List Utxo) (result : Result (List Utxo))
    → result ≡ ok selected
    → no_utxos selected ≡ false
    → Selects us amount max_utxos result
    → amount ≤ sum (values selected)
covered us amount max_utxos selected result e f (Selects.unavailable h) = cc
covered us amount max_utxos selected result e f (Selects.found s) = rw (ok_value e) at s.covers
covered us amount max_utxos selected result e f (Selects.lacking h) =
    absurd (some_utxos (ok_value e) f)
  where
    some_utxos : {selected : List Utxo} → [] ≡ selected → no_utxos selected ≡ false → ⊥
    some_utxos e f = cc

left_over : (i o f : ℕ) → o + f ≤ i → pos i -ℤ (pos o +ℤ pos f) ≡ pos (i - (o + f))
left_over i o f h = ground arith

-- A fee that is given, and what is left over.
abbrev given : ℕ → ℕ → ℤ → Settled
given fee per_kb change = record {
  fee = pos fee;
  change = change;
  fee_per_output = 0;
  fee_per_kb = per_kb;
}

plus_pos : (a b : ℕ) → pos a +ℤ pos b ≡ pos (a + b)
plus_pos a b = ground arith

-- What is left over is added to the fee where it is at most the dust amount.
skip_change-given :
    (n : Network) (fee per_kb change : ℕ)
    → (paid : ℕ) × ((skip_change n (given fee per_kb (pos change))).fee ≡ pos paid)
      × (fee ≤ paid)
      × (paid ≤ fee + n.dust_amount)
unfolding skip_change
skip_change-given n fee per_kb change = elim (Bool-cases (leb_ℤ (pos change) (pos n.dust_amount))) [
  | inl t ↦ (fee + change, rw t (plus_pos fee change), omega arith, ground arith)
  | inr f ↦ (fee, rw f refl, omega arith, omega arith)
]

-- The fee that is settled for inputs that cover the outputs and the fee asked for.
settled_fee :
    (r : Draws) (n : Network) (d : Draft) (fee : ℕ)
    → d.output_total + fee ≤ d.input_total
    → (paid : ℕ) × ((skip_change n (settle r n d false (some fee))).fee ≡ pos paid)
      × (fee ≤ paid)
      × (paid ≤ fee + n.dust_amount)
unfolding settle
settled_fee r n d fee h =
    let change = d.input_total - (d.output_total + fee) in
    let (paid, e, low, high) = skip_change-given n fee d.fee_per_kb change in
    (
      paid,
      ap (λ c. (skip_change n (given fee d.fee_per_kb c)).fee)
            (left_over d.input_total d.output_total fee h)
          ∙ e,
      low,
      high,
    )

-- A transaction that is finished is balanced, at the fee that was settled.
finish_transaction-balance :
    (r : Draws) (n : Network) (d : Draft) (keys : ℕ → ℕ) (handed_over : Bool) (fee : Option ℕ)
    (number : ℕ) (total_fee : ℤ) (amounts : List ℤ)
    → finish_transaction r n d keys handed_over fee number ≡ ok (total_fee, amounts)
    → ((skip_change n (settle r n d handed_over fee)).fee ≡ total_fee)
      × (pos d.input_total ≡ total_fee +ℤ (pos d.output_total +ℤ sum_ℤ amounts))
unfolding finish_transaction check_totals
finish_transaction-balance r n d keys handed_over fee number total_fee amounts h =
    let s = skip_change n (settle r n d handed_over fee) in
    let (outs, f, g) = bind_ok (add_change r n d keys number s) _ _ h in
    let (balance, g') =
      guard_ok (int_eq (pos d.input_total) (s.fee +ℤ (pos d.output_total +ℤ sum_ℤ outs))) _ _ _ g in
    let (checked, f', g'') = bind_ok (check_fee r n d s) _ _ g' in
    let same_fee : s.fee ≡ total_fee = ap (λ x. x.0) (ok_value g'') in
    let same : outs ≡ amounts = ap (λ x. x.1) (ok_value g'') in
    (
      same_fee,
      int_eq→eq _ _ balance
          ∙ ap (λ f. f +ℤ (pos d.output_total +ℤ sum_ℤ outs)) same_fee
          ∙ ap (λ os. total_fee +ℤ (pos d.output_total +ℤ sum_ℤ os)) same,
    )

-- What a payment is made of.
module _ (d : Database) (q : Query) (r : Draws) (n : Network) (draft : Draft) (keys : ℕ → ℕ)
    (fee number max_utxos : ℕ) where
  abbrev selection : Result (List Utxo)
  selection = select_inputs d q (draft.output_total + fee) n.dust_amount max_utxos

  abbrev finished : List Utxo → Result (ℤ × List ℤ)
  finished selected =
      finish_transaction r n (with_inputs draft selected) keys false (some fee) number

  pay-parts :
      (selected : List Utxo) (result : ℤ × List ℤ)
      → pay d q r n draft keys fee number max_utxos ≡ ok (selected, result)
      → (selection ≡ ok selected) × (no_utxos selected ≡ false) × (finished selected ≡ ok result)
  unfolding pay
  pay-parts selected result h =
      let (chosen, e, g) = bind_ok selection _ _ h in
      let (nonempty, g') = guard_ok (not (no_utxos chosen)) _ _ _ g in
      let (done, f, g'') = bind_ok (finished chosen) _ _ g' in
      let same : chosen ≡ selected = ap (λ x. x.0) (ok_value g'') in
      (
        e ∙ ap ok same,
        ap no_utxos (sym same) ∙ not_true (no_utxos chosen) nonempty,
        ap finished (sym same) ∙ f ∙ ap (λ x. ok (x.1)) (ok_value g''),
      )
    where
      not_true : (b : Bool) → not b ≡ true → b ≡ false
      not_true b h = ground arith

-- A payment for which the wallet selects the inputs pays at least the fee that it is asked for and at
-- most the dust amount more, and the outputs that it spends are worth its fee, its outputs and its change
-- together. The condition is that the database returns the rows of a query in some order.
pub pay_bounds :
    (d : Database) (q : Query) (r : Draws) (n : Network) (draft : Draft) (keys : ℕ → ℕ)
    (fee number max_utxos : ℕ) (selected : List Utxo) (total_fee : ℤ) (amounts : List ℤ)
    → IsDatabase d
    → pay d q r n draft keys fee number max_utxos ≡ ok (selected, (total_fee, amounts))
    → ((paid : ℕ) × (total_fee ≡ pos paid) × (fee ≤ paid) × (paid ≤ fee + n.dust_amount))
      × (pos (sum (values selected)) ≡ total_fee +ℤ (pos draft.output_total +ℤ sum_ℤ amounts))
pay_bounds d q r n draft keys fee number max_utxos selected total_fee amounts k h =
    let (e, nonempty, f) =
      pay-parts d q r n draft keys fee number max_utxos selected (total_fee, amounts) h in
    let enough =
      covered (eligible d q) (draft.output_total + fee) max_utxos selected _ e nonempty
        (select_inputs-Selects d q (draft.output_total + fee) n.dust_amount max_utxos k) in
    let (paid, g, low, high) = settled_fee r n (with_inputs draft selected) fee enough in
    let (same, balance) =
      finish_transaction-balance r n (with_inputs draft selected) keys false (some fee) number
        total_fee amounts f in
    ((paid, sym same ∙ g, low, high), balance)
