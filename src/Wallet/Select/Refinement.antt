-- ===== src/Wallet/Select/Refinement.antt =====
-- `Wallet.select_inputs` of bitcoinlib/wallets.py against what it promises: a choice of the fewest
-- outputs that cover the amount, or none where no choice covers it.
use mathlib.Core.List.{Permᴰ}
use mathlib.Core.List.Permᴰ
use bitcoinlib.Common.{
  ℕ, ◌+◌, ◌-◌, ◌≤◌, ◌<◌, ◌≡◌, refl, sym, ap, ◌∙◌, List, [], ◌∷◌, true, Bool-cases, Option-cases,
  order_cases, inl, inr, arith, ok, length, ◌==◌, ==_iff,
}
use bitcoinlib.Wallet.Select.{
  Utxo, Database, Query, filter, sum, values, most, no_utxos, is_enough, is_lesser, eligible,
  single_utxo, enough_from, first_combination, compose, selected_utxos, select_inputs,
}
use bitcoinlib.Wallet.Select.Choice.{
  Choice, IsDatabase, length-perm, Choice-perm, length-values, Choice-values,
}
use bitcoinlib.Wallet.Select.Combinations.{enough_from-nil, enough_from-cons}
use bitcoinlib.Wallet.Select.Promise.{Selects, unavailable, found, lacking}
use bitcoinlib.Wallet.Select.Taken.{take_values-part}
use bitcoinlib.Wallet.Select.Single.{
  all_lesser, Choice-lesser, single-Selection, single_utxo-some, single_utxo-none,
}

-- The combinations of lesser outputs, where no output is enough alone.
module _ (us lessers : List Utxo) (amount max_utxos : ℕ) (few : filter (is_enough amount) us ≡ [])
    (p : Permᴰ lessers us) where
  abbrev rounds : ℕ
  rounds = most max_utxos (length (values lessers)) + 1 - 2

  size_lessers : length (values lessers) ≡ length us
  size_lessers = length-values lessers ∙ length-perm p

  same_most : most max_utxos (length (values lessers)) ≡ most max_utxos (length us)
  same_most = ap (most max_utxos) size_lessers

  first_combination-Selects :
      (result : List (List ℕ))
      → enough_from amount (values lessers) 2 rounds ≡ result
      → (selected : List Utxo) × (first_combination result lessers ≡ ok selected)
        × Selects us amount max_utxos (ok selected)
  unfolding first_combination
  first_combination-Selects [] h = ([], refl, lacking nothing)
    where
      nothing :
          (c : List Utxo)
          → Choice c us
          → 1 ≤ length c
          → length c ≤ most max_utxos (length us)
          → sum (values c) < amount
      nothing c q k m = elim (order_cases (length c) 1) [
        | inl one ↦ Choice-lesser amount us c few q (omega arith)
        | inr more ↦
            let (d, s, n, e) = Choice-values (Choice-perm (Permᴰ.symm p) q) in
            let less =
              enough_from-nil amount (values lessers) 2 rounds d h s (omega arith)
                (omega (arith, same_most)) in
            omega arith
      ]
  first_combination-Selects (c ∷ cs) h =
      let f = enough_from-cons amount (values lessers) 2 rounds c cs h in
      let (selected, e, w, q) = take_values-part c lessers f.part in
      let size : length c ≡ length selected = ap length (sym w) ∙ length-values selected in
      (
        selected,
        e,
        found (record {
          chosen = Choice-perm p q;
          covers = rw w f.covers;
          within = omega (arith, f.most, f.least, same_most);
          fewest = λ c' q' k m. elim (order_cases (length c') 1) [
            | inl one ↦ absurd (omega (arith, Choice-lesser amount us c' few q' (omega arith)))
            | inr more ↦
                let (d, s, n, g) = Choice-values (Choice-perm (Permᴰ.symm p) q') in
                omega (arith, f.fewest d s (omega arith) (omega arith))
          ];
        }),
      )

compose-Selects :
    (d : Database) (us : List Utxo) (amount max_utxos : ℕ)
    → IsDatabase d
    → filter (is_enough amount) us ≡ []
    → (selected : List Utxo) × (compose d us amount max_utxos ≡ ok selected)
      × Selects us amount max_utxos (ok selected)
unfolding compose
compose-Selects d us amount max_utxos k few = elim (Bool-cases (max_utxos == 1)) [
  | inl t ↦ (
    [],
    rw t refl,
    lacking λ c q l m.
        Choice-lesser amount us c few q (omega (arith, rw ((==_iff max_utxos 1).0 t) at m)),
  )
  | inr f ↦
      let lessers = d.by_value_desc (filter (is_lesser amount) us) in
      let p : Permᴰ lessers us = rw (all_lesser amount us few) (k.value_desc_rows us) in
      let (selected, e, s) = first_combination-Selects us lessers amount max_utxos few p _ refl in
      (selected, rw f e, s)
]

selected_utxos-Selects :
    (d : Database) (us : List Utxo) (amount variance max_utxos : ℕ)
    → IsDatabase d
    → (selected : List Utxo) × (selected_utxos d us amount variance max_utxos ≡ ok selected)
      × Selects us amount max_utxos (ok selected)
unfolding selected_utxos
selected_utxos-Selects d us amount variance max_utxos k =
    elim (Option-cases (single_utxo d us amount variance)) [
      | inl e ↦
          let (selected, g, s) =
            compose-Selects d us amount max_utxos k (single_utxo-none d us amount variance k e) in
          (selected, rw (e, selected_utxos) g, s)
      | inr (u, e) ↦
          let (c, t) = single_utxo-some d us amount variance u k e in
          (u ∷ [], rw (e, selected_utxos) refl, found (single-Selection us amount max_utxos u c t))
    ]

no_rows : (us rows : List Utxo) → Permᴰ rows us → no_utxos rows ≡ true → us ≡ []
no_rows [] rows p h = refl
no_rows (u ∷ us) [] p h = absurd (omega (arith, length-perm p))
no_rows (u ∷ us) (w ∷ ws) p h = cc

-- Selecting inputs for an amount does what it promises: without eligible outputs it raises, and
-- otherwise it returns a choice among them that covers the amount, with at most `max_utxos` outputs
-- where that is given, and with no more outputs than any other choice of one or more that covers it;
-- or it returns nothing, and then no choice of one or more eligible outputs, and of at most
-- `max_utxos`, covers the amount. The condition is that the database returns the rows of a query in
-- some order.
pub select_inputs-Selects :
    (d : Database) (q : Query) (amount variance max_utxos : ℕ)
    → IsDatabase d
    → Selects (eligible d q) amount max_utxos (select_inputs d q amount variance max_utxos)
unfolding select_inputs
select_inputs-Selects d q amount variance max_utxos k =
    elim (Bool-cases (no_utxos (d.by_confirmations (eligible d q)))) [
      | inl t ↦ rw t (unavailable (no_rows _ _ (k.confirmations_rows _) t))
      | inr f ↦
          let (selected, e, s) =
            selected_utxos-Selects d (eligible d q) amount variance max_utxos k in
          rw (f, e) s
    ]
