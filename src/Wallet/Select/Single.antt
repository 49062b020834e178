-- ===== src/Wallet/Select/Single.antt =====
-- A single output in `Wallet.select_inputs` of bitcoinlib/wallets.py, and what it promises.
use mathlib.Core.List.{Sublistᴰ, Permᴰ}
use mathlib.Core.List.Permᴰ
use bitcoinlib.Common.{
  ℕ, zero, suc, ◌≤◌, ◌<◌, ◌≡◌, refl, sym, ap, ◌∙◌, List, [], ◌∷◌, Bool, true, false, none, some,
  Option-cases, inl, inr, arith, length, leb,
}
use bitcoinlib.Wallet.Select.{
  Utxo, Database, filter, first, sum, values, most, is_near, is_enough, is_lesser, single_utxo,
}
use bitcoinlib.Wallet.Select.Choice.{
  Choice, IsDatabase, sum-perm, length-perm, Choice-perm, Choice-part, filter-part, Choice-length,
  chosen_passes,
}
use bitcoinlib.Wallet.Select.Combinations.{nil-part}
use bitcoinlib.Wallet.Select.Promise.{Selection}

-- Where no output is enough alone, all of them are lesser.
filter-none :
    (test : Utxo → Bool) (u : Utxo) (us : List Utxo)
    → filter test (u ∷ us) ≡ []
    → (test u ≡ false) × (filter test us ≡ [])
unfolding filter
filter-none test u us h = ground arith

pub all_lesser :
    (amount : ℕ) (us : List Utxo)
    → filter (is_enough amount) us ≡ []
    → filter (is_lesser amount) us ≡ us
unfolding filter
all_lesser amount [] h = refl
all_lesser amount (u ∷ us) h =
    let (f, rest) = filter-none (is_enough amount) u us h in
    let t : is_lesser amount u ≡ true = ground arith in
    rw t (ap (λ vs. u ∷ vs) (all_lesser amount us rest))

part-lesser :
    (amount : ℕ) {l us : List Utxo}
    → filter (is_enough amount) us ≡ []
    → Sublistᴰ l us
    → length l ≡ 1
    → sum (values l) < amount
part-lesser amount h Sublistᴰ.slnil e = absurd (omega arith)
part-lesser amount h (Sublistᴰ.cons s) e =
    part-lesser amount (filter-none (is_enough amount) _ _ h).1 s e
part-lesser amount {l = u ∷ []} {us = v ∷ us} h (Sublistᴰ.cons-cons g s) e =
    let f = (filter-none (is_enough amount) v us h).0 in
    let same = ap (λ w. w.value) g in ground arith
part-lesser amount {l = u ∷ w ∷ l} {us = v ∷ us} h (Sublistᴰ.cons-cons g s) e = absurd (omega arith)

pub Choice-lesser :
    (amount : ℕ) (us c : List Utxo)
    → filter (is_enough amount) us ≡ []
    → Choice c us
    → length c ≡ 1
    → sum (values c) < amount
Choice-lesser amount us c h (l, p, s) e =
    omega (arith, sum-perm p, part-lesser amount h s (length-perm p ∙ e))

first-row :
    (us : List Utxo) (rows : List Utxo) {u : Utxo}
    → Permᴰ rows us
    → first rows ≡ some u
    → Choice (u ∷ []) us
first-row us [] p h = cc
first-row us (w ∷ ws) p h =
    rw (sym (some_eq h))
      (Choice-perm p (w ∷ [], Permᴰ.refl _, Sublistᴰ.cons-cons refl (nil-part ws)))
  where
    some_eq : {a b : Utxo} → some a ≡ some b → a ≡ b
    some_eq h = cc

first-none : (us : List Utxo) (rows : List Utxo) → Permᴰ rows us → first rows ≡ none → us ≡ []
first-none [] rows p h = refl
first-none (u ∷ us) [] p h = absurd (omega (arith, length-perm p))
first-none (u ∷ us) (w ∷ ws) p h = cc

most-pos : (m n : ℕ) → 1 ≤ n → 1 ≤ most m n
most-pos zero n h = h
most-pos (suc m) n h = omega arith

-- A single output that is enough.
pub single-Selection :
    (us : List Utxo) (amount max_utxos : ℕ) (u : Utxo)
    → Choice (u ∷ []) us
    → leb amount u.value ≡ true
    → Selection us amount max_utxos (u ∷ [])
single-Selection us amount max_utxos u chosen h = record {
  chosen = chosen;
  covers = ground arith;
  within = most-pos max_utxos (length us) (omega (arith, Choice-length chosen));
  fewest = λ c q k m. k;
}

pub single_utxo-some :
    (d : Database) (us : List Utxo) (amount variance : ℕ) (u : Utxo)
    → IsDatabase d
    → single_utxo d us amount variance ≡ some u
    → Choice (u ∷ []) us × (leb amount u.value ≡ true)
unfolding single_utxo
single_utxo-some d us amount variance u k h =
    elim (Option-cases (first (d.by_confirmations (filter (is_near amount variance) us)))) [
      | inr (v, e) ↦
          let c = first-row _ _ (k.confirmations_rows _) (e ∙ (rw (e, single_utxo) at h)) in
          (
            Choice-part c (filter-part _ us),
            ground (arith, chosen_passes (is_near amount variance) us c),
          )
      | inl e ↦
          let c = first-row _ _ (k.value_rows _) (rw (e, single_utxo) at h) in
          (Choice-part c (filter-part _ us), chosen_passes (is_enough amount) us c)
    ]

pub single_utxo-none :
    (d : Database) (us : List Utxo) (amount variance : ℕ)
    → IsDatabase d
    → single_utxo d us amount variance ≡ none
    → filter (is_enough amount) us ≡ []
unfolding single_utxo
single_utxo-none d us amount variance k h =
    elim (Option-cases (first (d.by_confirmations (filter (is_near amount variance) us)))) [
      | inr (v, e) ↦ absurd (some_none (rw (e, single_utxo) at h))
      | inl e ↦ first-none _ _ (k.value_rows _) (rw (e, single_utxo) at h)
    ]
  where
    some_none : {v : Utxo} → some v ≡ none → ⊥
    some_none h = cc
