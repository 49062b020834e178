-- ===== src/Wallet/Select/Choice.antt =====
-- A choice among the rows that a query of `Wallet.select_inputs` of bitcoinlib/wallets.py returns,
-- whatever their order, and what the order of the rows does not change.
use mathlib.Core.List.{Sublistᴰ, Permᴰ}
use mathlib.Core.List.Permᴰ
use bitcoinlib.Common.{
  ℕ, ◌+◌, ◌≤◌, ◌≡◌, refl, sym, ap, ◌∙◌, List, [], ◌∷◌, Bool, true, if◌then◌else◌, Bool-cases, inl,
  inr, arith, length,
}
use bitcoinlib.Wallet.Select.{Utxo, Database, filter, sum, values}

-- `c` is a part of `us`, in any order.
abbrev pub Choice : List Utxo → List Utxo → Type 0
Choice c us = (l : List Utxo) × Permᴰ l c × Sublistᴰ l us

-- `order_by` returns the rows of the query.
pub record IsDatabase (d : Database) : Type 0 where
  pub confirmations_rows : (us : List Utxo) → Permᴰ (d.by_confirmations us) us
  pub value_rows : (us : List Utxo) → Permᴰ (d.by_value us) us
  pub value_desc_rows : (us : List Utxo) → Permᴰ (d.by_value_desc us) us

-- A measure of the rows, added up.
abbrev pub total : (Utxo → ℕ) → List Utxo → ℕ
total f [] = 0
total f (u ∷ us) = f u + total f us

pub total-perm : (f : Utxo → ℕ) {us vs : List Utxo} → Permᴰ us vs → total f us ≡ total f vs
total-perm f Permᴰ.nil = refl
total-perm f (Permᴰ.cons e p) = omega (arith, ap f e, total-perm f p)
total-perm f (Permᴰ.swap e g) = omega (arith, ap f e, ap f g)
total-perm f (Permᴰ.trans p q) = total-perm f p ∙ total-perm f q

pub total-value : (us : List Utxo) → total (λ u. u.value) us ≡ sum (values us)
total-value [] = refl
total-value (u ∷ us) = omega (arith, total-value us)

pub total-one : (us : List Utxo) → total (λ u. 1) us ≡ length us
total-one [] = refl
total-one (u ∷ us) = omega (arith, total-one us)

pub sum-perm : {us vs : List Utxo} → Permᴰ us vs → sum (values us) ≡ sum (values vs)
sum-perm {us} {vs} p = sym (total-value us) ∙ total-perm _ p ∙ total-value vs

pub length-perm : {us vs : List Utxo} → Permᴰ us vs → length us ≡ length vs
length-perm {us} {vs} p = sym (total-one us) ∙ total-perm _ p ∙ total-one vs

-- Behind a permutation of the rows, a part of them is found again.
pub part-perm : {us vs l : List Utxo} → Permᴰ us vs → Sublistᴰ l us → Choice l vs
part-perm Permᴰ.nil s = (_, Permᴰ.refl _, s)
part-perm (Permᴰ.cons e p) (Sublistᴰ.cons s) =
    let (l, q, t) = part-perm p s in (l, q, Sublistᴰ.cons t)
part-perm (Permᴰ.cons e p) (Sublistᴰ.cons-cons g s) =
    let (l, q, t) = part-perm p s in (_ ∷ l, Permᴰ.cons refl q, Sublistᴰ.cons-cons (g ∙ e) t)
part-perm (Permᴰ.swap e g) (Sublistᴰ.cons (Sublistᴰ.cons s)) =
    (_, Permᴰ.refl _, Sublistᴰ.cons (Sublistᴰ.cons s))
part-perm (Permᴰ.swap e g) (Sublistᴰ.cons (Sublistᴰ.cons-cons h s)) =
    (_, Permᴰ.refl _, Sublistᴰ.cons-cons (h ∙ g) (Sublistᴰ.cons s))
part-perm (Permᴰ.swap e g) (Sublistᴰ.cons-cons h (Sublistᴰ.cons s)) =
    (_, Permᴰ.refl _, Sublistᴰ.cons (Sublistᴰ.cons-cons (h ∙ e) s))
part-perm (Permᴰ.swap e g) (Sublistᴰ.cons-cons h (Sublistᴰ.cons-cons k s)) =
    (_, Permᴰ.swap refl refl, Sublistᴰ.cons-cons (k ∙ g) (Sublistᴰ.cons-cons (h ∙ e) s))
part-perm (Permᴰ.trans p q) s =
    let (l, r, t) = part-perm p s in let (m, r', t') = part-perm q t in (m, Permᴰ.trans r' r, t')

-- A choice among the rows is one among the rows in another order.
pub Choice-perm : {us vs c : List Utxo} → Permᴰ us vs → Choice c us → Choice c vs
Choice-perm p (l, q, s) = let (m, r, t) = part-perm p s in (m, Permᴰ.trans r q, t)

-- What a filter lets through is a part of the rows.
pub filter-part : (test : Utxo → Bool) (us : List Utxo) → Sublistᴰ (filter test us) us
unfolding filter
filter-part test [] = Sublistᴰ.slnil
filter-part test (u ∷ us) = elim (Bool-cases (test u)) [
  | inl t ↦ rw t (Sublistᴰ.cons-cons refl (filter-part test us))
  | inr f ↦ rw f (Sublistᴰ.cons (filter-part test us))
]

part-trans : {l us vs : List Utxo} → Sublistᴰ l us → Sublistᴰ us vs → Sublistᴰ l vs
part-trans s Sublistᴰ.slnil = s
part-trans s (Sublistᴰ.cons t) = Sublistᴰ.cons (part-trans s t)
part-trans (Sublistᴰ.cons s) (Sublistᴰ.cons-cons e t) = Sublistᴰ.cons (part-trans s t)
part-trans (Sublistᴰ.cons-cons e s) (Sublistᴰ.cons-cons g t) =
    Sublistᴰ.cons-cons (e ∙ g) (part-trans s t)

pub Choice-part : {c us vs : List Utxo} → Choice c us → Sublistᴰ us vs → Choice c vs
Choice-part (l, p, s) t = (l, p, part-trans s t)

pub length-values : (us : List Utxo) → length (values us) ≡ length us
length-values [] = refl
length-values (u ∷ us) = omega (arith, length-values us)

pub values-part : {l us : List Utxo} → Sublistᴰ l us → Sublistᴰ (values l) (values us)
values-part Sublistᴰ.slnil = Sublistᴰ.slnil
values-part (Sublistᴰ.cons s) = Sublistᴰ.cons (values-part s)
values-part (Sublistᴰ.cons-cons e s) = Sublistᴰ.cons-cons (ap (λ u. u.value) e) (values-part s)

total-part : (f : Utxo → ℕ) {l us : List Utxo} → Sublistᴰ l us → total f l ≤ total f us
total-part f Sublistᴰ.slnil = omega arith
total-part f (Sublistᴰ.cons s) = omega (arith, total-part f s)
total-part f (Sublistᴰ.cons-cons e s) = omega (arith, ap f e, total-part f s)

pub Choice-length : {c us : List Utxo} → Choice c us → length c ≤ length us
Choice-length {c} {us} (l, p, s) =
    omega (arith, length-perm p, total-one l, total-one us, total-part (λ u. 1) s)

-- The values of a choice are found among those of the rows.
pub Choice-values :
    {c us : List Utxo}
    → Choice c us
    → (d : List ℕ) × Sublistᴰ d (values us) × (length d ≡ length c) × (sum d ≡ sum (values c))
Choice-values (l, p, s) = (values l, values-part s, length-values l ∙ length-perm p, sum-perm p)

-- Whether a row fails a test, as a number.
abbrev fails : (Utxo → Bool) → Utxo → ℕ
fails test u = if test u then 0 else 1

total-fails : (test : Utxo → Bool) (us : List Utxo) → total (fails test) (filter test us) ≡ 0
unfolding filter
total-fails test [] = refl
total-fails test (u ∷ us) = ground (arith, total-fails test us)

-- A row that is chosen behind a filter passes it.
pub chosen_passes :
    (test : Utxo → Bool) (us : List Utxo) {u : Utxo}
    → Choice (u ∷ []) (filter test us)
    → test u ≡ true
chosen_passes test us {u} (l, p, s) =
    let few = total-part (fails test) s in
    let same = total-perm (fails test) p in let none_fails = total-fails test us in ground arith
