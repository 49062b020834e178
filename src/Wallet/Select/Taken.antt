-- ===== src/Wallet/Select/Taken.antt =====
-- Taking the outputs of a combination of values in `Wallet.select_inputs` of bitcoinlib/wallets.py.
use mathlib.Core.List.{Sublistᴰ, Permᴰ}
use mathlib.Core.List.Permᴰ
use bitcoinlib.Common.{
  ℕ, ◌≡◌, refl, List, [], ◌∷◌, false, Bool-cases, inl, inr, arith, ok, ◌==◌, ==_iff,
}
use bitcoinlib.Wallet.Select.{Utxo, values, take_value, take_values}
use bitcoinlib.Wallet.Select.Choice.{Choice, Choice-perm}
use bitcoinlib.Wallet.Select.Combinations.{nil-part}

-- Taking the values of a part of the rows returns rows with these values.
record Taken (v : ℕ) (vs : List ℕ) (us : List Utxo) : Type 0 where
  row : Utxo
  rest : List Utxo
  returns : take_value v us ≡ ok (row, rest)
  worth : row.value ≡ v
  rows : Permᴰ (row ∷ rest) us
  others : Sublistᴰ vs (values rest)

part_behind : {v w : ℕ} {vs ws : List ℕ} → Sublistᴰ (v ∷ vs) (w ∷ ws) → Sublistᴰ vs ws
part_behind (Sublistᴰ.cons s) = skip s
  where
    skip : {v : ℕ} {vs ws : List ℕ} → Sublistᴰ (v ∷ vs) ws → Sublistᴰ vs ws
    skip (Sublistᴰ.cons s) = Sublistᴰ.cons (skip s)
    skip (Sublistᴰ.cons-cons e s) = Sublistᴰ.cons s
part_behind (Sublistᴰ.cons-cons e s) = s

part_later :
    {v w : ℕ} {vs ws : List ℕ}
    → (w == v) ≡ false
    → Sublistᴰ (v ∷ vs) (w ∷ ws)
    → Sublistᴰ (v ∷ vs) ws
part_later f (Sublistᴰ.cons s) = s
part_later f (Sublistᴰ.cons-cons e s) = absurd (ground arith)

take_value-part :
    (v : ℕ) (vs : List ℕ) (us : List Utxo) → Sublistᴰ (v ∷ vs) (values us) → Taken v vs us
unfolding take_value
take_value-part v vs [] s = elim s [ ]
take_value-part v vs (u ∷ us) s = elim (Bool-cases (u.value == v)) [
  | inl t ↦ record {
    row = u;
    rest = us;
    returns = rw t refl;
    worth = (==_iff _ _).0 t;
    rows = Permᴰ.refl _;
    others = part_behind s;
  }
  | inr f ↦
      let k = take_value-part v vs us (part_later f s) in
      record {
        row = k.row;
        rest = u ∷ k.rest;
        returns = rw (f, k.returns) refl;
        worth = k.worth;
        rows = Permᴰ.trans (Permᴰ.swap refl refl) (Permᴰ.cons refl k.rows);
        others = Sublistᴰ.cons k.others;
      }
]

pub take_values-part :
    (vs : List ℕ) (us : List Utxo)
    → Sublistᴰ vs (values us)
    → (selected : List Utxo) × (take_values vs us ≡ ok selected)
      × (values selected ≡ vs)
      × Choice selected us
unfolding take_values
take_values-part [] us s = ([], refl, refl, ([], Permᴰ.nil, nil-part us))
take_values-part (v ∷ vs) us s =
    let k = take_value-part v vs us s in
    let (selected, e, w, (l, p, t)) = take_values-part vs k.rest k.others in
    (
      k.row ∷ selected,
      rw (k.returns, e) refl,
      rw (k.worth, w) refl,
      Choice-perm k.rows (k.row ∷ l, Permᴰ.cons refl p, Sublistᴰ.cons-cons refl t),
    )
