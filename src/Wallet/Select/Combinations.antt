-- ===== src/Wallet/Select/Combinations.antt =====
-- The search over combinations of values in `Wallet.select_inputs` of bitcoinlib/wallets.py: what it
-- finds, and what it cannot have missed.
use mathlib.Core.List.{Sublistᴰ}
use bitcoinlib.Common.{
  ℕ, zero, suc, ◌+◌, ◌≤◌, ◌<◌, ◌≡◌, refl, sym, ap, ◌∙◌, List, [], ◌∷◌, ◌++◌, Bool, true, false,
  Bool-cases, order_cases, inl, inr, arith, length, leb, All, All-append,
}
use bitcoinlib.Wallet.Select.{filter, prepend, combinations, sum, enough_from}

filter-append {ℓ} :
    {A : Type ℓ} (test : A → Bool) (xs ys : List A)
    → filter test (xs ++ ys) ≡ filter test xs ++ filter test ys
unfolding filter
filter-append test [] ys = refl
filter-append test (x ∷ xs) ys = elim (Bool-cases (test x)) [
  | inl t ↦ rw (t, filter-append test xs ys)
  | inr f ↦ rw (f, filter-append test xs ys)
]

filter-prepend {ℓ} :
    {A : Type ℓ} (test : List A → Bool) (x : A) (cs : List (List A))
    → filter test (prepend x cs) ≡ prepend x (filter (λ c. test (x ∷ c)) cs)
unfolding filter
filter-prepend test x [] = refl
filter-prepend test x (c ∷ cs) = elim (Bool-cases (test (x ∷ c))) [
  | inl t ↦ rw (t, filter-prepend test x cs)
  | inr f ↦ rw (f, filter-prepend test x cs)
]

prepend-nil {ℓ} : {A : Type ℓ} (x : A) (cs : List (List A)) → prepend x cs ≡ [] → cs ≡ []
prepend-nil x [] h = refl
prepend-nil x (c ∷ cs) h = cc

append-nil_parts {ℓ} : {A : Type ℓ} (xs ys : List A) → xs ++ ys ≡ [] → (xs ≡ []) × (ys ≡ [])
append-nil_parts [] ys h = (refl, h)
append-nil_parts (x ∷ xs) ys h = cc

All-filter {ℓ κ} :
    {A : Type ℓ} (P : A → Type κ) (test : A → Bool) (xs : List A)
    → All P xs
    → All (λ x. P x × (test x ≡ true)) (filter test xs)
unfolding filter
All-filter P test [] h = tt
All-filter P test (x ∷ xs) h = elim (Bool-cases (test x)) [
  | inl t ↦ rw t ((h.0, t), All-filter P test xs h.1)
  | inr f ↦ rw f (All-filter P test xs h.1)
]

All-imp {ℓ κ μ} :
    {A : Type ℓ} (P : A → Type κ) (Q : A → Type μ) (xs : List A)
    → ((x : A) → P x → Q x)
    → All P xs
    → All Q xs
All-imp P Q [] f h = tt
All-imp P Q (x ∷ xs) f h = (f x h.0, All-imp P Q xs f h.1)

All-prepend {ℓ κ} :
    {A : Type ℓ} (P : List A → Type κ) (x : A) (cs : List (List A))
    → All (λ c. P (x ∷ c)) cs
    → All P (prepend x cs)
All-prepend P x [] h = tt
All-prepend P x (c ∷ cs) h = (h.0, All-prepend P x cs h.1)

-- `r` values, in their order.
abbrev pub IsCombination {ℓ} : {A : Type ℓ} → ℕ → List A → List A → Type ℓ
IsCombination r xs c = Sublistᴰ c xs × (length c ≡ r)

pub nil-part {ℓ} : {A : Type ℓ} (xs : List A) → Sublistᴰ [] xs
nil-part [] = Sublistᴰ.slnil
nil-part (x ∷ xs) = Sublistᴰ.cons (nil-part xs)

combinations-All {ℓ} :
    {A : Type ℓ} (r : ℕ) (xs : List A) → All (IsCombination r xs) (combinations r xs)
unfolding combinations
combinations-All zero xs = ((nil-part xs, refl), tt)
combinations-All (suc r) [] = tt
combinations-All (suc r) (x ∷ xs) =
    All-append (IsCombination (suc r) (x ∷ xs)) (prepend x (combinations r xs)) _
      (All-prepend _ x (combinations r xs) (
        All-imp (IsCombination r xs) _ _ (λ c (s, e). (Sublistᴰ.cons-cons refl s, ap suc e))
          (combinations-All r xs)))
      (All-imp (IsCombination (suc r) xs) _ _ (λ c (s, e). (Sublistᴰ.cons s, e))
        (combinations-All (suc r) xs))

filter-one {ℓ} : {A : Type ℓ} (test : A → Bool) (x : A) → filter test (x ∷ []) ≡ [] → test x ≡ false
unfolding filter
filter-one test x h = ground arith

-- Every choice of `r` values is among the combinations: none passes a test that none of them passes.
combinations_complete {ℓ} :
    {A : Type ℓ} (test : List A → Bool) (r : ℕ) (xs c : List A)
    → filter test (combinations r xs) ≡ []
    → Sublistᴰ c xs
    → length c ≡ r
    → test c ≡ false
unfolding combinations filter
combinations_complete test zero xs [] h s e = filter-one test [] h
combinations_complete test zero xs (y ∷ c) h s e = absurd (omega arith)
combinations_complete test (suc r) [] (y ∷ c) h s e = elim s [ ]
combinations_complete test (suc r) xs [] h s e = absurd (omega arith)
combinations_complete test (suc r) (x ∷ xs) (y ∷ c) h (Sublistᴰ.cons s) e =
    let parts =
      append-nil_parts _ _
        (rw (filter-append test (prepend x (combinations r xs)) (combinations (suc r) xs)) at h) in
    combinations_complete test (suc r) xs (y ∷ c) parts.1 s e
combinations_complete test (suc r) (x ∷ xs) (y ∷ c) h (Sublistᴰ.cons-cons g s) e =
    let parts =
      append-nil_parts _ _
        (rw (filter-append test (prepend x (combinations r xs)) (combinations (suc r) xs)) at h) in
    let none_here = prepend-nil x _ (sym (filter-prepend test x (combinations r xs)) ∙ parts.0) in
    ap (λ z. test (z ∷ c)) g
    ∙ combinations_complete (λ t. test (x ∷ t)) r xs c none_here s (omega arith)

cons_head {ℓ} : {A : Type ℓ} {x y : A} {xs ys : List A} → x ∷ xs ≡ y ∷ ys → x ≡ y
cons_head h = cc

-- What a search that starts at `r` values returns first.
pub record Found (amount : ℕ) (vs : List ℕ) (r rounds : ℕ) (c : List ℕ) : Type 0 where
  pub part : Sublistᴰ c vs
  pub covers : amount ≤ sum c
  pub least : r ≤ length c
  pub most : length c < r + rounds
  pub fewest : (d : List ℕ) → Sublistᴰ d vs → r ≤ length d → amount ≤ sum d → length c ≤ length d

module _ (amount : ℕ) (vs : List ℕ) where
  abbrev covers_amount : List ℕ → Bool
  covers_amount c = leb amount (sum c)

  -- A round that finds nothing leaves out no combination of its length.
  missed :
      (r : ℕ) (d : List ℕ)
      → filter covers_amount (combinations r vs) ≡ []
      → Sublistᴰ d vs
      → amount ≤ sum d
      → length d ≡ r
      → ⊥
  missed r d h s k e =
      let f : leb amount (sum d) ≡ false = combinations_complete covers_amount r vs d h s e in
      ground arith

  -- Where the search finds nothing, no combination of the lengths that it tries is enough.
  pub enough_from-nil :
      (r rounds : ℕ) (d : List ℕ)
      → enough_from amount vs r rounds ≡ []
      → Sublistᴰ d vs
      → r ≤ length d
      → length d < r + rounds
      → sum d < amount
  unfolding enough_from
  enough_from-nil r zero d h s p q = absurd (omega arith)
  enough_from-nil r (suc rounds) d h s p q =
      let parts = append-nil_parts _ _ h in
      elim (order_cases amount (sum d)) [
        | inr less ↦ less
        | inl k ↦ elim (order_cases (length d) r) [
          | inl small ↦ absurd (missed r d parts.0 s k (omega arith))
          | inr large ↦ enough_from-nil (suc r) rounds d parts.1 s (omega arith) (omega arith)
        ]
      ]

  round_found :
      (r : ℕ)
      → All
          (λ c. IsCombination r vs c × (leb amount (sum c) ≡ true))
          (filter covers_amount (combinations r vs))
  round_found r =
      All-filter (IsCombination r vs) covers_amount (combinations r vs) (combinations-All r vs)

  later-Found :
      (r rounds : ℕ) (c : List ℕ)
      → filter covers_amount (combinations r vs) ≡ []
      → Found amount vs (suc r) rounds c
      → Found amount vs r (suc rounds) c
  later-Found r rounds c none_here f = record {
    part = f.part;
    covers = f.covers;
    least = omega (arith, f.least);
    most = omega (arith, f.most);
    fewest = λ d s p k. elim (order_cases (length d) r) [
      | inl small ↦ absurd (missed r d none_here s k (omega arith))
      | inr large ↦ f.fewest d s (omega arith) k
    ];
  }

  first-Found :
      (r rounds : ℕ) (ds : List (List ℕ)) (c : List ℕ) (cs : List (List ℕ))
      → All (λ c. IsCombination r vs c × (leb amount (sum c) ≡ true)) ds
      → filter covers_amount (combinations r vs) ≡ ds
      → ds ++ enough_from amount vs (suc r) rounds ≡ c ∷ cs
      → (enough_from amount vs (suc r) rounds ≡ c ∷ cs → Found amount vs (suc r) rounds c)
      → Found amount vs r (suc rounds) c
  first-Found r rounds [] c cs all here h later = later-Found r rounds c here (later h)
  first-Found r rounds (d ∷ ds) c cs (((s, e), t), _) here h later =
      rw (sym (cons_head h)) (record {
        part = s;
        covers = ground arith;
        least = omega arith;
        most = omega arith;
        fewest = λ d' s' p k. omega arith;
      })

  pub enough_from-cons :
      (r rounds : ℕ) (c : List ℕ) (cs : List (List ℕ))
      → enough_from amount vs r rounds ≡ c ∷ cs
      → Found amount vs r rounds c
  unfolding enough_from
  enough_from-cons r zero c cs h = cc
  enough_from-cons r (suc rounds) c cs h =
      first-Found r rounds _ c cs (round_found r) refl h (enough_from-cons (suc r) rounds c cs)
