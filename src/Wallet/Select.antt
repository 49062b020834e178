-- ===== src/Wallet/Select.antt =====
-- bitcoinlib/wallets.py, `Wallet.select_inputs` up to the inputs that it makes of the outputs it
-- selects. The database belongs to SQLAlchemy: a query that is filtered takes the rows that pass
-- the filter, in the order that the database gives them.
pub mod Choice
pub mod Combinations
pub mod Promise
pub mod Taken
pub mod Single
pub mod Refinement
pub mod Tests
use bitcoinlib.Common.{
  ℕ, zero, suc, ◌+◌, ◌-◌, List, [], ◌∷◌, ◌++◌, Bool, true, false, not, ◌&&◌, ◌||◌, Option, none,
  some, Result, ok, err, index_error, wallet_error, ◌>>=◌, leb, ltb, ◌==◌, if◌then◌else◌, length,
  bytes_eq,
}

abbrev Bytes : Type 0
Bytes = List ℕ

-- A row of DbTransactionOutput, joined with its transaction and its key.
pub record Utxo : Type 0 where
  pub prev_txid : Bytes
  pub output_n : ℕ
  pub value : ℕ
  pub spent : Bool
  pub confirmations : ℕ
  pub wallet_id : ℕ
  pub account_id : ℕ
  pub network_name : Bytes
  pub key_id : ℕ
  pub key_public : Bytes

-- The rows, and `order_by`: by confirmations, descending; by these and then by value; by these and
-- then by value, descending.
pub record Database : Type 0 where
  pub rows : List Utxo
  pub by_confirmations : List Utxo → List Utxo
  pub by_value : List Utxo → List Utxo
  pub by_value_desc : List Utxo → List Utxo

-- The arguments of the query; no `input_key_id` is the empty list, one of them a list of one.
pub record Query : Type 0 where
  pub wallet_id : ℕ
  pub account_id : ℕ
  pub network : Bytes
  pub min_confirms : ℕ
  pub input_key_ids : List ℕ
  pub ignore_dust : Bool
  pub dust_amount : ℕ

abbrev pub is_in : ℕ → List ℕ → Bool
is_in n [] = false
is_in n (m ∷ ms) = (n == m) || is_in n ms

-- The filter on the keys of `input_key_id`.
abbrev key_passes : List ℕ → ℕ → Bool
key_passes [] key_id = true
key_passes (k ∷ ks) key_id = is_in key_id (k ∷ ks)

-- `DbKey.public != b''`
abbrev is_present : Bytes → Bool
is_present [] = false
is_present (b ∷ bs) = true

unfoldable pub is_eligible : Query → Utxo → Bool
is_eligible q u =
    (u.wallet_id == q.wallet_id)
    && (u.account_id == q.account_id)
    && bytes_eq u.network_name q.network
    && is_present u.key_public
    && not u.spent
    && leb q.min_confirms u.confirmations
    && key_passes q.input_key_ids u.key_id
    && (not q.ignore_dust || leb q.dust_amount u.value)

unfoldable pub filter {ℓ} : {A : Type ℓ} → (A → Bool) → List A → List A
filter test [] = []
filter test (x ∷ xs) = if test x then x ∷ filter test xs else filter test xs

-- `utxo_query.first()`
abbrev pub first {ℓ} : {A : Type ℓ} → List A → Option A
first [] = none
first (x ∷ xs) = some x

unfoldable pub eligible : Database → Query → List Utxo
unfolding filter is_eligible
eligible d q = filter (is_eligible q) d.rows

abbrev pub is_near : ℕ → ℕ → Utxo → Bool
is_near amount variance u = leb amount u.value && leb u.value (amount + variance)

abbrev pub is_enough : ℕ → Utxo → Bool
is_enough amount u = leb amount u.value

abbrev pub is_lesser : ℕ → Utxo → Bool
is_lesser amount u = ltb u.value amount

-- One output of about the amount, else one of a higher amount.
unfoldable pub single_utxo : Database → List Utxo → ℕ → ℕ → Option Utxo
unfolding filter
single_utxo d us amount variance =
    elim (first (d.by_confirmations (filter (is_near amount variance) us))) [
      | some u ↦ some u
      | none ↦ first (d.by_value (filter (is_enough amount) us))
    ]

abbrev pub prepend {ℓ} : {A : Type ℓ} → A → List (List A) → List (List A)
prepend x [] = []
prepend x (c ∷ cs) = (x ∷ c) ∷ prepend x cs

-- `itertools.combinations`
unfoldable pub combinations {ℓ} : {A : Type ℓ} → ℕ → List A → List (List A)
combinations zero xs = [] ∷ []
combinations (suc r) [] = []
combinations (suc r) (x ∷ xs) = prepend x (combinations r xs) ++ combinations (suc r) xs

abbrev pub sum : List ℕ → ℕ
sum [] = 0
sum (n ∷ ns) = n + sum ns

-- The combinations of `r`, `r + 1`, … values, in `rounds` rounds, whose sum is enough.
unfoldable pub enough_from : ℕ → List ℕ → ℕ → ℕ → List (List ℕ)
unfolding combinations filter
enough_from amount values r zero = []
enough_from amount values r (suc rounds) =
    filter (λ c. leb amount (sum c)) (combinations r values)
    ++ enough_from amount values (suc r) rounds

-- `[u for u in lessers if u.value == value][0]`, and `lessers.remove(utxo)`
unfoldable pub take_value : ℕ → List Utxo → Result (Utxo × List Utxo)
take_value v [] = err index_error
take_value v (u ∷ us) =
    let later = take_value v us in
    if u.value == v then ok (u, us) else (later >>= λ (w, rest). ok (w, u ∷ rest))

unfoldable pub take_values : List ℕ → List Utxo → Result (List Utxo)
unfolding take_value
take_values [] us = ok []
take_values (v ∷ vs) us = do
  (u, rest) ← take_value v us
  chosen ← take_values vs rest
  ok (u ∷ chosen)

abbrev pub values : List Utxo → List ℕ
values [] = []
values (u ∷ us) = u.value ∷ values us

-- `max_utxos or len(utxo_values)`, where 0 stands for None.
abbrev pub most : ℕ → ℕ → ℕ
most zero n = n
most (suc m) n = suc m

-- The outputs of the first combination that was found.
unfoldable pub first_combination : List (List ℕ) → List Utxo → Result (List Utxo)
unfolding take_values
first_combination [] lessers = ok []
first_combination (c ∷ cs) lessers = take_values c lessers

-- Two or more lesser outputs.
unfoldable pub compose : Database → List Utxo → ℕ → ℕ → Result (List Utxo)
unfolding filter enough_from first_combination
compose d us amount max_utxos =
    let lessers = d.by_value_desc (filter (is_lesser amount) us) in
    let result =
      enough_from amount (values lessers) 2 (most max_utxos (length (values lessers)) + 1 - 2) in
    if max_utxos == 1 then ok [] else first_combination result lessers

unfoldable pub selected_utxos : Database → List Utxo → ℕ → ℕ → ℕ → Result (List Utxo)
unfolding single_utxo compose
selected_utxos d us amount variance max_utxos = elim (single_utxo d us amount variance) [
  | some u ↦ ok (u ∷ [])
  | none ↦ compose d us amount max_utxos
]

abbrev pub no_utxos : List Utxo → Bool
no_utxos [] = true
no_utxos (u ∷ us) = false

unfoldable pub select_inputs : Database → Query → ℕ → ℕ → ℕ → Result (List Utxo)
unfolding eligible selected_utxos
select_inputs d q amount variance max_utxos =
    if no_utxos (d.by_confirmations (eligible d q))
    then err wallet_error
    else selected_utxos d (eligible d q) amount variance max_utxos
