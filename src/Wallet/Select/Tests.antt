-- ===== src/Wallet/Select/Tests.antt =====
-- Runs of `Wallet.select_inputs` of bitcoinlib/wallets.py.
use mathlib.Core.List.Permᴰ
use bitcoinlib.Common.{ℕ, ◌≡◌, refl, List, [], ◌∷◌, true, false, ok, err, wallet_error}
use bitcoinlib.Wallet.Select.{Utxo, Database, Query, eligible, combinations, select_inputs}
use bitcoinlib.Wallet.Select.Choice.{IsDatabase}
use bitcoinlib.Wallet.Select.Promise.{Selects}
use bitcoinlib.Wallet.Select.Refinement.{select_inputs-Selects}

abbrev pub worth : ℕ → Utxo
worth v = record {
  prev_txid = 1 ∷ [];
  output_n = 0;
  value = v;
  spent = false;
  confirmations = 10;
  wallet_id = 1;
  account_id = 0;
  network_name = 98 ∷ 116 ∷ [];
  key_id = 7;
  key_public = 2 ∷ [];
}

abbrev pub unordered : List Utxo → Database
unordered us = record {
  rows = us;
  by_confirmations = λ vs. vs;
  by_value = λ vs. vs;
  by_value_desc = λ vs. vs;
}

abbrev pub unordered-IsDatabase : (us : List Utxo) → IsDatabase (unordered us)
unordered-IsDatabase us = record {
  confirmations_rows = Permᴰ.refl;
  value_rows = Permᴰ.refl;
  value_desc_rows = Permᴰ.refl;
}

abbrev pub any_key : Query
any_key = record {
  wallet_id = 1;
  account_id = 0;
  network = 98 ∷ 116 ∷ [];
  min_confirms = 1;
  input_key_ids = [];
  ignore_dust = true;
  dust_amount = 5;
}

abbrev pub coins : List Utxo
coins = worth 50 ∷ worth 4 ∷ record (worth 90) { spent = true } ∷ worth 40 ∷ worth 30 ∷ []

pairs_of_three :
    combinations {A = ℕ} 2 (1 ∷ 2 ∷ 3 ∷ []) ≡ (1 ∷ 2 ∷ []) ∷ (1 ∷ 3 ∷ []) ∷ (2 ∷ 3 ∷ []) ∷ []
unfolding combinations
pairs_of_three = refl

select_one : select_inputs (unordered coins) any_key 38 3 0 ≡ ok (worth 40 ∷ [])
unfolding select_inputs
select_one = refl

select_two : select_inputs (unordered coins) any_key 65 0 0 ≡ ok (worth 50 ∷ worth 40 ∷ [])
unfolding select_inputs
select_two = refl

select_three :
    select_inputs (unordered coins) any_key 100 0 0 ≡ ok (worth 50 ∷ worth 40 ∷ worth 30 ∷ [])
unfolding select_inputs
select_three = refl

select_too_few : select_inputs (unordered coins) any_key 100 0 2 ≡ ok []
unfolding select_inputs
select_too_few = refl

select_nothing : select_inputs (unordered []) any_key 100 0 2 ≡ err wallet_error
unfolding select_inputs
select_nothing = refl

select_inputs-Selects_example :
    Selects
      (eligible (unordered coins) any_key)
      100
      0
      (select_inputs (unordered coins) any_key 100 0 0)
select_inputs-Selects_example =
    select_inputs-Selects (unordered coins) any_key 100 0 0 (unordered-IsDatabase coins)
