-- ===== src/Wallet/Select/Promise.antt =====
-- What `Wallet.select_inputs` of bitcoinlib/wallets.py promises.
use bitcoinlib.Common.{ℕ, ◌≤◌, ◌<◌, ◌≡◌, List, [], Result, ok, err, wallet_error, length}
use bitcoinlib.Wallet.Select.{Utxo, sum, values, most}
use bitcoinlib.Wallet.Select.Choice.{Choice}

-- What a call may return, given the rows that it may choose from.
pub record Selection (us : List Utxo) (amount max_utxos : ℕ) (selected : List Utxo) : Type 0 where
  pub chosen : Choice selected us
  pub covers : amount ≤ sum (values selected)
  pub within : length selected ≤ most max_utxos (length us)
  pub fewest :
      (c : List Utxo)
      → Choice c us
      → 1 ≤ length c
      → amount ≤ sum (values c)
      → length selected ≤ length c

pub data Selects (us : List Utxo) (amount max_utxos : ℕ) : Result (List Utxo) → Type 0 where
  unavailable : us ≡ [] → Selects us amount max_utxos (err wallet_error)
  found :
      {selected : List Utxo}
      → Selection us amount max_utxos selected
      → Selects us amount max_utxos (ok selected)
  lacking :
      ((c : List Utxo)
        → Choice c us
        → 1 ≤ length c
        → length c ≤ most max_utxos (length us)
        → sum (values c) < amount)
      → Selects us amount max_utxos (ok [])
