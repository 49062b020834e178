-- ===== src/Block/Header.antt =====
-- bitcoinlib/blocks.py, the constructor of `Block` on byte strings and parsed transactions.
use bitcoinlib.Common.{
  ℕ, List, [], ◌∷◌, ◌++◌, Bool, true, false, not, ◌&&◌, Option, none, some, Result, ok, err,
  value_error, ◌>>=◌, ltb, ◌==◌, if◌then◌else◌, take, drop,
}
use bitcoinlib.Encoding.Bytes.{from_little, from_big}
use bitcoinlib.Encoding.Hex.{to_bytes}
use bitcoinlib.Transaction.Raw.{is_empty}
use bitcoinlib.Transaction.Parse.{InputArguments, Parsed}
use bitcoinlib.Block.{Bytes, Block}

-- `int.from_bytes(script[1:4] + b'\x00', 'little')`
abbrev pub script_height : Bytes → ℕ
script_height script = from_little (take 3 (drop 1 script) ++ (0 ∷ []))

-- A height that is given must be the calculated one, above block 227835. Height 0 counts as none.
unfoldable pub agree_height : Option ℕ → ℕ → Result (Option ℕ)
agree_height none calc_height = ok (some calc_height)
agree_height (some height) calc_height =
    if not (height == 0) && not (calc_height == height) && ltb 227835 height
    then err value_error
    else ok (some calc_height)

-- The height in the unlocking script of a coinbase transaction (BIP34).
unfoldable pub coinbase_height : Option ℕ → Bool → List InputArguments → Result (Option ℕ)
unfolding agree_height
coinbase_height height false inputs = ok height
coinbase_height height true [] = ok height
coinbase_height height true (i ∷ is) =
    if is_empty i.unlocking_script
    then ok height
    else agree_height height (script_height i.unlocking_script)

unfoldable pub block_height : Option ℕ → ℕ → List Parsed → Result (Option ℕ)
unfolding coinbase_height
block_height height version [] = ok height
block_height height version (t ∷ ts) =
    if ltb 1 version then coinbase_height height t.coinbase t.inputs else ok height

-- `Block(block_hash, version, prev_block, …)`, with the count of the transactions set behind it.
unfoldable pub new_block :
    Bytes
    → Bytes
    → Bytes
    → Bytes
    → Bytes
    → Bytes
    → Bytes
    → List Parsed
    → Option ℕ
    → ℕ
    → Result (Block Parsed)
unfolding to_bytes block_height
new_block block_hash version prev_block merkle_root time bits nonce transactions height tx_count =
    do
      h ← block_height height (from_big (to_bytes version)) transactions
      ok (record {
        block_hash = to_bytes block_hash;
        version = to_bytes version;
        version_int = from_big (to_bytes version);
        prev_block = to_bytes prev_block;
        merkle_root = to_bytes merkle_root;
        time = from_big time;
        bits = to_bytes bits;
        nonce = to_bytes nonce;
        transactions = transactions;
        tx_count = tx_count;
        height = h;
      })
