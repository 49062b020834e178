-- ===== src/Block/Parse.antt =====
-- bitcoinlib/blocks.py, `Block.parse_bytesio`, with the transactions parsed up to the analysis of their
-- scripts.
use bitcoinlib.Common.{
  ℕ, zero, suc, ◌+◌, List, [], ◌∷◌, reverse, Bool, true, false, not, ◌&&◌, ◌||◌, Option, none, some,
  Result, ok, err, value_error, ltb, ◌==◌, if◌then◌else◌, length, bytes_eq,
}
use bitcoinlib.Encoding.Stream.{Stream, seek}
use bitcoinlib.Transaction.Parse.{Parsed, double_sha256, parse_bytesio}
use bitcoinlib.Transaction.Reader.{Reader, ◌>>=◌, ◌>>◌, return, require, read_bytes, read_count}
use bitcoinlib.Block.{Bytes, Block}
use bitcoinlib.Block.Header.{new_block}

-- `raw.seek(0)`
unfoldable pub rewind : Reader (Unit {0})
rewind s = ok (tt, seek 0 s)

-- `None` and the empty byte string both stand for a hash that is not known.
unfoldable pub known_hash : Bytes → Bytes → Result Bytes
known_hash [] calculated = ok calculated
known_hash (b ∷ bs) calculated =
    if bytes_eq (b ∷ bs) calculated then ok calculated else err value_error

unfoldable pub lift : {A : Type 0} → Result A → Reader A
lift (ok a) s = ok (a, s)
lift (err e) s = err e

-- The loop goes on while there are bytes and the limit is not reached; 0 is no limit.
abbrev pub goes_on : ℕ → ℕ → Stream → Bool
goes_on limit found s = ltb s.position (length s.buffer) && ((limit == 0) || ltb found limit)

abbrev pub cons_found : {A : Type 0} → A → Option (List A) → Option (List A)
cons_found t none = none
cons_found t (some ts) = some (t ∷ ts)

-- The count of the header must be that of the transactions where all of them are parsed.
abbrev pub count_fits : Bool → ℕ → ℕ → ℕ → Bool
count_fits parse_transactions limit tx_count found =
    not parse_transactions || not (limit == 0) || (tx_count == found)

unfoldable pub finish_block :
    Bool
    → ℕ
    → ℕ
    → Option (List Parsed)
    → (List Parsed → Result (Block Parsed))
    → Reader (Option (Block Parsed))
finish_block parse_transactions limit tx_count none make = return none
finish_block parse_transactions limit tx_count (some ts) make = do
  require (count_fits parse_transactions limit tx_count (length ts)) value_error
  b ← lift (make ts)
  return (some b)

module _ (sha256 : Bytes → Bytes) where
  unfoldable pub parse_one : Reader Parsed
  unfolding parse_bytesio
  parse_one = do (parsed, bytes, txid) ← parse_bytesio sha256 false []; return parsed

  -- `none` where the fuel is used up: `found` transactions are there already.
  unfoldable pub parse_loop : ℕ → ℕ → ℕ → Reader (Option (List Parsed))
  unfolding parse_one
  parse_loop zero limit found s = return none s
  parse_loop (suc fuel) limit found s =
      let others = parse_loop fuel limit (found + 1) in
      let next = (parse_one >>= λ t. others >>= λ ts. return (cons_found t ts)) in
      if goes_on limit found s then next s else return (some []) s

  unfoldable pub parse_found : Bool → ℕ → ℕ → Reader (Option (List Parsed))
  unfolding parse_loop
  parse_found false limit fuel = return (some [])
  parse_found true limit fuel = parse_loop fuel limit 0

  -- Each round reads at least one byte, so that the bytes of the stream count the rounds.
  unfoldable pub parse_all : Bool → ℕ → Reader (Option (List Parsed))
  unfolding parse_found
  parse_all parse_transactions limit s =
      parse_found parse_transactions limit (suc (length s.buffer)) s

  -- The hash of the first 80 bytes, which must be the one that is given.
  unfoldable pub parse_hash : Bytes → Reader Bytes
  unfolding double_sha256 known_hash rewind lift
  parse_hash block_hash = do
    block_header ← read_bytes 80
    hash ← lift (known_hash block_hash (reverse (double_sha256 sha256 block_header)))
    rewind
    return hash

  -- `none` where the loop does not end.
  unfoldable pub parse_fields : Bytes → Option ℕ → Bool → ℕ → Reader (Option (Block Parsed))
  unfolding parse_all finish_block
  parse_fields hash height parse_transactions limit = do
    version ← read_bytes 4
    prev_block ← read_bytes 32
    merkle_root ← read_bytes 32
    time ← read_bytes 4
    bits ← read_bytes 4
    nonce ← read_bytes 4
    tx_count ← read_count
    found ← parse_all parse_transactions limit
    finish_block parse_transactions limit tx_count found (λ ts.
        new_block hash (reverse version) (reverse prev_block) (reverse merkle_root) (reverse time)
          (reverse bits) (reverse nonce) ts height tx_count)

  unfoldable pub parse_block : Bytes → Option ℕ → Bool → ℕ → Reader (Option (Block Parsed))
  unfolding parse_hash parse_fields
  parse_block block_hash height parse_transactions limit = do
    hash ← parse_hash block_hash
    parse_fields hash height parse_transactions limit
