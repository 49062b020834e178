-- ===== src/Block/RoundTrip/Serialized.antt =====
-- `Block.serialize` and then `Block.parse_bytesio` of bitcoinlib/blocks.py.
use bitcoinlib.Common.{
  ℕ, ◌≡◌, refl, sym, ap, ◌∙◌, List, [], ◌∷◌, ◌++◌, reverse, append_assoc, map, Bool, true, false,
  Option, none, some, Result, ok, ltb, if◌then◌else◌, length, take, length-append, length-reverse,
  take-append, arith,
}
use bitcoinlib.Encoding.Bytes.{little_digits, from_big}
use bitcoinlib.Encoding.Bytes.Laws.{length-little_digits}
use bitcoinlib.Encoding.Stream.{Stream}
use bitcoinlib.Transaction.{Transaction}
use bitcoinlib.Transaction.Parse.{InputArguments, Parsed, double_sha256}
use bitcoinlib.Transaction.Raw.{is_empty}
use bitcoinlib.Transaction.Reader.{
  ◌>>=◌, ◌>>◌, read_bytes, return, Reads-read_bytes, Reads-read_count, ReadsAll, ReadsAll-bind,
  ReadsAll-end, ReadsAll-start,
}
use bitcoinlib.Block.{Bytes, Block}
use bitcoinlib.Block.Header.{new_block, agree_height, coinbase_height, block_height}
use bitcoinlib.Block.Parse.{rewind, known_hash, lift, parse_hash, parse_fields, parse_block}
use bitcoinlib.Block.Serialize.{serialize_block}
use bitcoinlib.Block.RoundTrip.Transactions.{shown}
use bitcoinlib.Block.RoundTrip.Whole.{
  IsBlock, Written, parsed_block, serialize_block-Written, new_block-parsed_block,
  finish_block-Reads, parse_all-ReadsAll, length-map,
}

-- The header in one piece.
abbrev header_of : Block Transaction → Bytes
header_of b =
    reverse b.version
    ++ (reverse b.prev_block
        ++ (reverse b.merkle_root
            ++ (little_digits 4 b.time ++ (reverse b.bits ++ reverse b.nonce))))

length-header_of : (b : Block Transaction) → IsBlock b → length (header_of b) ≡ 80
length-header_of b wire = omega (
  arith,
  length-append (reverse b.version) (
      reverse b.prev_block
      ++ (reverse b.merkle_root
          ++ (little_digits 4 b.time ++ (reverse b.bits ++ reverse b.nonce)))),
  length-append (reverse b.prev_block)
      (reverse b.merkle_root ++ (little_digits 4 b.time ++ (reverse b.bits ++ reverse b.nonce))),
  length-append (reverse b.merkle_root)
      (little_digits 4 b.time ++ (reverse b.bits ++ reverse b.nonce)),
  length-append (little_digits 4 b.time) (reverse b.bits ++ reverse b.nonce),
  length-append (reverse b.bits) (reverse b.nonce),
  length-little_digits 4 b.time,
  length-reverse b.version ∙ wire.version.width,
  length-reverse b.prev_block ∙ wire.prev_block.width,
  length-reverse b.merkle_root ∙ wire.merkle_root.width,
  length-reverse b.bits ∙ wire.bits.width,
  length-reverse b.nonce ∙ wire.nonce.width,
)

regroup :
    (a b c d e f g : Bytes)
    → (a ++ (b ++ (c ++ (d ++ (e ++ f))))) ++ g ≡ a ++ (b ++ (c ++ (d ++ (e ++ (f ++ g)))))
regroup a b c d e f g = simp append_assoc refl

-- Both ways of an if return.
either_returns :
    (test : Bool) (first second : Result (Option ℕ))
    → (h : Option ℕ) × (first ≡ ok h)
    → (h : Option ℕ) × (second ≡ ok h)
    → (h : Option ℕ) × ((if test then first else second) ≡ ok h)
either_returns true first second h k = h
either_returns false first second h k = k

coinbase_height-none :
    (coinbase : Bool) (inputs : List InputArguments)
    → (h : Option ℕ) × (coinbase_height none coinbase inputs ≡ ok h)
unfolding coinbase_height agree_height
coinbase_height-none false inputs = (none, refl)
coinbase_height-none true [] = (none, refl)
coinbase_height-none true (i ∷ is) =
    either_returns (is_empty i.unlocking_script) _ _ (none, refl) (some _, refl)

-- Without a height of its own a block takes that of its coinbase, and none is refused.
block_height-none :
    (version : ℕ) (ts : List Parsed) → (h : Option ℕ) × (block_height none version ts ≡ ok h)
unfolding block_height
block_height-none version [] = (none, refl)
block_height-none version (t ∷ ts) =
    either_returns (ltb 1 version) _ _ (coinbase_height-none t.coinbase t.inputs) (none, refl)

module _ (sha256 : Bytes → Bytes) where
  -- The constructor on the fields as they are read.
  abbrev made : Block Transaction → List Parsed → Result (Block Parsed)
  made b ts =
      new_block (reverse (double_sha256 sha256 (header_of b))) (reverse (reverse b.version))
        (reverse (reverse b.prev_block)) (reverse (reverse b.merkle_root))
        (reverse (little_digits 4 b.time)) (reverse (reverse b.bits)) (reverse (reverse b.nonce)) ts
        none (length b.transactions)

  parse_hash-seek :
      (header tail : Bytes)
      → length header ≡ 80
      → parse_hash sha256 [] (record { buffer = header ++ tail; position = 0 })
        ≡ ok (
          reverse (double_sha256 sha256 header),
          record { buffer = header ++ tail; position = 0 },
        )
  unfolding parse_hash known_hash lift rewind return read_bytes ◌>>=◌ ◌>>◌
  parse_hash-seek header tail n =
      let out : take 80 (header ++ tail) ≡ header = take-append header tail 80 n in rw out refl

  parse_fields-ReadsAll :
      (b : Block Transaction) (code : Bytes) (h : Option ℕ)
      → IsBlock b
      → (w : Written b code)
      → block_height none (from_big b.version) (map shown b.transactions) ≡ ok h
      → ReadsAll
          (parse_fields sha256 (reverse (double_sha256 sha256 (header_of b))) none true 0)
          (reverse b.version
            ++ (reverse b.prev_block
                ++ (reverse b.merkle_root
                    ++ (little_digits 4 b.time
                        ++ (reverse b.bits ++ (reverse b.nonce ++ (w.count ++ w.codes)))))))
          (some (parsed_block sha256 (header_of b) h b))
  unfolding parse_fields
  parse_fields-ReadsAll b code h wire w e =
      ReadsAll-bind _ (Reads-read_bytes (length-reverse b.version ∙ wire.version.width)) (
        ReadsAll-bind _ (Reads-read_bytes (length-reverse b.prev_block ∙ wire.prev_block.width)) (
          ReadsAll-bind _ (Reads-read_bytes (length-reverse b.merkle_root ∙ wire.merkle_root.width))
            (ReadsAll-bind _ (Reads-read_bytes (length-little_digits 4 b.time)) (
              ReadsAll-bind _ (Reads-read_bytes (length-reverse b.bits ∙ wire.bits.width)) (
                ReadsAll-bind _ (Reads-read_bytes (length-reverse b.nonce ∙ wire.nonce.width)) (
                  ReadsAll-bind _ (Reads-read_count w.counted) (
                    ReadsAll-end _ (parse_all-ReadsAll sha256 b.transactions w.codes w.blocks) (
                      finish_block-Reads (length b.transactions) (map shown b.transactions) (made b)
                        _ (sym (length-map shown b.transactions))
                        (new_block-parsed_block sha256 (header_of b) h b wire w.time e)))))))))

  parse_block-ok :
      (hash : Bytes) (s t : Stream) (b : Option (Block Parsed))
      → parse_hash sha256 [] s ≡ ok (hash, s)
      → parse_fields sha256 hash none true 0 s ≡ ok (b, t)
      → parse_block sha256 [] none true 0 s ≡ ok (b, t)
  unfolding parse_block ◌>>=◌
  parse_block-ok hash s t b e f = rw (parse_block, ◌>>=◌, e) f

  -- A block that is written is read back in all of its parts: the fields of the header, and every
  -- transaction in order. Its hash is that of the first 80 bytes, its height is the one that the
  -- coinbase gives, and the loop over the transactions ends at the end of the bytes. The conditions
  -- are the lengths of the fields, that none of them is the text of hexadecimal digits, and those of
  -- the transactions: at least one input and one output, the lengths of the version, of the
  -- transaction IDs and of the output numbers, the script type nonstandard_0001 on just the inputs
  -- whose script is the byte 0, no output with that script, and that no ID and no script of an input
  -- or output is the text of hexadecimal digits. The transactions are those that are read, before
  -- their scripts are analysed.
  pub parse_block-serialize_block :
      (b kept : Block Transaction) (code : Bytes)
      → IsBlock b
      → serialize_block b ≡ ok (code, kept)
      → (h : Option ℕ) × (block_height none (from_big b.version) (map shown b.transactions) ≡ ok h)
        × (parse_block sha256 [] none true 0 (record { buffer = code; position = 0 })
            ≡ ok (
              some (parsed_block sha256 (take 80 code) h b),
              record { buffer = code; position = length code },
            ))
  parse_block-serialize_block b kept code wire e =
      let w = serialize_block-Written b kept code wire.transactions e in
      let (h, e') = block_height-none (from_big b.version) (map shown b.transactions) in
      let n = length-header_of b wire in
      let first : take 80 code ≡ header_of b =
        ap (take 80) w.shape ∙ take-append (header_of b) (w.count ++ w.codes) 80 n in
      let split =
        w.shape
        ∙ regroup (reverse b.version) (reverse b.prev_block) (reverse b.merkle_root)
            (little_digits 4 b.time) (reverse b.bits) (reverse b.nonce) (w.count ++ w.codes) in
      let fields = ReadsAll-start split (parse_fields-ReadsAll b code h wire w e') in
      let hashed = rw (← w.shape) at (parse_hash-seek (header_of b) (w.count ++ w.codes) n) in
      (h, e', rw first (parse_block-ok _ _ _ _ hashed fields))
