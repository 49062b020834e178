-- ===== src/Block/RoundTrip/Transactions.antt =====
-- The loop of `Block.parse_bytesio` of bitcoinlib/blocks.py on the transactions that
-- `Block.serialize` writes.
use bitcoinlib.Common.{
  ℕ, zero, suc, ◌+◌, ◌<◌, ◌≤◌, ◌≡◌, refl, sym, ap, List, [], ◌∷◌, ◌++◌, append-nil, map, inl, true,
  false, none, some, ok, ltb, length, length-append, bind_ok, ok_value, All, arith,
}
use bitcoinlib.Transaction.{Bytes, Transaction}
use bitcoinlib.Transaction.Raw.{raw}
use bitcoinlib.Transaction.Parse.{Parsed}
use bitcoinlib.Transaction.Reader.{
  Reads, Reads-return, Reads-bind, Reads-code, ReadsAll, ReadsAll-bind, ReadsAll-end,
}
use bitcoinlib.Transaction.RoundTrip.Whole.{IsWire, Written, flag_of, parsed_of, raw_bytes-Written}
use bitcoinlib.Transaction.RoundTrip.Serialized.{raw-bytes, Written-pos, raw_bytes-parse_bytesio}
use bitcoinlib.Block.Parse.{parse_one, parse_loop}
use bitcoinlib.Block.Serialize.{write_transactions}

-- A transaction of a block as it is parsed.
abbrev pub shown : Transaction → Parsed
shown t = parsed_of (flag_of t.witness_type) t

-- The bytes of the transactions, one after the other.
pub data Blocks : List Transaction → Bytes → Type 0 where
  no_more : Blocks [] []
  one_more :
      (t : Transaction) (ts : List Transaction) (code codes : Bytes)
      → IsWire t
      → Written t.witness_type t code
      → Blocks ts codes
      → Blocks (t ∷ ts) (code ++ codes)

pub write_transactions-Blocks :
    (ts kept : List Transaction) (codes : Bytes)
    → All IsWire ts
    → write_transactions ts ≡ ok (codes, kept)
    → Blocks ts codes
unfolding write_transactions
write_transactions-Blocks [] kept codes wire e =
    let same : [] ≡ codes = ap (λ x. x.0) (ok_value e) in rw (sym same) no_more
write_transactions-Blocks (t ∷ ts) kept codes wire e =
    let ((c, k), e1, f1) = bind_ok (raw none 1 t.witness_type t) _ (codes, kept) e in
    let ((cs, ks), e2, f2) = bind_ok (write_transactions ts) _ (codes, kept) f1 in
    let same : c ++ cs ≡ codes = ap (λ x. x.0) (ok_value f2) in
    rw (sym same) (
      one_more t ts c cs wire.0
        (raw_bytes-Written 1 t.witness_type t c (raw-bytes none 1 t.witness_type t k c e1))
        (write_transactions-Blocks ts ks cs wire.1 e2))

-- Every transaction takes at least one byte.
pub Blocks-length :
    (ts : List Transaction) (codes : Bytes) → Blocks ts codes → length ts ≤ length codes
Blocks-length [] codes no_more = omega arith
Blocks-length (t ∷ ts) codes (one_more u us c cs wire w rest) =
    omega
      (arith, length-append c cs, Written-pos t.witness_type t c wire w, Blocks-length ts cs rest)

module _ (sha256 : Bytes → Bytes) where
  parse_one-Reads :
      (t : Transaction) (code : Bytes)
      → IsWire t
      → Written t.witness_type t code
      → Reads (parse_one sha256) code (shown t)
  unfolding parse_one
  parse_one-Reads t code wire w = Reads-code (sym (append-nil code)) (
      Reads-bind _ (raw_bytes-parse_bytesio sha256 false t.witness_type t [] code wire w (inl refl))
        Reads-return)

  pub parse_loop-ReadsAll :
      (fuel found : ℕ) (ts : List Transaction) (codes : Bytes)
      → Blocks ts codes
      → length ts < fuel
      → ReadsAll (parse_loop sha256 fuel 0 found) codes (some (map shown ts))
  unfolding parse_loop
  parse_loop-ReadsAll zero found ts codes b h = absurd (omega arith)
  parse_loop-ReadsAll (suc fuel) found [] codes no_more h = record {
    run_all = λ s r n.
        let end : ltb s.position (length s.buffer) ≡ false = ground arith in
        rw end (Reads-return.run s [] r);
  }
  parse_loop-ReadsAll (suc fuel) found (t ∷ ts) codes (one_more u us c cs wire w rest) h = record {
    run_all = λ s r n.
        let ih = parse_loop-ReadsAll fuel (found + 1) ts cs rest (omega arith) in
        let more : ltb s.position (length s.buffer) ≡ true =
          ground (arith, n, length-append c cs, Written-pos t.witness_type t c wire w) in
        rw more (
          (ReadsAll-bind _ (parse_one-Reads t c wire w) (ReadsAll-end _ ih Reads-return)).run_all s
            r n);
  }
