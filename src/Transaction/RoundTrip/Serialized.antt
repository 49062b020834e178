-- ===== src/Transaction/RoundTrip/Serialized.antt =====
-- `Transaction.raw` and then `Transaction.parse_bytesio` of bitcoinlib/transactions.py.
use bitcoinlib.Common.{
  ℕ, ◌≡◌, refl, ap, ◌∙◌, [], ◌∷◌, ◌++◌, reverse, Bool, Option, none, ok, length, length-reverse,
  length-append, ◌<◌, ◌⊎◌, inl, inr, ◌+◌, ◌-◌, take-append, bind_ok, ok_value, arith,
}
use bitcoinlib.Encoding.Stream.{Stream, remaining, seek}
use bitcoinlib.Transaction.{Bytes, Transaction, WitnessType}
use bitcoinlib.Transaction.Raw.{raw_bytes, keep_size, raw}
use bitcoinlib.Transaction.Parse.{
  Parsed, parsed_bytes, parsed_txid, parse_transaction, parse_bytesio,
}
use bitcoinlib.Transaction.Reader.{◌>>=◌, Reads}
use bitcoinlib.Transaction.RoundTrip.Whole.{
  IsWire, flag_of, parsed_of, Written, raw_bytes-Written, raw_bytes-Reads,
}

pub raw-bytes :
    (sign_id : Option ℕ) (hash_type : ℕ) (witness_type : WitnessType) (t kept : Transaction)
    (code : Bytes)
    → raw sign_id hash_type witness_type t ≡ ok (code, kept)
    → raw_bytes sign_id hash_type witness_type t ≡ ok code
unfolding raw
raw-bytes sign_id hash_type witness_type t kept code e =
    let (r, e1, f1) = bind_ok (raw_bytes sign_id hash_type witness_type t) _ (code, kept) e in
    let (k, e2, f2) = bind_ok (keep_size sign_id (length r) t) _ (code, kept) f1 in
    e1 ∙ ap ok (ap (λ x. x.0) (ok_value f2))

-- Bytes that are handed over are kept, and the same bytes are read again.
parsed_bytes_given :
    (code : Bytes) (start : ℕ) (s : Stream)
    → 0 < length code
    → parsed_bytes code start s ≡ (code, s)
unfolding parsed_bytes
parsed_bytes_given [] start s h = absurd (omega arith)
parsed_bytes_given (b ∷ bs) start s h = refl

parsed_bytes_again :
    (code rest : Bytes) (s : Stream)
    → remaining s ≡ code ++ rest
    → parsed_bytes [] s.position (seek (s.position + length code) s)
      ≡ (code, seek (s.position + length code) s)
unfolding parsed_bytes
parsed_bytes_again code rest s h =
    let size : s.position + length code - s.position ≡ length code = omega arith in
    rw (size, h, take-append code rest (length code) refl) refl

pub Written-pos :
    (witness_type : WitnessType) (t : Transaction) (code : Bytes)
    → IsWire t
    → Written witness_type t code
    → 0 < length code
Written-pos witness_type t code wire w =
    rw w.shape
      (omega (arith, length-append (reverse t.version) _, length-reverse t.version, wire.version))

module _ (sha256 : Bytes → Bytes) where
  parse_bytesio-ok :
      (strict : Bool) (given code : Bytes) (s s' : Stream) (parsed : Parsed)
      → parse_transaction strict s ≡ ok (parsed, s')
      → parsed_bytes given s.position s' ≡ (code, s')
      → parse_bytesio sha256 strict given s
        ≡ ok ((parsed, code, parsed_txid sha256 parsed code), s')
  unfolding parse_bytesio ◌>>=◌
  parse_bytesio-ok strict given code s s' parsed e b = rw (parse_bytesio, ◌>>=◌, e, b) refl

  -- Either the bytes are handed over beside the stream, or they are read again.
  pub raw_bytes-parse_bytesio :
      (strict : Bool) (witness_type : WitnessType) (t : Transaction) (given code : Bytes)
      → IsWire t
      → Written witness_type t code
      → (given ≡ []) ⊎ (given ≡ code)
      → Reads (parse_bytesio sha256 strict given) code (
        parsed_of (flag_of witness_type) t,
        code,
        parsed_txid sha256 (parsed_of (flag_of witness_type) t) code,
      )
  raw_bytes-parse_bytesio strict witness_type t given code wire w source = record {
    run = λ s rest h.
        parse_bytesio-ok strict given code s _ _
          ((raw_bytes-Reads strict witness_type t code wire w).run s rest h)
          (elim source [
            | inl e ↦ rw e (parsed_bytes_again code rest s h)
            | inr e ↦
                rw e (parsed_bytes_given code s.position _ (Written-pos witness_type t code wire w))
          ]);
  }

  -- What is written is read back, before the scripts are analysed.
  pub parse_bytesio-raw :
      (strict : Bool) (hash_type : ℕ) (witness_type : WitnessType) (t kept : Transaction)
      (given code rest : Bytes) (s : Stream)
      → IsWire t
      → raw none hash_type witness_type t ≡ ok (code, kept)
      → (given ≡ []) ⊎ (given ≡ code)
      → remaining s ≡ code ++ rest
      → let parsed = parsed_of (flag_of witness_type) t in
        parse_bytesio sha256 strict given s
        ≡ ok ((parsed, code, parsed_txid sha256 parsed code), seek (s.position + length code) s)
  parse_bytesio-raw strict hash_type witness_type t kept given code rest s wire e g h =
      (raw_bytes-parse_bytesio strict witness_type t given code wire
          (raw_bytes-Written hash_type witness_type t code
            (raw-bytes none hash_type witness_type t kept code e))
          g).run
        s rest h
