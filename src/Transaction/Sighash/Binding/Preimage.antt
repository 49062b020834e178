-- ===== src/Transaction/Sighash/Binding/Preimage.antt =====
-- The signed bytes of bitcoinlib/transactions.py, read back into their parts.
use bitcoinlib.Common.{
  ℕ, ◌<◌, ◌^◌, ◌≡◌, refl, sym, ap, ◌∙◌, [], ◌∷◌, ◌++◌, reverse, append-nil, append_assoc,
  reverse-reverse, Bool, true, false, not, ◌||◌, ok, transaction_error, ◌==◌, length,
  length-reverse, bytes_eq, bind_ok, guard_ok, ok_value, arith,
}
use bitcoinlib.Encoding.Bytes.{to_little, from_little}
use bitcoinlib.Encoding.Bytes.Laws.{length-little_digits, from_little-little_digits}
use bitcoinlib.Encoding.VarInt.{varstr}
use bitcoinlib.Transaction.{Bytes, Input, Transaction, is_coinbase}
use bitcoinlib.Transaction.Raw.{is_empty}
use bitcoinlib.Transaction.Reader.{
  Reader, ◌>>=◌, return, read_bytes, read_count, Reads, Reads-return, Reads-bind, Reads-read_bytes,
  Reads-read_count, Reads-code, Reads-value,
}
use bitcoinlib.Transaction.RoundTrip.Inputs.{varstr_prefix, to_little_digits}
use bitcoinlib.Transaction.Sighash.{script_code, preimage}

-- The parts of the signed bytes.
pub record Commitment : Type 0 where
  pub version : Bytes
  pub prevouts : Bytes
  pub sequences : Bytes
  pub prev_txid : Bytes
  pub output_n : Bytes
  pub script : Bytes
  pub value : ℕ
  pub sequence : ℕ
  pub outputs : Bytes
  pub locktime : ℕ
  pub hash_type : ℕ

abbrev pub commitment : Transaction → ℕ → Bytes → Bytes → Bytes → Input → Commitment
commitment t hash_type prevouts sequences outputs i = record {
  version = t.version;
  prevouts = prevouts;
  sequences = sequences;
  prev_txid = i.prev_txid;
  output_n = i.output_n;
  script = script_code i;
  value = i.value;
  sequence = i.sequence;
  outputs = outputs;
  locktime = t.locktime;
  hash_type = hash_type;
}

unfoldable pub read_commitment : Reader Commitment
read_commitment = do
  version ← read_bytes 4
  prevouts ← read_bytes 32
  sequences ← read_bytes 32
  prev_txid ← read_bytes 32
  output_n ← read_bytes 4
  size ← read_count
  script ← read_bytes size
  value ← read_bytes 8
  sequence ← read_bytes 4
  outputs ← read_bytes 32
  locktime ← read_bytes 4
  hash_type ← read_bytes 4
  return (record {
    version = reverse version;
    prevouts = prevouts;
    sequences = sequences;
    prev_txid = reverse prev_txid;
    output_n = reverse output_n;
    script = script;
    value = from_little value;
    sequence = from_little sequence;
    outputs = outputs;
    locktime = from_little locktime;
    hash_type = from_little hash_type;
  })

-- The parts that are written with a fixed size have it.
pub record IsSignable (t : Transaction) (i : Input) : Type 0 where
  pub version : length t.version ≡ 4
  pub txid : length i.prev_txid ≡ 32
  pub output_n : length i.output_n ≡ 4
  pub spends : is_coinbase i.script_type ≡ false

written_digits :
    (size n : ℕ) (code : Bytes)
    → to_little size n ≡ ok code
    → Reads (read_bytes size) code code × (from_little code ≡ n)
written_digits size n code e =
    let digits = to_little_digits size n code e in
    let small : n < 256 ^ size = ground arith in
    (
      Reads-read_bytes (rw digits (length-little_digits size n)),
      rw digits (from_little-little_digits size n small),
    )

not_zero : (x y c : Bool) → (not (x || y) || c) ≡ true → c ≡ false → y ≡ false
not_zero true y true h e = cc
not_zero true y false h e = cc
not_zero false true true h e = cc
not_zero false true false h e = cc
not_zero false false c h e = refl

same_commitment :
    (t : Transaction) (hash_type : ℕ) (prevouts sequences outputs : Bytes) (i : Input)
    (value sequence locktime suffix : Bytes)
    → from_little value ≡ i.value
    → from_little sequence ≡ i.sequence
    → from_little locktime ≡ t.locktime
    → from_little suffix ≡ hash_type
    → commitment t hash_type prevouts sequences outputs i ≡ record {
      version = reverse (reverse t.version);
      prevouts = prevouts;
      sequences = sequences;
      prev_txid = reverse (reverse i.prev_txid);
      output_n = reverse (reverse i.output_n);
      script = script_code i;
      value = from_little value;
      sequence = from_little sequence;
      outputs = outputs;
      locktime = from_little locktime;
      hash_type = from_little suffix;
    }
same_commitment t hash_type prevouts sequences outputs i value sequence locktime suffix a b c d =
    rw
      (
        reverse-reverse t.version,
        reverse-reverse i.prev_txid,
        reverse-reverse i.output_n,
        a,
        b,
        c,
        d,
      )
      refl

pub preimage-Reads :
    (t : Transaction) (hash_type : ℕ) (prevouts sequences outputs : Bytes) (i : Input) (p : Bytes)
    → IsSignable t i
    → length prevouts ≡ 32
    → length sequences ≡ 32
    → length outputs ≡ 32
    → preimage t hash_type prevouts sequences outputs i ≡ ok p
    → Reads read_commitment p (commitment t hash_type prevouts sequences outputs i)
unfolding preimage read_commitment
preimage-Reads t hash_type prevouts sequences outputs i p sig hp hs ho e =
    let (g1, f1) =
      guard_ok (not (i.value == 0) || is_coinbase i.script_type) transaction_error _ p e in
    let (g2, f2) =
      guard_ok
        (not (is_empty (script_code i) || bytes_eq (script_code i) (0 ∷ []))
          || is_coinbase i.script_type)
        transaction_error _ p f1 in
    let (code, e1, f3) = bind_ok (varstr (script_code i)) _ p f2 in
    let (value, e2, f4) = bind_ok (to_little 8 i.value) _ p f3 in
    let (sequence, e3, f5) = bind_ok (to_little 4 i.sequence) _ p f4 in
    let (locktime, e4, f6) = bind_ok (to_little 4 t.locktime) _ p f5 in
    let (suffix, e5, f7) = bind_ok (to_little 4 hash_type) _ p f6 in
    let (prefix, c, q) = varstr_prefix (script_code i) code (not_zero _ _ _ g2 sig.spends) e1 in
    let (r2, v2) = written_digits 8 i.value value e2 in
    let (r3, v3) = written_digits 4 i.sequence sequence e3 in
    let (r4, v4) = written_digits 4 t.locktime locktime e4 in
    let (r5, v5) = written_digits 4 hash_type suffix e5 in
    let head = λ (x : Bytes).
      reverse t.version
      ++ (prevouts ++ (sequences ++ (reverse i.prev_txid ++ (reverse i.output_n ++ x)))) in
    let rest = value ++ (sequence ++ (outputs ++ (locktime ++ suffix))) in
    let shape : p ≡ head (prefix ++ (script_code i ++ rest)) =
      sym (ok_value f7)
      ∙ ap head (ap (λ x. x ++ rest) q ∙ append_assoc prefix (script_code i) rest) in
    let padded : p
        ≡ head (
            prefix
            ++ (script_code i
                ++ (value ++ (sequence ++ (outputs ++ (locktime ++ (suffix ++ []))))))) =
      shape
      ∙ ap
          (λ x.
            head
              (prefix ++ (script_code i ++ (value ++ (sequence ++ (outputs ++ (locktime ++ x)))))))
          (sym (append-nil suffix)) in
    Reads-code padded (
      Reads-bind _ (Reads-read_bytes (length-reverse t.version ∙ sig.version)) (
        Reads-bind _ (Reads-read_bytes hp) (
          Reads-bind _ (Reads-read_bytes hs) (
            Reads-bind _ (Reads-read_bytes (length-reverse i.prev_txid ∙ sig.txid)) (
              Reads-bind _ (Reads-read_bytes (length-reverse i.output_n ∙ sig.output_n)) (
                Reads-bind _ (Reads-read_count c) (
                  Reads-bind _ (Reads-read_bytes refl) (
                    Reads-bind _ r2 (
                      Reads-bind _ r3 (
                        Reads-bind _ (Reads-read_bytes ho) (
                          Reads-bind _ r4 (
                            Reads-bind _ r5 (
                              Reads-value
                                (same_commitment t hash_type prevouts sequences outputs i value
                                  sequence locktime suffix v2 v3 v4 v5)
                                Reads-return)))))))))))))
