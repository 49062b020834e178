-- ===== src/Transaction/Sighash/Binding.antt =====
-- What the bytes of `Transaction.signature_segwit` of bitcoinlib/transactions.py determine.
pub mod Preimage
use bitcoinlib.Common.{
  ℕ, ◌+◌, ◌≡◌, refl, sym, ap, ◌∙◌, List, [], ◌∷◌, ◌++◌, append-nil, Bool, true, false, not, ◌&&◌,
  Option, none, some, Result, ok, err, assertion_error, if◌then◌else◌, length, get_elem?, ◌>>=◌,
  bind_ok, guard_ok, ok_value, arith,
}
use bitcoinlib.Encoding.Stream.{Stream}
use bitcoinlib.Transaction.{Bytes, Input, Output, Transaction, is_segwit}
use bitcoinlib.Transaction.Parse.{double_sha256}
use bitcoinlib.Transaction.Reader.{Reader, Reads}
use bitcoinlib.Transaction.Sighash.{
  no_hash, anyone_can_pay, is_single, is_none_type, script_code, preimage_at, write_prevouts,
  write_sequences, sign_output, sign_outputs, hash_prevouts, hash_sequence, hash_one_output,
  hash_outputs, signature_segwit,
}
use bitcoinlib.Transaction.Sighash.Binding.Preimage.{
  Commitment, commitment, read_commitment, IsSignable, preimage-Reads,
}

-- A reader finds one value in a byte string.
unique_value :
    {A : Type 0} (m : Reader A) (code : Bytes) (a b : A) → Reads m code a → Reads m code b → a ≡ b
unique_value m code a b r r' =
    let s : Stream = record { buffer = code; position = 0 } in
    let both = sym (r.run s [] (sym (append-nil code))) ∙ r'.run s [] (sym (append-nil code)) in
    ap (λ x. x.0) (ok_value both)

length_either :
    (b : Bool) (x y : Bytes) → length x ≡ 32 → length y ≡ 32 → length (if b then x else y) ≡ 32
length_either true x y h k = h
length_either false x y h k = k

-- A call that returns a hash returns 32 bytes.
abbrev Sized : Result Bytes → Type 0
Sized r = (o : Bytes) → r ≡ ok o → length o ≡ 32

either_way : (b : Bool) (x y : Result Bytes) → Sized x → Sized y → Sized (if b then x else y)
either_way true x y h k = h
either_way false x y h k = k

no_hash-Sized : Sized (ok no_hash)
no_hash-Sized o e = ap length (sym (ok_value e))

-- The signature of the input `i` of a transaction, at its number.
pub record IsSigned (t : Transaction) (sign_id : ℕ) (i : Input) : Type 0 where
  pub input : get_elem? t.inputs sign_id ≡ some i
  pub fields : IsSignable t i

module _ (sha256 : Bytes → Bytes) (size : (m : Bytes) → length (sha256 m) ≡ 32) where
  length-double_sha256 : (m : Bytes) → length (double_sha256 sha256 m) ≡ 32
  unfolding double_sha256
  length-double_sha256 m = size (sha256 m)

  length-hash_prevouts :
      (hash_type : ℕ) (is : List Input) → length (hash_prevouts sha256 hash_type is) ≡ 32
  unfolding hash_prevouts
  length-hash_prevouts hash_type is =
      length_either (anyone_can_pay hash_type) no_hash _ refl
        (length-double_sha256 (write_prevouts is))

  length-hash_sequence :
      (hash_type : ℕ) (sequences : Bytes) → length (hash_sequence sha256 hash_type sequences) ≡ 32
  unfolding hash_sequence
  length-hash_sequence hash_type sequences =
      length_either
        (not (anyone_can_pay hash_type)
          && not (is_single hash_type)
          && not (is_none_type hash_type))
        _ no_hash (length-double_sha256 sequences) refl

  double_sha256-Sized : (r : Result Bytes) → Sized (r >>= λ code. ok (double_sha256 sha256 code))
  double_sha256-Sized r o e =
      let (code, f, g) = bind_ok r _ o e in ap length (sym (ok_value g)) ∙ length-double_sha256 code

  hash_one_output-Sized : (o : Option Output) → Sized (hash_one_output sha256 o)
  unfolding hash_one_output
  hash_one_output-Sized none = no_hash-Sized
  hash_one_output-Sized (some o) = double_sha256-Sized (sign_output o)

  hash_outputs-Sized :
      (hash_type sign_id : ℕ) (os : List Output) → Sized (hash_outputs sha256 hash_type sign_id os)
  unfolding hash_outputs
  hash_outputs-Sized hash_type sign_id os =
      either_way (not (is_single hash_type) && not (is_none_type hash_type)) _ _
        (double_sha256-Sized (sign_outputs os))
        (either_way (not (is_single hash_type)) _ _ (hash_one_output-Sized (get_elem? os sign_id))
          no_hash-Sized)

  -- The bytes have the parts of a commitment to the transaction and the input.
  signature_segwit-Reads :
      (sign_id hash_type : ℕ) (t kept : Transaction) (i : Input) (p : Bytes)
      → IsSigned t sign_id i
      → signature_segwit sha256 sign_id hash_type t ≡ ok (p, kept)
      → (sequences : Bytes) × (outputs : Bytes) × (hash_outputs sha256 hash_type sign_id t.outputs
          ≡ ok outputs)
        × Reads read_commitment p
            (commitment t hash_type (hash_prevouts sha256 hash_type t.inputs) sequences outputs i)
  unfolding signature_segwit preimage_at
  signature_segwit-Reads sign_id hash_type t kept i p sig e =
      let (g, f0) = guard_ok (is_segwit t.witness_type) assertion_error _ (p, kept) e in
      let (sequences, e1, f1) = bind_ok (write_sequences t.inputs) _ (p, kept) f0 in
      let (outputs, e2, f2) =
        bind_ok (hash_outputs sha256 hash_type sign_id t.outputs) _ (p, kept) f1 in
      let s = hash_sequence sha256 hash_type sequences in
      let prevouts = hash_prevouts sha256 hash_type t.inputs in
      let (code, e3, f3) =
        bind_ok (preimage_at t hash_type prevouts s outputs (get_elem? t.inputs sign_id)) _
          (p, kept) f2 in
      let same : code ≡ p = ap (λ x. x.0) (ok_value f3) in
      let written =
        sym (ap (preimage_at t hash_type prevouts s outputs) sig.input) ∙ e3 ∙ ap ok same in
      (
        s,
        outputs,
        e2,
        preimage-Reads t hash_type prevouts s outputs i p sig.fields
            (length-hash_prevouts hash_type t.inputs) (length-hash_sequence hash_type sequences)
            (hash_outputs-Sized hash_type sign_id t.outputs outputs e2) written,
      )

  -- The signed bytes determine what is signed: where two calls return the same bytes, the
  -- transactions have the same version and locktime, the hash types are the same, the signed inputs
  -- spend the same output of the same value under the same script with the same sequence, and the
  -- hashes of all inputs and of the outputs that the hash type covers are the same. The conditions
  -- are the sizes of the version, of the transaction IDs and of the output numbers, and that no
  -- coinbase input is signed; the hash function has results of 32 bytes.
  pub signature_segwit-binding :
      (sign_id sign_id' hash_type hash_type' : ℕ) (t t' kept kept' : Transaction) (i i' : Input)
      (p : Bytes)
      → IsSigned t sign_id i
      → IsSigned t' sign_id' i'
      → signature_segwit sha256 sign_id hash_type t ≡ ok (p, kept)
      → signature_segwit sha256 sign_id' hash_type' t' ≡ ok (p, kept')
      → (t.version ≡ t'.version)
        × (t.locktime ≡ t'.locktime)
        × (hash_type ≡ hash_type')
        × (i.prev_txid ≡ i'.prev_txid)
        × (i.output_n ≡ i'.output_n)
        × (i.value ≡ i'.value)
        × (i.sequence ≡ i'.sequence)
        × (script_code i ≡ script_code i')
        × (hash_prevouts sha256 hash_type t.inputs ≡ hash_prevouts sha256 hash_type' t'.inputs)
        × (hash_outputs sha256 hash_type sign_id t.outputs
            ≡ hash_outputs sha256 hash_type' sign_id' t'.outputs)
  signature_segwit-binding sign_id sign_id' hash_type hash_type' t t' kept kept' i i' p sig sig' e
        e' =
      let (s, outputs, o, r) = signature_segwit-Reads sign_id hash_type t kept i p sig e in
      let (s', outputs', o', r') =
        signature_segwit-Reads sign_id' hash_type' t' kept' i' p sig' e' in
      let same = unique_value read_commitment p _ _ r r' in
      (
        ap (λ (c : Commitment). c.version) same,
        ap (λ (c : Commitment). c.locktime) same,
        ap (λ (c : Commitment). c.hash_type) same,
        ap (λ (c : Commitment). c.prev_txid) same,
        ap (λ (c : Commitment). c.output_n) same,
        ap (λ (c : Commitment). c.value) same,
        ap (λ (c : Commitment). c.sequence) same,
        ap (λ (c : Commitment). c.script) same,
        ap (λ (c : Commitment). c.prevouts) same,
        o ∙ ap (λ (c : Commitment). ok (c.outputs)) same ∙ sym o',
      )
