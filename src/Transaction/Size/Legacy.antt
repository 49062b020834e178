-- ===== src/Transaction/Size/Legacy.antt =====
-- `Transaction.estimate_size` of bitcoinlib/transactions.py against the bytes that `Transaction.raw`
-- writes, for a transaction that is signed and has no witnesses.
use bitcoinlib.Common.{
  ℕ, Exception, err, ◌+◌, ◌*◌, ◌^◌, ◌<◌, ◌≡◌, refl, sym, ap, ◌∙◌, List, [], ◌∷◌, ◌++◌, reverse,
  true, false, none, Bool-cases, inl, inr, arith, ok, bind_ok, ok_value, ltb, lt→ltb, length,
  length-append, length-reverse, All,
}
use bitcoinlib.Common.Integer.{ℤ, pos, negsuc}
use bitcoinlib.Encoding.Bytes.{to_little}
use bitcoinlib.Encoding.Bytes.Laws.{length-little_digits}
use bitcoinlib.Encoding.VarInt.{int_to_varbyteint, varstr}
use bitcoinlib.Transaction.{Bytes, Input, Output, Transaction, legacy, is_nonstandard}
use bitcoinlib.Transaction.Raw.{
  is_empty, write_witness, write_script, write_input, write_inputs, write_value, write_output,
  write_outputs, raw_bytes,
}
use bitcoinlib.Transaction.Size.{
  SizedInput, is_complete, script_size, inputs_size, output_size, outputs_size, change_size,
  estimate_size,
}

to_little-size : (size n : ℕ) (bs : Bytes) → to_little size n ≡ ok bs → length bs ≡ size
to_little-size size n bs h = elim (Bool-cases (ltb n (256 ^ size))) [
  | inl t ↦ ap length (sym (ok_value (rw t at h))) ∙ length-little_digits size n
  | inr f ↦ absurd (raised (rw f at h))
]
  where
    raised : {e : Exception} {bs : Bytes} → err e ≡ ok bs → ⊥
    raised h = cc

-- A signed input of a transaction with no witnesses, as it stands in a transaction.
pub record IsSigned (s : SizedInput) : Type 0 where
  pub complete : is_complete s ≡ true
  pub no_witness : s.input.witness_type ≡ legacy
  pub standard : is_nonstandard s.input.script_type ≡ false
  pub txid_size : length s.input.prev_txid ≡ 32
  pub n_size : length s.input.output_n ≡ 4

module _ (s : SizedInput) (k : IsSigned s) where
  write_script-script_size :
      (script : Bytes) → write_script none s.input ≡ ok script → script_size s ≡ ok (length script)
  unfolding write_script script_size
  write_script-script_size script h =
      let (code, e, g) = bind_ok (varstr s.input.unlocking_script) _ script (rw k.standard at h) in
      let same : code ≡ script = ok_value g in
      let size : length code + 0 ≡ length script = omega (arith, ap length same) in
      rw (k.complete, e, k.no_witness, script_size) (ap ok size)

  fields_size :
      (script sequence : Bytes)
      → length sequence ≡ 4
      → length (reverse s.input.prev_txid ++ (reverse s.input.output_n ++ (script ++ sequence)))
        ≡ 40 + length script
  fields_size script sequence e =
      let txid = s.input.prev_txid in
      let n = s.input.output_n in
      omega (
        arith,
        length-append (reverse txid) (reverse n ++ (script ++ sequence)),
        length-append (reverse n) (script ++ sequence),
        length-append script sequence,
        length-reverse txid,
        length-reverse n,
        k.txid_size,
        k.n_size,
      )

  write_input-script_size :
      (code w : Bytes)
      → write_input none s.input ≡ ok (code, w)
      → (size : ℕ) × (script_size s ≡ ok size) × (length code ≡ 40 + size)
  unfolding write_input
  write_input-script_size code w h =
      let i = s.input in
      let (w', e1, h1) = bind_ok (write_witness i) _ _ h in
      let (script, e2, h2) = bind_ok (write_script none i) _ _ h1 in
      let (sequence, e3, h3) = bind_ok (to_little 4 i.sequence) _ _ h2 in
      (
        length script,
        write_script-script_size script e2,
        ap (λ x. length x.0) (sym (ok_value h3))
            ∙ fields_size script sequence (to_little-size 4 i.sequence sequence e3),
      )

abbrev pub plain_inputs : List SizedInput → List Input
plain_inputs [] = []
plain_inputs (s ∷ ss) = s.input ∷ plain_inputs ss

inputs_size-nil : inputs_size [] ≡ ok (0, 0)
unfolding inputs_size
inputs_size-nil = refl

inputs_size-cons :
    (s : SizedInput) (ss : List SizedInput) (size est scripts : ℕ)
    → s.input.witness_type ≡ legacy
    → script_size s ≡ ok size
    → inputs_size ss ≡ ok (est, scripts)
    → inputs_size (s ∷ ss) ≡ ok (40 + 0 + size + est, size + scripts)
unfolding inputs_size
inputs_size-cons s ss size est scripts n e f = rw (e, f, n) refl

write_inputs-inputs_size :
    (ss : List SizedInput) (code w : Bytes)
    → All IsSigned ss
    → write_inputs none (plain_inputs ss) ≡ ok (code, w)
    → (scripts : ℕ) × (inputs_size ss ≡ ok (length code, scripts))
unfolding write_inputs
write_inputs-inputs_size [] code w k h =
    (0, inputs_size-nil ∙ ap (λ n. ok (n, 0)) (ap (λ x. length x.0) (ok_value h)))
write_inputs-inputs_size (s ∷ ss) code w (k, ks) h =
    let ((c, v), e1, h1) = bind_ok (write_input none s.input) _ _ h in
    let ((cs, vs), e2, h2) = bind_ok (write_inputs none (plain_inputs ss)) _ _ h1 in
    let (size, e, g) = write_input-script_size s k c v e1 in
    let (scripts, f) = write_inputs-inputs_size ss cs vs ks e2 in
    let whole : 40 + 0 + size + length cs ≡ length code =
      omega (arith, g, length-append c cs, ap (λ x. length x.0) (ok_value h2)) in
    (
      size + scripts,
      inputs_size-cons s ss size (length cs) scripts k.no_witness e f
          ∙ ap (λ n. ok (n, size + scripts)) whole,
    )

-- An output has a locking script.
abbrev pub IsLocked : Output → Type 0
IsLocked o = is_empty o.lock_script ≡ false

write_value-size : (v : ℤ) (bs : Bytes) → write_value v ≡ ok bs → length bs ≡ 8
unfolding write_value
write_value-size (pos n) bs h = to_little-size 8 n bs h
write_value-size (negsuc n) bs h = cc

write_outputs-outputs_size :
    (os : List Output) (code : Bytes)
    → All IsLocked os
    → write_outputs os ≡ ok code
    → outputs_size os ≡ ok (length code)
unfolding write_outputs outputs_size write_output output_size
write_outputs-outputs_size [] code k h = ap ok (ap length (ok_value h))
write_outputs-outputs_size (o ∷ os) code (k, ks) h =
    let (c, e1, h1) = bind_ok (write_output o) _ _ h in
    let (cs, e2, h2) = bind_ok (write_outputs os) _ _ h1 in
    let (value, e3, h3) = bind_ok (write_value o.value) _ _ e1 in
    let (script, e4, h4) = bind_ok (varstr o.lock_script) _ _ h3 in
    let whole : 8 + length script + length cs ≡ length code = omega (
      arith,
      write_value-size o.value value e3,
      length-append value script,
      ap length (ok_value h4),
      length-append c cs,
      ap length (ok_value h2),
    ) in
    rw (k, e4, write_outputs-outputs_size os cs ks e2) (ap ok whole)

small_count : (n : ℕ) (code : Bytes) → n < 253 → int_to_varbyteint n ≡ ok code → length code ≡ 1
unfolding int_to_varbyteint
small_count n code k h = to_little-size 1 n code (rw (lt→ltb n 253 k) at h)

whole_size :
    (version n_in ins n_out outs locktime suffix : Bytes)
    → length version ≡ 4
    → length n_in ≡ 1
    → length n_out ≡ 1
    → length locktime ≡ 4
    → length suffix ≡ 0
    → 12 + length ins + length outs
      ≡ length (
          reverse version
          ++ ([] ++ (n_in ++ (ins ++ (n_out ++ (outs ++ ([] ++ (locktime ++ suffix))))))))
        + 2
whole_size version n_in ins n_out outs locktime suffix v a b l z = omega (
  arith,
  length-append (reverse version) (n_in ++ (ins ++ (n_out ++ (outs ++ (locktime ++ suffix))))),
  length-reverse version,
  length-append n_in (ins ++ (n_out ++ (outs ++ (locktime ++ suffix)))),
  length-append ins (n_out ++ (outs ++ (locktime ++ suffix))),
  length-append n_out (outs ++ (locktime ++ suffix)),
  length-append outs (locktime ++ suffix),
  length-append locktime suffix,
)

estimate_size-sum :
    (s : SizedInput) (ss : List SizedInput) (os : List Output) (est scripts out total : ℕ)
    → inputs_size (s ∷ ss) ≡ ok (est, scripts)
    → outputs_size os ≡ ok out
    → 12 + est + out ≡ total + 2
    → estimate_size legacy (s ∷ ss) os 0 ≡ ok (total + 2, pos (total + 2))
unfolding estimate_size
estimate_size-sum s ss os est scripts out total f g e =
    let sum : 12 + 0 + est + out + 0 * change_size (s ∷ ss) ≡ total + 2 = omega arith in
    rw (f, g) (ap (λ n. ok (n, pos n)) sum)

-- For a transaction with no witnesses whose inputs are signed, with 1 to 252 inputs and at most 252
-- outputs, the estimate of the size with no change output is two bytes more than its bytes: the two
-- counts have been given two bytes each. The other conditions are that every output has a locking
-- script, that no input has the script type nonstandard_0001, and the lengths of the version, of the
-- transaction IDs and of the output numbers.
pub estimate_size-raw_bytes :
    (t : Transaction) (s : SizedInput) (ss : List SizedInput) (hash_type : ℕ) (bytes : Bytes)
    → t.inputs ≡ plain_inputs (s ∷ ss)
    → All IsSigned (s ∷ ss)
    → All IsLocked t.outputs
    → length t.version ≡ 4
    → length t.inputs < 253
    → length t.outputs < 253
    → raw_bytes none hash_type legacy t ≡ ok bytes
    → estimate_size legacy (s ∷ ss) t.outputs 0 ≡ ok (length bytes + 2, pos (length bytes + 2))
unfolding raw_bytes
estimate_size-raw_bytes t s ss hash_type bytes same signed locked v p q h =
    let (n_in, e1, h1) = bind_ok (int_to_varbyteint (length t.inputs)) _ _ h in
    let ((ins, ws), e2, h2) = bind_ok (write_inputs none t.inputs) _ _ h1 in
    let (n_out, e3, h3) = bind_ok (int_to_varbyteint (length t.outputs)) _ _ h2 in
    let (outs, e4, h4) = bind_ok (write_outputs t.outputs) _ _ h3 in
    let (locktime, e5, h5) = bind_ok (to_little 4 t.locktime) _ _ h4 in
    let (scripts, f) =
      write_inputs-inputs_size (s ∷ ss) ins ws signed (ap (write_inputs none) (sym same) ∙ e2) in
    estimate_size-sum s ss t.outputs (length ins) scripts (length outs) (length bytes) f
      (write_outputs-outputs_size t.outputs outs locked e4)
      (whole_size t.version n_in ins n_out outs locktime [] v (small_count _ _ p e1)
          (small_count _ _ q e3) (to_little-size 4 t.locktime locktime e5) refl
        ∙ ap (λ (bs : Bytes). length bs + 2) (ok_value h5))
