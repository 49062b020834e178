-- ===== src/Transaction/RoundTrip/Inputs.antt =====
-- What `raw` of bitcoinlib/transactions.py writes for an input is read by `Input.parse`.
use bitcoinlib.Common.{
  ℕ, ◌+◌, ◌≡◌, refl, sym, ap, ◌∙◌, List, [], ◌∷◌, ◌++◌, reverse, append_assoc, append-nil,
  reverse-reverse, true, false, ◌&&◌, none, some, ok, ◌==◌, if◌then◌else◌, length, length-reverse,
  bytes_eq, bytes_eq→eq, Bool-cases, bind_ok, arith, inl, inr, All,
}
use bitcoinlib.Encoding.Bytes.{little_digits, to_little}
use bitcoinlib.Encoding.Bytes.Laws.{length-little_digits}
use bitcoinlib.Encoding.Hex.{to_bytes}
use bitcoinlib.Encoding.VarInt.{int_to_varbyteint, varstr}
use bitcoinlib.Transaction.{
  Bytes, Input, WitnessType, legacy, segwit, nonstandard_0001, is_segwit, is_nonstandard,
}
use bitcoinlib.Transaction.Raw.{write_script, write_witness, write_input, write_inputs}
use bitcoinlib.Transaction.Parse.{InputArguments, parse_input, parse_inputs}
use bitcoinlib.Transaction.Reader.{
  Reads, Reads-return, Reads-require, Reads-bind, Reads-then, Reads-read_bytes, Reads-read_count,
  Reads-code, Reads-value,
}

-- A script that is not the single byte 0 has its length before it.
pub varstr_prefix :
    (script code : Bytes)
    → bytes_eq script (0 ∷ []) ≡ false
    → varstr script ≡ ok code
    → (prefix : Bytes) × (int_to_varbyteint (length script) ≡ ok prefix) × (code ≡ prefix ++ script)
unfolding varstr
varstr_prefix script code h e =
    let (prefix, p, q) = bind_ok (int_to_varbyteint (length script)) _ code (rw h at e) in
    let same : prefix ++ script ≡ code = cc in (prefix, p, sym same)

-- `to_bytes` writes all digits where it returns.
pub to_little_digits :
    (size n : ℕ) (code : Bytes) → to_little size n ≡ ok code → code ≡ little_digits size n
to_little_digits size n code e = ground arith

-- The lengths that the wire has, and the one script that has its own script type; the transaction
-- ID and the script are no text of hexadecimal digits.
pub record IsWireInput (i : Input) : Type 0 where
  pub txid : length i.prev_txid ≡ 32
  pub output_n : length i.output_n ≡ 4
  pub script : bytes_eq i.unlocking_script (0 ∷ []) ≡ is_nonstandard i.script_type
  pub plain_txid : to_bytes i.prev_txid ≡ i.prev_txid
  pub plain_script : to_bytes i.unlocking_script ≡ i.unlocking_script

-- What the constructor of the input number `n` is called with.
abbrev pub arguments : WitnessType → ℕ → Input → InputArguments
arguments witness_type n i = record {
  prev_txid = i.prev_txid;
  output_n = i.output_n;
  unlocking_script = i.unlocking_script;
  witness_type =
      if is_segwit witness_type && (length i.unlocking_script == 0) then segwit else legacy;
  sequence = little_digits 4 i.sequence;
  index_n = n;
  script_type = if is_nonstandard i.script_type then some nonstandard_0001 else none;
}

-- A marked script is the byte 0 behind its length 1.
write_script_marked :
    (i : Input) (code : Bytes)
    → is_nonstandard i.script_type ≡ true
    → bytes_eq i.unlocking_script (0 ∷ []) ≡ true
    → write_script none i ≡ ok code
    → code ≡ 1 ∷ 0 ∷ []
unfolding write_script varstr
write_script_marked i code m h e =
    let same : i.unlocking_script ≡ 0 ∷ [] = bytes_eq→eq _ _ h in
    let e' : ok (1 ∷ 0 ∷ []) ≡ ok code = rw (m, same) at e in cc

write_script_prefix :
    (i : Input) (code : Bytes)
    → bytes_eq i.unlocking_script (0 ∷ []) ≡ is_nonstandard i.script_type
    → write_script none i ≡ ok code
    → (prefix : Bytes) × (int_to_varbyteint (length i.unlocking_script) ≡ ok prefix)
      × (code ≡ prefix ++ i.unlocking_script)
unfolding write_script int_to_varbyteint little_digits
write_script_prefix i code h e = elim (Bool-cases (is_nonstandard i.script_type)) [
  | inl m ↦
      let same : i.unlocking_script ≡ 0 ∷ [] = bytes_eq→eq _ _ (h ∙ m) in
      (1 ∷ [], rw same refl, write_script_marked i code m (h ∙ m) e ∙ ap (λ t. 1 ∷ t) (sym same))
  | inr m ↦
      let (script, v, w) = bind_ok (varstr i.unlocking_script) _ code (rw m at e) in
      let same : script ≡ code = cc in
      varstr_prefix i.unlocking_script code (h ∙ m) (v ∙ ap ok same)
]

-- Python tests the length and then the bytes.
single_zero : (s : Bytes) → ((length s == 1) && bytes_eq s (0 ∷ [])) ≡ bytes_eq s (0 ∷ [])
single_zero [] = refl
single_zero (b ∷ []) = ground arith
single_zero (b ∷ c ∷ s) = ground arith

parse_input-Reads :
    (witness_type : WitnessType) (n : ℕ) (i : Input) (prefix : Bytes)
    → IsWireInput i
    → int_to_varbyteint (length i.unlocking_script) ≡ ok prefix
    → Reads
        (parse_input witness_type n)
        (reverse i.prev_txid
          ++ (reverse i.output_n
              ++ (prefix ++ (i.unlocking_script ++ (little_digits 4 i.sequence ++ [])))))
        (arguments witness_type n i)
unfolding parse_input
parse_input-Reads witness_type n i prefix wire p =
    Reads-bind _ (Reads-read_bytes (length-reverse i.prev_txid ∙ wire.txid)) (
      Reads-then (Reads-require _ (ground (arith, length-reverse i.prev_txid, wire.txid))) (
        Reads-bind _ (Reads-read_bytes (length-reverse i.output_n ∙ wire.output_n)) (
          Reads-bind _ (Reads-read_count p) (
            Reads-bind _ (Reads-read_bytes refl) (
              Reads-bind _ (Reads-read_bytes (length-little_digits 4 i.sequence))
                (Reads-value fields Reads-return))))))
  where
    fields : arguments witness_type n i ≡ record {
      prev_txid = to_bytes (reverse (reverse i.prev_txid));
      output_n = reverse (reverse i.output_n);
      unlocking_script = to_bytes i.unlocking_script;
      witness_type =
          if is_segwit witness_type && (length i.unlocking_script == 0) then segwit else legacy;
      sequence = little_digits 4 i.sequence;
      index_n = n;
      script_type =
          if (length i.unlocking_script == 1) && bytes_eq i.unlocking_script (0 ∷ [])
          then some nonstandard_0001
          else none;
    }
    fields =
        rw
          (
            reverse-reverse i.prev_txid,
            reverse-reverse i.output_n,
            single_zero i.unlocking_script,
            wire.script,
            wire.plain_txid,
            wire.plain_script,
          )
          refl

-- What is written for an input is read as its arguments; the witnesses are written elsewhere.
pub write_input-Reads :
    (witness_type : WitnessType) (n : ℕ) (i : Input) (code witness : Bytes)
    → IsWireInput i
    → write_input none i ≡ ok (code, witness)
    → Reads (parse_input witness_type n) code (arguments witness_type n i)
      × (write_witness i ≡ ok witness)
unfolding write_input
write_input-Reads witness_type n i code witness wire e =
    let (w, e1, f1) = bind_ok (write_witness i) _ (code, witness) e in
    let (script, e2, f2) = bind_ok (write_script none i) _ (code, witness) f1 in
    let (sequence, e3, f3) = bind_ok (to_little 4 i.sequence) _ (code, witness) f2 in
    let (prefix, p, q) = write_script_prefix i script (wire.script) e2 in
    let same : ◌≡◌ {A = Bytes × Bytes}
        (reverse i.prev_txid ++ (reverse i.output_n ++ (script ++ sequence)), w) (code, witness) =
      cc in
    let digits = to_little_digits 4 i.sequence sequence e3 in
    (
      Reads-code
          (sym (ap (λ x. x.0) same)
            ∙ rw
                (
                  q,
                  digits,
                  append_assoc prefix i.unlocking_script (little_digits 4 i.sequence),
                  append-nil (little_digits 4 i.sequence),
                )
                refl)
          (parse_input-Reads witness_type n i prefix wire p),
      e1 ∙ ap (λ x. ok x.1) same,
    )

abbrev pub all_arguments : WitnessType → ℕ → List Input → List InputArguments
all_arguments witness_type n [] = []
all_arguments witness_type n (i ∷ is) =
    arguments witness_type n i ∷ all_arguments witness_type (n + 1) is

-- The witnesses of the inputs, in order, as `raw` writes them.
pub data Witnessed : List Input → Bytes → Type 0 where
  no_input : Witnessed [] []
  one_more :
      (i : Input) (is : List Input) (code codes : Bytes)
      → write_witness i ≡ ok code
      → Witnessed is codes
      → Witnessed (i ∷ is) (code ++ codes)

pub write_inputs-Reads :
    (witness_type : WitnessType) (n : ℕ) (is : List Input) (code witness : Bytes)
    → All IsWireInput is
    → write_inputs none is ≡ ok (code, witness)
    → Reads (parse_inputs witness_type (length is) n) code (all_arguments witness_type n is)
      × Witnessed is witness
unfolding write_inputs parse_inputs
write_inputs-Reads witness_type n [] code witness wire e =
    let same : ◌≡◌ {A = Bytes × Bytes} ([], []) (code, witness) = cc in
    (Reads-code (sym (ap (λ x. x.0) same)) Reads-return, rw (sym (ap (λ x. x.1) same)) no_input)
write_inputs-Reads witness_type n (i ∷ is) code witness wire e =
    let ((c, w), e1, f1) = bind_ok (write_input none i) _ (code, witness) e in
    let ((cs, ws), e2, f2) = bind_ok (write_inputs none is) _ (code, witness) f1 in
    let same : ◌≡◌ {A = Bytes × Bytes} (c ++ cs, w ++ ws) (code, witness) = cc in
    let (first, written) = write_input-Reads witness_type n i c w wire.0 e1 in
    let (others, rest) = write_inputs-Reads witness_type (n + 1) is cs ws wire.1 e2 in
    (
      Reads-code (sym (ap (λ x. x.0) same) ∙ ap (λ x. c ++ x) (sym (append-nil cs)))
          (Reads-bind _ first (Reads-bind _ others Reads-return)),
      rw (sym (ap (λ x. x.1) same)) (one_more i is w ws written rest),
    )
