-- ===== src/Transaction/Advance.antt =====
-- `Transaction.parse_bytesio` of bitcoinlib/transactions.py goes forward in the stream, on any bytes.
use bitcoinlib.Common.{
  ℕ, zero, suc, ◌+◌, ◌-◌, ◌≤◌, ◌<◌, ◌≡◌, ◌≢◌, sym, ap, ◌∙◌, List, [], ◌∷◌, Bool, true, false,
  Option, some, ok, ok_value, bytes_eq, ◌==◌, if◌then◌else◌, length, take, drop, length-drop, arith,
}
use bitcoinlib.Encoding.Stream.{Stream, remaining, seek}
use bitcoinlib.Transaction.{Bytes, WitnessType, is_segwit}
use bitcoinlib.Transaction.Parse.{
  InputArguments, OutputArguments, Parsed, flagged_type, parse_input, parse_inputs, parse_output,
  parse_outputs, parse_witness, parse_items, parse_counted, parse_witnesses, put_back, parse_flag,
  parse_end, parse_rest, parse_transaction, parsed_bytes, parse_bytesio,
}
use bitcoinlib.Transaction.Reader.{Reader, ◌>>=◌, ◌>>◌, return, require, read_bytes, read_count}
use bitcoinlib.Transaction.Moves.{
  Forward, Forward-trans, Moves, bind_reads, Moves-bind, Moves-then, Moves-return, Moves-require,
  read_bytes-position, Moves-read_bytes, read_count-position, Moves-read_count,
}

parse_input-Moves : (witness_type : WitnessType) (n : ℕ) → Moves (parse_input witness_type n)
unfolding parse_input
parse_input-Moves witness_type n = Moves-bind _ _ (Moves-read_bytes 32) (λ prev.
    Moves-then _ _ (Moves-require _ _) (
      Moves-bind _ _ (Moves-read_bytes 4) (λ output_n. Moves-bind _ _ Moves-read_count (λ size.
        Moves-bind _ _ (Moves-read_bytes size)
          (λ script. Moves-bind _ _ (Moves-read_bytes 4) (λ sequence. Moves-return _))))))

parse_inputs-Moves :
    (witness_type : WitnessType) (left n : ℕ) → Moves (parse_inputs witness_type left n)
unfolding parse_inputs
parse_inputs-Moves witness_type zero n = Moves-return []
parse_inputs-Moves witness_type (suc left) n =
    Moves-bind _ _ (parse_input-Moves witness_type n)
      (λ i. Moves-bind _ _ (parse_inputs-Moves witness_type left (n + 1)) (λ is. Moves-return _))

parse_output-Moves : (n : ℕ) → Moves (parse_output n)
unfolding parse_output
parse_output-Moves n = Moves-bind _ _ (Moves-read_bytes 8) (λ value.
    Moves-bind _ _ Moves-read_count
      (λ size. Moves-bind _ _ (Moves-read_bytes size) (λ script. Moves-return _)))

parse_outputs-Moves : (left n : ℕ) → Moves (parse_outputs left n)
unfolding parse_outputs
parse_outputs-Moves zero n = Moves-return []
parse_outputs-Moves (suc left) n =
    Moves-bind _ _ (parse_output-Moves n)
      (λ o. Moves-bind _ _ (parse_outputs-Moves left (n + 1)) (λ os. Moves-return _))

choice-Moves :
    {A : Type 0} (b : Bool) (x y : Reader A) → Moves x → Moves y → Moves (if b then x else y)
choice-Moves true x y h k = h
choice-Moves false x y h k = k

parse_items-Moves : (left : ℕ) → Moves (parse_items left)
unfolding parse_items parse_witness
parse_items-Moves zero = Moves-return []
parse_items-Moves (suc left) =
    Moves-bind _ _
      (Moves-bind _ _ Moves-read_count
        (λ size. choice-Moves (size == 0) _ _ (Moves-return _) (Moves-read_bytes size)))
      (λ w. Moves-bind _ _ (parse_items-Moves left) (λ ws. Moves-return _))

parse_witnesses-Moves : (is : List InputArguments) → Moves (parse_witnesses is)
unfolding parse_witnesses parse_counted
parse_witnesses-Moves [] = Moves-return []
parse_witnesses-Moves (i ∷ is) =
    Moves-bind _ _ (Moves-bind _ _ Moves-read_count parse_items-Moves)
      (λ ws. Moves-bind _ _ (parse_witnesses-Moves is) (λ wss. Moves-return _))

parse_end-Moves :
    (strict : Bool) (version : Bytes) (flag : Option Bytes) (inputs : List InputArguments)
    (outputs : List OutputArguments)
    → Moves (parse_end strict version flag inputs outputs)
unfolding parse_end
parse_end-Moves strict version flag inputs outputs = Moves-then _ _ (Moves-require _ _) (
    Moves-bind _ _
      (choice-Moves (is_segwit (flagged_type flag)) _ _ (parse_witnesses-Moves inputs)
        (Moves-return []))
      (λ witnesses.
        Moves-bind _ _ (Moves-read_bytes 4)
          (λ locktime. Moves-then _ _ (Moves-require _ _) (Moves-return _))))

-- Without an output the parser raises.
no_outputs :
    (strict : Bool) (version : Bytes) (flag : Option Bytes) (inputs : List InputArguments)
    (s u : Stream) (p : Parsed)
    → (parse_outputs 0 0 >>= parse_end strict version flag inputs) s ≢ ok (p, u)
unfolding parse_outputs parse_end ◌>>=◌ ◌>>◌ require return
no_outputs strict version flag inputs s u p h = cc

-- So there is a count of outputs that is not 0, and it was read.
parse_rest_progress :
    (strict : Bool) (version : Bytes) (flag : Option Bytes) (s u : Stream) (p : Parsed)
    → parse_rest strict version flag s ≡ ok (p, u)
    → Forward s u × (s.position < u.position)
unfolding parse_rest
parse_rest_progress strict version flag s u p h =
    let (n_inputs, t1, e1, h1) = bind_reads read_count _ p s u h in
    let (inputs, t2, e2, h2) =
      bind_reads (parse_inputs (flagged_type flag) n_inputs 0) _ p t1 u h1 in
    let (n_outputs, t3, e3, h3) = bind_reads read_count _ p t2 u h2 in
    let f1 = (read_count-position s t1 n_inputs e1).0 in
    let f2 = (parse_inputs-Moves (flagged_type flag) n_inputs 0).forward t1 t2 inputs e2 in
    let (f3, counted) = read_count-position t2 t3 n_outputs e3 in
    let f4 =
      (Moves-bind (parse_outputs n_outputs 0) (parse_end strict version flag inputs)
          (parse_outputs-Moves n_outputs 0) (parse_end-Moves strict version flag inputs)).forward
        t3 u p h3 in
    let some_outputs : 0 < n_outputs = nonzero inputs t3 n_outputs h3 in
    (
      Forward-trans f1 (Forward-trans f2 (Forward-trans f3 f4)),
      omega (arith, f1.position, f2.position, counted some_outputs, f4.position),
    )
  where
    nonzero :
        (inputs : List InputArguments) (t : Stream) (n : ℕ)
        → (parse_outputs n 0 >>= parse_end strict version flag inputs) t ≡ ok (p, u)
        → 0 < n
    nonzero inputs t zero e = absurd (no_outputs strict version flag inputs t u p e)
    nonzero inputs t (suc n) e = omega arith

-- At most one step back: the byte that is put back.
parse_flag-back :
    (s u : Stream) (flag : Option Bytes)
    → parse_flag s ≡ ok (flag, u)
    → (u.buffer ≡ s.buffer) × (s.position ≤ u.position + 1)
unfolding parse_flag
parse_flag-back s u flag h =
    let (marker, t, e, h') = bind_reads (read_bytes 1) _ flag s u h in
    let f = (Moves-read_bytes 1).forward s t marker e in
    let (same, back) = either (bytes_eq marker (0 ∷ [])) t h' in
    (same ∙ f.buffer, omega (arith, f.position, back))
  where
    either :
        (b : Bool) (t : Stream)
        → (if b then (read_bytes 1 >>= λ x. return (some x)) else put_back) t ≡ ok (flag, u)
        → (u.buffer ≡ t.buffer) × (t.position ≤ u.position + 1)
    either true t e =
        let g =
          (Moves-bind (read_bytes 1) (λ x. return (some x)) (Moves-read_bytes 1)
              (λ x. Moves-return (some x))).forward
            t u flag e in
        (g.buffer, omega (arith, g.position))
    either false t e =
        unfold put_back in
        (let same : seek (t.position - 1) t ≡ u = ap (λ x. x.1) (ok_value e) in
          (
            sym (ap (λ (x : Stream). x.buffer) same),
            omega (arith, ap (λ (x : Stream). x.position) same),
          ))

take_some : (n : ℕ) (xs : Bytes) → 0 < length xs → 0 < length (take (suc n) xs)
take_some n [] h = h
take_some n (x ∷ xs) h = omega arith

left_to_read : (s : Stream) → s.position < length s.buffer → 0 < length (remaining s)
left_to_read s h = omega (arith, length-drop s.position s.buffer)

parse_transaction_progress :
    (strict : Bool) (s u : Stream) (p : Parsed)
    → s.position < length s.buffer
    → parse_transaction strict s ≡ ok (p, u)
    → (u.buffer ≡ s.buffer) × (s.position < u.position)
unfolding parse_transaction
parse_transaction_progress strict s u p open_ h =
    let (version, t1, e1, h1) = bind_reads (read_bytes 4) _ p s u h in
    let (flag, t2, e2, h2) = bind_reads parse_flag _ p t1 u h1 in
    let (xs, b1, p1) = read_bytes-position 4 s t1 version e1 in
    let (b2, p2) = parse_flag-back t1 t2 flag e2 in
    let (f, far) = parse_rest_progress strict version flag t2 u p h2 in
    let some_version : 0 < length version =
      rw xs (take_some 3 (remaining s) (left_to_read s open_)) in
    (f.buffer ∙ b2 ∙ b1, omega (arith, p1, p2, far, some_version))

module _ (sha256 : Bytes → Bytes) where
  -- The bytes that are read again end behind the place where they start.
  pub parse_bytesio_progress :
      (s u : Stream) (p : Parsed × Bytes × Option Bytes)
      → s.position < length s.buffer
      → parse_bytesio sha256 false [] s ≡ ok (p, u)
      → (u.buffer ≡ s.buffer) × (s.position < u.position)
  unfolding parse_bytesio parsed_bytes
  parse_bytesio_progress s u p open_ h =
      let (parsed, t, e, h') = bind_reads (parse_transaction false) _ p s u h in
      let (b, far) = parse_transaction_progress false s t parsed open_ e in
      let same = ap (λ x. x.1) (ok_value h') in
      let again = drop s.position t.buffer in
      let size : t.position - s.position ≡ suc (t.position - s.position - 1) = omega arith in
      let some_bytes : 0 < length (take (t.position - s.position) again) = rw size (
        take_some (t.position - s.position - 1) again
          (omega (arith, length-drop s.position t.buffer, ap length b))) in
      (
        sym (ap (λ (x : Stream). x.buffer) same) ∙ b,
        omega (arith, ap (λ (x : Stream). x.position) same, some_bytes),
      )
