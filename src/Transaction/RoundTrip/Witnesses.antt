-- ===== src/Transaction/RoundTrip/Witnesses.antt =====
-- The witnesses that `raw` of bitcoinlib/transactions.py writes are read by `parse_bytesio`.
use bitcoinlib.Common.{
  ℕ, suc, ◌+◌, ◌≡◌, refl, sym, ap, ◌∙◌, List, [], ◌∷◌, ◌++◌, append-nil, map, inl, inr, not, ◌&&◌,
  ok, ◌==◌, if◌then◌else◌, length, bytes_eq, bytes_eq→eq, Bool-cases, bind_ok, arith,
}
use bitcoinlib.Encoding.Bytes.{little_digits}
use bitcoinlib.Encoding.VarInt.{int_to_varbyteint, varstr}
use bitcoinlib.Transaction.{Bytes, Input, WitnessType, is_legacy}
use bitcoinlib.Transaction.Weight.{join_witnesses, counted_witnesses}
use bitcoinlib.Transaction.Raw.{is_empty, write_witness}
use bitcoinlib.Transaction.Parse.{parse_witness, parse_items, parse_counted, parse_witnesses}
use bitcoinlib.Transaction.Reader.{
  Reads, Reads-return, Reads-bind, Reads-read_bytes, Reads-read_count, Reads-code, Reads-value,
  Reads-reader,
}
use bitcoinlib.Transaction.RoundTrip.Inputs.{
  varstr_prefix, Witnessed, no_input, one_more, all_arguments,
}

-- An empty witness is read as the byte 0.
abbrev pub read_back : Bytes → Bytes
read_back [] = 0 ∷ []
read_back (b ∷ bs) = b ∷ bs

-- The witnesses of an input that are written, as they are read.
abbrev pub shown_witnesses : Input → List Bytes
shown_witnesses i =
    if not (is_empty i.witnesses) && not (is_legacy i.witness_type)
    then map read_back i.witnesses
    else []

zero_count : int_to_varbyteint 0 ≡ ok (0 ∷ [])
unfolding int_to_varbyteint little_digits
zero_count = refl

varstr_zero : (code : Bytes) → varstr (0 ∷ []) ≡ ok code → code ≡ 0 ∷ []
unfolding varstr
varstr_zero code e = cc

parse_witness-zero : Reads parse_witness (0 ∷ []) (0 ∷ [])
unfolding parse_witness
parse_witness-zero = Reads-bind _ (Reads-read_count zero_count) Reads-return

not_zero {ℓ} : {A : Type ℓ} (n : ℕ) (a b : A) → (if suc n == 0 then a else b) ≡ b
not_zero n a b = ground arith

varstr-Reads : (w code : Bytes) → varstr w ≡ ok code → Reads parse_witness code (read_back w)
unfolding parse_witness
varstr-Reads [] code e =
    let (prefix, p, q) = varstr_prefix [] code refl e in
    let same : prefix ≡ 0 ∷ [] = cc (p, zero_count) in
    Reads-code (q ∙ append-nil prefix ∙ same) parse_witness-zero
varstr-Reads (b ∷ bs) code e = elim (Bool-cases (bytes_eq (b ∷ bs) (0 ∷ []))) [
  | inl h ↦
      let same : b ∷ bs ≡ 0 ∷ [] = bytes_eq→eq _ _ h in
      Reads-code (varstr_zero code (rw same at e)) (Reads-value same parse_witness-zero)
  | inr h ↦
      let (prefix, p, q) = varstr_prefix (b ∷ bs) code h e in
      Reads-code q (
        Reads-bind _ (Reads-read_count p)
          (Reads-reader (not_zero (length bs) _ _) (Reads-read_bytes refl)))
]

join_witnesses-Reads :
    (ws : List Bytes) (code : Bytes)
    → join_witnesses ws ≡ ok code
    → Reads (parse_items (length ws)) code (map read_back ws)
unfolding join_witnesses parse_items
join_witnesses-Reads [] code e = let same : [] ≡ code = cc in Reads-code (sym same) Reads-return
join_witnesses-Reads (w ∷ ws) code e =
    let (c, e1, f1) = bind_ok (varstr w) _ code e in
    let (cs, e2, f2) = bind_ok (join_witnesses ws) _ code f1 in
    let same : c ++ cs ≡ code = cc in
    Reads-code (sym same ∙ ap (λ x. c ++ x) (sym (append-nil cs))) (
      Reads-bind _ (varstr-Reads w c e1)
        (Reads-bind _ (join_witnesses-Reads ws cs e2) Reads-return))

counted_witnesses-Reads :
    (ws : List Bytes) (code : Bytes)
    → counted_witnesses ws ≡ ok code
    → Reads parse_counted code (map read_back ws)
unfolding counted_witnesses parse_counted
counted_witnesses-Reads ws code e =
    let (count, e1, f1) = bind_ok (int_to_varbyteint (length ws)) _ code e in
    let (witnesses, e2, f2) = bind_ok (join_witnesses ws) _ code f1 in
    let same : count ++ witnesses ≡ code = cc in
    Reads-code (sym same)
      (Reads-bind _ (Reads-read_count e1) (join_witnesses-Reads ws witnesses e2))

no_items : Reads parse_counted (0 ∷ []) []
unfolding parse_items parse_counted
no_items = Reads-bind _ (Reads-read_count zero_count) Reads-return

write_witness-Reads :
    (i : Input) (code : Bytes)
    → write_witness i ≡ ok code
    → Reads parse_counted code (shown_witnesses i)
unfolding write_witness
write_witness-Reads i code e =
    elim (Bool-cases (not (is_empty i.witnesses) && not (is_legacy i.witness_type))) [
      | inl h ↦ Reads-value (rw h refl) (counted_witnesses-Reads i.witnesses code (rw h at e))
      | inr h ↦
          let e' : ok (0 ∷ []) ≡ ok code = rw h at e in
          let same : 0 ∷ [] ≡ code = cc in Reads-code (sym same) (Reads-value (rw h refl) no_items)
    ]

-- Any list of inputs that was read counts the rounds.
pub Witnessed-Reads :
    (witness_type : WitnessType) (n : ℕ) (is : List Input) (code : Bytes)
    → Witnessed is code
    → Reads (parse_witnesses (all_arguments witness_type n is)) code (map shown_witnesses is)
unfolding parse_witnesses
Witnessed-Reads witness_type n [] code no_input = Reads-return
Witnessed-Reads witness_type n (i ∷ is) code (one_more j js c cs w rest) =
    Reads-code (ap (λ x. c ++ x) (sym (append-nil cs))) (
      Reads-bind _ (write_witness-Reads i c w)
        (Reads-bind _ (Witnessed-Reads witness_type (n + 1) is cs rest) Reads-return))
