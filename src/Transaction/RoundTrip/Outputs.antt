-- ===== src/Transaction/RoundTrip/Outputs.antt =====
-- What `raw` of bitcoinlib/transactions.py writes for an output is read by `Output.parse`.
use bitcoinlib.Common.{
  ℕ, ◌+◌, ◌<◌, ◌≡◌, refl, sym, ap, ◌∙◌, List, [], ◌∷◌, ◌++◌, append-nil, false, ok, length,
  bytes_eq, bind_ok, arith, All, ◌^◌,
}
use bitcoinlib.Common.Integer.{ℤ, pos, negsuc, pos_part}
use bitcoinlib.Encoding.Bytes.{little_digits}
use bitcoinlib.Encoding.Bytes.Laws.{length-little_digits, from_big-little_digits}
use bitcoinlib.Encoding.Hex.{to_bytes}
use bitcoinlib.Encoding.VarInt.{varstr}
use bitcoinlib.Transaction.{Bytes, Output}
use bitcoinlib.Transaction.Raw.{write_value, write_output, write_outputs}
use bitcoinlib.Transaction.Parse.{OutputArguments, parse_output, parse_outputs}
use bitcoinlib.Transaction.Reader.{
  Reads, Reads-return, Reads-bind, Reads-read_bytes, Reads-read_count, Reads-code, Reads-value,
}
use bitcoinlib.Transaction.RoundTrip.Inputs.{varstr_prefix, to_little_digits}

-- A script that `varstr` gives its length, any but the single byte 0, and that is no text of
-- hexadecimal digits.
abbrev pub IsWireOutput : Output → Type 0
IsWireOutput o =
    (bytes_eq o.lock_script (0 ∷ []) ≡ false) × (to_bytes o.lock_script ≡ o.lock_script)

-- What the constructor of the output number `n` is called with.
abbrev pub arguments : ℕ → Output → OutputArguments
arguments n o = record { value = pos_part o.value; lock_script = o.lock_script; output_n = n }

abbrev pub all_arguments : ℕ → List Output → List OutputArguments
all_arguments n [] = []
all_arguments n (o ∷ os) = arguments n o ∷ all_arguments (n + 1) os

-- A value that is written is a number of 8 bytes.
write_value_digits :
    (v : ℤ) (code : Bytes)
    → write_value v ≡ ok code
    → (code ≡ little_digits 8 (pos_part v)) × (pos_part v < 256 ^ 8)
unfolding write_value
write_value_digits (negsuc n) code e = cc
write_value_digits (pos n) code e = (to_little_digits 8 n code e, ground arith)

write_output-Reads :
    (n : ℕ) (o : Output) (code : Bytes)
    → IsWireOutput o
    → write_output o ≡ ok code
    → Reads (parse_output n) code (arguments n o)
unfolding write_output parse_output
write_output-Reads n o code wire e =
    let (value, e1, f1) = bind_ok (write_value o.value) _ code e in
    let (script, e2, f2) = bind_ok (varstr o.lock_script) _ code f1 in
    let (prefix, p, q) = varstr_prefix o.lock_script script wire.0 e2 in
    let (digits, small) = write_value_digits o.value value e1 in
    let same : value ++ script ≡ code = cc in
    let shape : code ≡ little_digits 8 (pos_part o.value) ++ (prefix ++ (o.lock_script ++ [])) =
      sym same ∙ rw (digits, q, append-nil o.lock_script) refl in
    Reads-code shape (
      Reads-bind _ (Reads-read_bytes (length-little_digits 8 (pos_part o.value))) (
        Reads-bind _ (Reads-read_count p) (
          Reads-bind _ (Reads-read_bytes refl) (
            Reads-value (rw (wire.1, from_big-little_digits 8 (pos_part o.value) small) refl)
              Reads-return))))

pub write_outputs-Reads :
    (n : ℕ) (os : List Output) (code : Bytes)
    → All IsWireOutput os
    → write_outputs os ≡ ok code
    → Reads (parse_outputs (length os) n) code (all_arguments n os)
unfolding write_outputs parse_outputs
write_outputs-Reads n [] code wire e =
    let same : [] ≡ code = cc in Reads-code (sym same) Reads-return
write_outputs-Reads n (o ∷ os) code wire e =
    let (c, e1, f1) = bind_ok (write_output o) _ code e in
    let (cs, e2, f2) = bind_ok (write_outputs os) _ code f1 in
    let same : c ++ cs ≡ code = cc in
    Reads-code (sym same ∙ ap (λ x. c ++ x) (sym (append-nil cs))) (
      Reads-bind _ (write_output-Reads n o c wire.0 e1)
        (Reads-bind _ (write_outputs-Reads (n + 1) os cs wire.1 e2) Reads-return))
