-- ===== src/Transaction/RoundTrip/Whole.antt =====
-- `Transaction.parse_bytesio` of bitcoinlib/transactions.py on what `Transaction.raw` writes.
use bitcoinlib.Common.{
  ℕ, suc, ◌<◌, ◌^◌, ◌≡◌, refl, sym, ap, ◌∙◌, List, [], ◌∷◌, ◌++◌, reverse, reverse-reverse, map,
  Bool, true, false, not, Option, none, some, ok, if◌then◌else◌, length, length-reverse, bind_ok,
  ok_value, arith, All,
}
use bitcoinlib.Encoding.Bytes.{little_digits, to_little, from_big}
use bitcoinlib.Encoding.Bytes.Laws.{length-little_digits, from_big-little_digits}
use bitcoinlib.Encoding.VarInt.{int_to_varbyteint}
use bitcoinlib.Transaction.{
  Bytes, Output, Transaction, WitnessType, legacy, segwit, p2sh_segwit, is_segwit,
}
use bitcoinlib.Transaction.Raw.{write_inputs, write_outputs, write_hash_type, raw_bytes, is_empty}
use bitcoinlib.Transaction.Parse.{
  Parsed, flagged_type, any_null, total_value, parse_end, parse_rest, parse_transaction,
}
use bitcoinlib.Transaction.Reader.{
  Reader, Reads, Reads-return, Reads-require, Reads-bind, Reads-then, Reads-read_bytes,
  Reads-read_count, Reads-code, Reads-value, return,
}
use bitcoinlib.Transaction.RoundTrip.Flag.{parse_flag-segwit, parse_flag-put_back, count_head}
use bitcoinlib.Transaction.RoundTrip.Inputs.{
  IsWireInput, to_little_digits, write_inputs-Reads, Witnessed,
}
use bitcoinlib.Transaction.RoundTrip.Inputs
use bitcoinlib.Transaction.RoundTrip.Outputs.{IsWireOutput, write_outputs-Reads}
use bitcoinlib.Transaction.RoundTrip.Outputs
use bitcoinlib.Transaction.RoundTrip.Witnesses.{shown_witnesses, Witnessed-Reads}

-- A transaction that the wire can show: at least one input and one output, all of them in the form
-- of the wire.
pub record IsWire (t : Transaction) : Type 0 where
  pub version : length t.version ≡ 4
  pub some_input : 0 < length t.inputs
  pub some_output : 0 < length t.outputs
  pub inputs : All IsWireInput t.inputs
  pub outputs : All IsWireOutput t.outputs

abbrev pub flag_of : WitnessType → Option Bytes
flag_of witness_type = if is_segwit witness_type then some (1 ∷ []) else none

-- What `Transaction(…)` is called with: the transaction as it was written.
abbrev pub parsed_of : Option Bytes → Transaction → Parsed
parsed_of flag t = record {
  version = t.version;
  flag = flag;
  witness_type = flagged_type flag;
  inputs = Inputs.all_arguments (flagged_type flag) 0 t.inputs;
  outputs = Outputs.all_arguments 0 t.outputs;
  witnesses = if is_segwit (flagged_type flag) then map shown_witnesses t.inputs else [];
  locktime = t.locktime;
  coinbase = any_null (Inputs.all_arguments (flagged_type flag) 0 t.inputs);
  output_total = total_value (Outputs.all_arguments 0 t.outputs);
}

some_outputs :
    (n : ℕ) (os : List Output) → 0 < length os → not (is_empty (Outputs.all_arguments n os)) ≡ true
some_outputs n [] h = absurd (omega arith)
some_outputs n (o ∷ os) h = refl

choose-Reads :
    {A : Type 0} {m : Reader (List A)} {code : Bytes} {a : List A} (b : Bool)
    → Reads m code a
    → Reads (if b then m else return []) (if b then code else []) (if b then a else [])
choose-Reads true r = r
choose-Reads false r = Reads-return

parse_rest-Reads :
    (strict : Bool) (flag : Option Bytes) (t : Transaction)
    (n_inputs inputs witnesses n_outputs outputs : Bytes)
    → IsWire t
    → int_to_varbyteint (length t.inputs) ≡ ok n_inputs
    → write_inputs none t.inputs ≡ ok (inputs, witnesses)
    → int_to_varbyteint (length t.outputs) ≡ ok n_outputs
    → write_outputs t.outputs ≡ ok outputs
    → t.locktime < 256 ^ 4
    → Reads
        (parse_rest strict (reverse t.version) flag)
        (n_inputs
          ++ (inputs
              ++ (n_outputs
                  ++ (outputs
                      ++ ((if is_segwit (flagged_type flag) then witnesses else [])
                          ++ (little_digits 4 t.locktime ++ []))))))
        (parsed_of flag t)
unfolding parse_rest parse_end
parse_rest-Reads strict flag t n_inputs inputs witnesses n_outputs outputs wire e1 e2 e3 e4 small =
    let (read_inputs, witnessed) =
      write_inputs-Reads (flagged_type flag) 0 t.inputs inputs witnesses (wire.inputs) e2 in
    let four = length-little_digits 4 t.locktime in
    Reads-bind _ (Reads-read_count e1) (
      Reads-bind _ read_inputs (
        Reads-bind _ (Reads-read_count e3) (
          Reads-bind _ (write_outputs-Reads 0 t.outputs outputs (wire.outputs) e4) (
            Reads-then (Reads-require _ (some_outputs 0 t.outputs wire.some_output)) (
              Reads-bind _
                (choose-Reads (is_segwit (flagged_type flag))
                  (Witnessed-Reads (flagged_type flag) 0 t.inputs witnesses witnessed))
                (Reads-bind _ (Reads-read_bytes four) (
                  Reads-then (Reads-require _ (rw four refl)) (Reads-value same Reads-return))))))))
  where
    same : parsed_of flag t ≡ record (parsed_of flag t) {
      version = reverse (reverse t.version);
      locktime = from_big (reverse (little_digits 4 t.locktime));
    }
    same = rw (reverse-reverse t.version, from_big-little_digits 4 t.locktime small) refl

-- The parts of the bytes of a transaction.
pub record Written (witness_type : WitnessType) (t : Transaction) (code : Bytes) : Type 0 where
  pub n_inputs : Bytes
  pub inputs : Bytes
  pub witnesses : Bytes
  pub n_outputs : Bytes
  pub outputs : Bytes
  pub counted_inputs : int_to_varbyteint (length t.inputs) ≡ ok n_inputs
  pub wrote_inputs : write_inputs none t.inputs ≡ ok (inputs, witnesses)
  pub counted_outputs : int_to_varbyteint (length t.outputs) ≡ ok n_outputs
  pub wrote_outputs : write_outputs t.outputs ≡ ok outputs
  pub locktime : t.locktime < 256 ^ 4
  pub shape :
      code
      ≡ reverse t.version
        ++ ((if is_segwit witness_type then 0 ∷ 1 ∷ [] else [])
            ++ (n_inputs
                ++ (inputs
                    ++ (n_outputs
                        ++ (outputs
                            ++ ((if is_segwit witness_type then witnesses else [])
                                ++ (little_digits 4 t.locktime ++ [])))))))

pub raw_bytes-Written :
    (hash_type : ℕ) (witness_type : WitnessType) (t : Transaction) (code : Bytes)
    → raw_bytes none hash_type witness_type t ≡ ok code
    → Written witness_type t code
unfolding raw_bytes write_hash_type
raw_bytes-Written hash_type witness_type t code e =
    let (n_inputs, e1, f1) = bind_ok (int_to_varbyteint (length t.inputs)) _ code e in
    let ((inputs, witnesses), e2, f2) = bind_ok (write_inputs none t.inputs) _ code f1 in
    let (n_outputs, e3, f3) = bind_ok (int_to_varbyteint (length t.outputs)) _ code f2 in
    let (outputs, e4, f4) = bind_ok (write_outputs t.outputs) _ code f3 in
    let (locktime, e5, f5) = bind_ok (to_little 4 t.locktime) _ code f4 in
    record {
      n_inputs = n_inputs;
      inputs = inputs;
      witnesses = witnesses;
      n_outputs = n_outputs;
      outputs = outputs;
      counted_inputs = e1;
      wrote_inputs = e2;
      counted_outputs = e3;
      wrote_outputs = e4;
      locktime = ground arith;
      shape =
          sym (ok_value f5)
          ∙ ap (parts n_inputs inputs witnesses n_outputs outputs)
              (to_little_digits 4 t.locktime locktime e5);
    }
  where
    parts : Bytes → Bytes → Bytes → Bytes → Bytes → Bytes → Bytes
    parts n_inputs inputs witnesses n_outputs outputs locktime =
        reverse t.version
        ++ ((if is_segwit witness_type then 0 ∷ 1 ∷ [] else [])
            ++ (n_inputs
                ++ (inputs
                    ++ (n_outputs
                        ++ (outputs
                            ++ ((if is_segwit witness_type then witnesses else [])
                                ++ (locktime ++ [])))))))

plain-Reads :
    (strict : Bool) (t : Transaction) (n_inputs tail : Bytes) (b : ℕ) (bs : Bytes)
    → length t.version ≡ 4
    → n_inputs ≡ suc b ∷ bs
    → Reads (parse_rest strict (reverse t.version) none) (n_inputs ++ tail) (parsed_of none t)
    → Reads (parse_transaction strict) (reverse t.version ++ (n_inputs ++ tail)) (parsed_of none t)
unfolding parse_transaction
plain-Reads strict t n_inputs tail b bs four e r =
    Reads-bind _ (Reads-read_bytes (length-reverse t.version ∙ four)) (
      Reads-code (ap (λ x. x ++ tail) e)
        (parse_flag-put_back _ b (bs ++ tail) _ (Reads-code (ap (λ x. x ++ tail) (sym e)) r)))

body-Reads :
    (strict : Bool) (witness_type : WitnessType) (flag : Option Bytes) (t : Transaction)
    (code : Bytes)
    → IsWire t
    → (w : Written witness_type t code)
    → Reads
        (parse_rest strict (reverse t.version) flag)
        (w.n_inputs
          ++ (w.inputs
              ++ (w.n_outputs
                  ++ (w.outputs
                      ++ ((if is_segwit (flagged_type flag) then w.witnesses else [])
                          ++ (little_digits 4 t.locktime ++ []))))))
        (parsed_of flag t)
body-Reads strict witness_type flag t code wire w =
    parse_rest-Reads strict flag t w.n_inputs w.inputs w.witnesses w.n_outputs w.outputs wire
      w.counted_inputs w.wrote_inputs w.counted_outputs w.wrote_outputs w.locktime

-- The flag is read back, and the byte that is not a flag is left for the count of the inputs.
pub raw_bytes-Reads :
    (strict : Bool) (witness_type : WitnessType) (t : Transaction) (code : Bytes)
    → IsWire t
    → Written witness_type t code
    → Reads (parse_transaction strict) code (parsed_of (flag_of witness_type) t)
unfolding parse_transaction
raw_bytes-Reads strict segwit t code wire w = Reads-code w.shape (
    Reads-bind _ (Reads-read_bytes (length-reverse t.version ∙ wire.version))
      (Reads-bind _ parse_flag-segwit (body-Reads strict segwit (some (1 ∷ [])) t code wire w)))
raw_bytes-Reads strict legacy t code wire w =
    let (b, bs, e) = count_head (length t.inputs) w.n_inputs wire.some_input w.counted_inputs in
    Reads-code w.shape (
      plain-Reads strict t w.n_inputs _ b bs wire.version e
        (body-Reads strict legacy none t code wire w))
raw_bytes-Reads strict p2sh_segwit t code wire w =
    let (b, bs, e) = count_head (length t.inputs) w.n_inputs wire.some_input w.counted_inputs in
    Reads-code w.shape (
      plain-Reads strict t w.n_inputs _ b bs wire.version e
        (body-Reads strict p2sh_segwit none t code wire w))
