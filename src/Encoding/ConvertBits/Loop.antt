-- ===== src/Encoding/ConvertBits/Loop.antt =====
-- What the loop of `convertbits` of bitcoinlib/encoding.py keeps: the digits written so far and
-- the bits not yet written are the number of the digits read.
use bitcoinlib.Common.{
  ℕ, zero, suc, ◌+◌, ◌-◌, ◌*◌, ◌/◌, ◌%◌, ◌^◌, ◌≤◌, ◌<◌, ◌≡◌, refl, sym, ap, ◌∙◌, inl, inr, List, [],
  ◌∷◌, ◌++◌, true, false, some, All-append, arith, ltb, ◌==◌, Bool-cases, bit_and, bit_or,
}
use bitcoinlib.Common.Bits.{bit_and_mask, bit_or_fields}
use bitcoinlib.Common.Powers.{pow-add, two-pow-pos}
use bitcoinlib.Encoding.ConvertBits.{Converter, masked, write_out, read_in, read_all}
use bitcoinlib.Encoding.ConvertBits.Fields.{mod_fields, mod_low, shift_in}
use bitcoinlib.Encoding.ConvertBits.Digits.{
  AreDigits, from_digits, total_bits, from_digits-append, total_bits-append,
}
use native.Mathlib.Nat.{add-mul, mul_assoc, mul_comm, mod-lt, div-eq_of_lt}

-- `total` bits were read, and they are the number `e`.
pub record IsState (t total e : ℕ) (c : Converter) : Type 0 where
  pub digits : AreDigits t (c.ret)
  pub count : total_bits t (c.ret) + c.bits ≡ total
  pub value : from_digits t 0 (c.ret) * 2 ^ c.bits + c.acc % 2 ^ c.bits ≡ e

module _ (t : ℕ) (positive : 0 < t) where
  write_out-stop :
      (fuel acc bits : ℕ) (ret : List ℕ)
      → ltb bits t ≡ true
      → write_out (suc fuel) t acc bits ret ≡ record { acc = acc; bits = bits; ret = ret }
  unfolding write_out
  write_out-stop fuel acc bits ret e = rw e refl

  write_out-next :
      (fuel acc bits : ℕ) (ret : List ℕ)
      → ltb bits t ≡ false
      → write_out (suc fuel) t acc bits ret
        ≡ write_out fuel t acc (bits - t) (ret ++ (masked t (acc / 2 ^ (bits - t)) ∷ []))
  unfolding write_out
  write_out-next fuel acc bits ret e = rw e refl

  -- A digit moves from the accumulator to the result.
  write_digit :
      (acc left total e : ℕ) (ret : List ℕ)
      → IsState t total e (record { acc = acc; bits = left + t; ret = ret })
      → IsState t total e
          (record { acc = acc; bits = left; ret = ret ++ (masked t (acc / 2 ^ left) ∷ []) })
  write_digit acc left total e ret p =
      let m = masked t (acc / 2 ^ left) in
      let d : m ≡ acc / 2 ^ left % 2 ^ t = bit_and_mask t (acc / 2 ^ left) in
      let n = from_digits t 0 ret in
      record {
        digits =
            All-append (λ d. d < 2 ^ t) ret (m ∷ []) p.digits
              (rw d (mod-lt (acc / 2 ^ left) (two-pow-pos t)), tt);
        count = omega (arith, p.count, total_bits-append t m ret);
        value =
            rw (from_digits-append t 0 m ret, d)
              (omega (
                arith,
                p.value,
                mod_fields acc left t,
                add-mul (n * 2 ^ t) (acc / 2 ^ left % 2 ^ t) (2 ^ left),
                mul_assoc n (2 ^ t) (2 ^ left),
                ap (λ (x : ℕ). n * x) (mul_comm (2 ^ t) (2 ^ left) ∙ sym (pow-add 2 left t)),
              ));
      }

  write_out-IsState :
      (fuel acc bits total e : ℕ) (ret : List ℕ)
      → bits ≤ fuel
      → IsState t total e (record { acc = acc; bits = bits; ret = ret })
      → IsState t total e (write_out fuel t acc bits ret)
        × ((write_out fuel t acc bits ret).bits < t)
  write_out-IsState zero acc bits total e ret h p = unfold write_out in (p, omega arith)
  write_out-IsState (suc fuel) acc bits total e ret h p = elim (Bool-cases (ltb bits t)) [
    | inl less ↦ rw (write_out-stop fuel acc bits ret less) (p, ground (arith, less))
    | inr more ↦
        let enough : bits - t + t ≡ bits = ground (arith, more) in
        rw (write_out-next fuel acc bits ret more) (
          write_out-IsState fuel acc (bits - t) total e _ (ground (arith, more))
            (write_digit acc (bits - t) total e ret (rw enough p)))
  ]

  -- A value of f bits is read.
  read_in-IsState :
      (f total e v : ℕ) (c : Converter)
      → v < 2 ^ f
      → c.bits < t
      → IsState t total e c
      → IsState t (total + f) (e * 2 ^ f + v) (read_in f t v c) × ((read_in f t v c).bits < t)
  unfolding read_in
  read_in-IsState f total e v c h room p =
      write_out-IsState (c.bits + f) _ (c.bits + f) (total + f) (e * 2 ^ f + v) (c.ret)
        (omega arith)
        (record {
          digits = p.digits;
          count = omega (arith, p.count);
          value = omega (
            arith,
            acc_low,
            ap (λ (x : ℕ). x * 2 ^ f) (p.value),
            add-mul (n * 2 ^ c.bits) (c.acc % 2 ^ c.bits) (2 ^ f),
            mul_assoc n (2 ^ c.bits) (2 ^ f),
            ap (λ (x : ℕ). n * x) (sym (pow-add 2 (c.bits) f)),
          );
        })
    where
      n : ℕ
      n = from_digits t 0 (c.ret)

      acc_low :
          bit_and (bit_or (c.acc * 2 ^ f) v) (2 ^ (f + t - 1) - 1) % 2 ^ (c.bits + f)
          ≡ c.acc % 2 ^ c.bits * 2 ^ f + v
      acc_low =
          let top : f + t - 1 ≡ (c.bits + f) + (t - 1 - c.bits) = omega arith in
          let swap : c.bits + f ≡ f + c.bits = omega arith in
          rw
            (
              bit_or_fields f (c.acc) v h,
              bit_and_mask (f + t - 1) (c.acc * 2 ^ f + v),
              top,
              mod_low (c.acc * 2 ^ f + v) (c.bits + f) (t - 1 - c.bits),
              swap,
            )
            (shift_in (c.acc) v (c.bits) f h)

  -- The whole input is read.
  pub read_all-IsState :
      (f total e : ℕ) (values : List ℕ) (c : Converter)
      → AreDigits f values
      → c.bits < t
      → IsState t total e c
      → (c' : Converter) × (read_all f t values c ≡ some c')
        × (c'.bits < t)
        × IsState t (total + total_bits f values) (from_digits f e values) c'
  unfolding read_all from_digits total_bits
  read_all-IsState f total e [] c h room p =
      let same : total + 0 ≡ total = omega arith in (c, refl, room, rw same p)
  read_all-IsState f total e (v ∷ values) c h room p =
      let (q, room') = read_in-IsState f total e v c h.0 room p in
      let (c', r, small, s) =
        read_all-IsState f (total + f) (e * 2 ^ f + v) values (read_in f t v c) h.1 room' q in
      let sum : total + (f + total_bits f values) ≡ total + f + total_bits f values = omega arith in
      let fits : (v / 2 ^ f == 0) ≡ true = rw (div-eq_of_lt h.0) refl in
      (c', rw fits r, small, rw sum s)
