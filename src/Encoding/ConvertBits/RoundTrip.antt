-- ===== src/Encoding/ConvertBits/RoundTrip.antt =====
-- `convertbits` of bitcoinlib/encoding.py to narrower digits with padding, and back without.
use bitcoinlib.Common.{
  ℕ, zero, suc, ◌+◌, ◌-◌, ◌*◌, ◌/◌, ◌%◌, ◌^◌, ◌≤◌, ◌<◌, ◌≡◌, refl, sym, ap, ◌∙◌, List, [], ◌∷◌,
  ◌++◌, Bool, true, false, some, ok, ◌>>=◌, All-append, arith,
}
use bitcoinlib.Common.Bits.{bit_and_mask}
use bitcoinlib.Common.Powers.{pow-add, two-pow-pos, div_mod_unique}
use bitcoinlib.Encoding.ConvertBits.{Converter, masked, read_all, close, finish, convertbits}
use bitcoinlib.Encoding.ConvertBits.Fields.{shift_in}
use bitcoinlib.Encoding.ConvertBits.Digits.{
  AreDigits, from_digits, total_bits, from_digits-append, total_bits-append, total_bits_unique,
  from_digits-injective,
}
use bitcoinlib.Encoding.ConvertBits.Loop.{IsState, read_all-IsState}
use native.Mathlib.Nat.{add-mul, mul_assoc, mod-lt}

-- The digits are `e` with `z` zero bits behind it.
record IsPadded (t total e z : ℕ) (code : List ℕ) : Type 0 where
  pub digits : AreDigits t code
  pub count : total_bits t code ≡ total + z
  pub value : from_digits t 0 code ≡ e * 2 ^ z

pad_low : (acc bits z : ℕ) → masked (z + bits) (acc * 2 ^ z) ≡ acc % 2 ^ bits * 2 ^ z
pad_low acc bits z =
    let plain : acc * 2 ^ z + 0 ≡ acc * 2 ^ z = omega arith in
    let plain' : acc % 2 ^ bits * 2 ^ z + 0 ≡ acc % 2 ^ bits * 2 ^ z = omega arith in
    bit_and_mask (z + bits) (acc * 2 ^ z)
    ∙ (rw (plain, plain') at (shift_in acc 0 bits z (two-pow-pos z)))

-- Padding fills the last digit.
close-IsPadded :
    (f t total e : ℕ) (c : Converter)
    → c.bits < t
    → IsState t total e c
    → (code : List ℕ) × (z : ℕ) × (close f t true c ≡ ok code) × (z < t) × IsPadded t total e z code
unfolding close
close-IsPadded f t total e c room p = by_bits (c.bits) refl
  where
    by_bits :
        (b : ℕ)
        → c.bits ≡ b
        → (code : List ℕ) × (z : ℕ) × (close f t true c ≡ ok code)
          × (z < t)
          × IsPadded t total e z code
    by_bits zero h =
        let v = rw h at (p.value) in
        (
          c.ret,
          0,
          rw h refl,
          omega arith,
          record { digits = p.digits; count = omega (arith, p.count, h); value = omega (arith, v) },
        )
    by_bits (suc b) h =
        let z = t - suc b in
        let width : z + suc b ≡ t = omega (arith, room, h) in
        let d = masked t (c.acc * 2 ^ z) in
        let low : d ≡ c.acc % 2 ^ suc b * 2 ^ z = rw width at (pad_low (c.acc) (suc b) z) in
        let n = from_digits t 0 (c.ret) in
        let v = rw h at (p.value) in
        (
          c.ret ++ (d ∷ []),
          z,
          rw h (ground arith),
          omega (arith, room, h),
          record {
            digits =
                All-append (λ x. x < 2 ^ t) (c.ret) (d ∷ []) p.digits
                  (
                    rw (bit_and_mask t (c.acc * 2 ^ z)) (mod-lt (c.acc * 2 ^ z) (two-pow-pos t)),
                    tt,
                  );
            count = omega (arith, total_bits-append t d (c.ret), p.count, h, width);
            value =
                rw (from_digits-append t 0 d (c.ret), low)
                  (omega (
                    arith,
                    ap (λ (x : ℕ). x * 2 ^ z) v,
                    add-mul (n * 2 ^ suc b) (c.acc % 2 ^ suc b) (2 ^ z),
                    mul_assoc n (2 ^ suc b) (2 ^ z),
                    ap (λ (x : ℕ). n * x)
                        (sym (pow-add 2 (suc b) z) ∙ ap (λ (x : ℕ). 2 ^ x) swap ∙ refl),
                  ));
          },
        )
      where
        swap : suc b + (t - suc b) ≡ t
        swap = omega (arith, room, h)

-- Without padding, what is left over must be zero bits, fewer than one digit of the input.
close_exact :
    (f t z : ℕ) (values : List ℕ) (c : Converter)
    → z < t
    → t ≤ f
    → c.bits < f
    → AreDigits f values
    → IsState f (total_bits f values + z) (from_digits f 0 values * 2 ^ z) c
    → close t f false c ≡ ok values
unfolding close
close_exact f t z values c small narrow room digits p =
    let (len, left) = total_bits_unique f (c.ret) values (c.bits) z room (omega arith) (p.count) in
    let v = rw left at (p.value) in
    let plain : from_digits f 0 values * 2 ^ z + 0 ≡ from_digits f 0 values * 2 ^ z = omega arith in
    let low = mod-lt (c.acc) (two-pow-pos z) in
    let (a, b) = div_mod_unique (from_digits f 0 (c.ret)) (c.acc % 2 ^ z) (2 ^ z) low in
    let (a', b') = div_mod_unique (from_digits f 0 values) 0 (2 ^ z) (two-pow-pos z) in
    let same : from_digits f 0 (c.ret) * 2 ^ z + c.acc % 2 ^ z
        ≡ from_digits f 0 values * 2 ^ z + 0 =
      v ∙ sym plain in
    let number : from_digits f 0 (c.ret) ≡ from_digits f 0 values =
      sym a ∙ ap (λ x. x / 2 ^ z) same ∙ a' in
    let none_left : c.acc % 2 ^ z ≡ 0 = sym b ∙ ap (λ x. x % 2 ^ z) same ∙ b' in
    let width : f - z + z ≡ f = omega arith in
    let zeros : masked f (c.acc * 2 ^ (f - z)) ≡ 0 =
      (rw width at (pad_low (c.acc) z (f - z))) ∙ rw none_left (omega arith) in
    let e = (from_digits-injective f 0 0 (c.ret) values (p.digits) digits len number).1 in
    rw (left, zeros, e) (ground arith)

abbrev start : Converter
start = record { acc = 0; bits = 0; ret = [] }

start-IsState : (t : ℕ) → IsState t 0 0 start
unfolding from_digits total_bits
start-IsState t = record { digits = tt; count = refl; value = refl }

convertbits-finish :
    (f t : ℕ) (pad : Bool) (values code : List ℕ) (c : Converter)
    → read_all f t values start ≡ some c
    → close f t pad c ≡ ok code
    → convertbits values f t pad ≡ ok (some code)
unfolding convertbits
convertbits-finish f t pad values code c r e =
    ap (finish f t pad) r ∙ ap (λ x. x >>= λ ret. ok (some ret)) e

-- Digits of f bits, written as digits of t bits for a t between 1 and f, are digits below 2 ^ t, not
-- one more than needed, and converting these back without padding gives the first digits again.
pub convertbits-convertbits :
    (f t : ℕ) (values : List ℕ)
    → 0 < t
    → t ≤ f
    → AreDigits f values
    → (code : List ℕ) × (convertbits values f t true ≡ ok (some code))
      × AreDigits t code
      × (total_bits t code < total_bits f values + t)
      × (convertbits code t f false ≡ ok (some values))
convertbits-convertbits f t values positive narrow h =
    let (c, r, small, s) =
      read_all-IsState t positive f 0 0 values start h positive (start-IsState t) in
    let (code, z, e, fits, p) = close-IsPadded f t _ _ c small s in
    let wide : 0 < f = omega (arith, positive, narrow) in
    let (c', r', small', s') =
      read_all-IsState f wide t 0 0 code start (p.digits) wide (start-IsState f) in
    let count : 0 + total_bits t code ≡ total_bits f values + z = omega (arith, p.count) in
    let back = close_exact f t z values c' fits narrow small' h (rw (count, p.value) at s') in
    (
      code,
      convertbits-finish f t true values code c r e,
      p.digits,
      omega (arith, count, fits),
      convertbits-finish t f false code values c' r' back,
    )
