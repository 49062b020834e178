-- ===== src/Script/Num/Laws.antt =====
-- `decode_num` undoes `encode_num`, whose result is the shortest that decodes to the number.
use bitcoinlib.Common.{
  ℕ, zero, suc, ◌+◌, ◌*◌, ◌/◌, ◌%◌, ◌^◌, ◌≤◌, ◌<◌, ◌≡◌, ◌≢◌, refl, sym, ap, ◌∙◌, inl, inr, List, [],
  ◌∷◌, Bool, true, false, arith, length, ◌==◌, ==_iff, if◌then◌else◌, Bool-cases, bit_and,
}
use bitcoinlib.Common.Bits.{bit_and_mask, bit_and_top}
use bitcoinlib.Common.Integer.{ℤ, pos, negsuc, magnitude}
use bitcoinlib.Encoding.Bytes.{IsBytes, from_little, little_digits}
use bitcoinlib.Encoding.Bytes.Laws.{
  length-little_digits, little_digits-IsBytes, from_little-little_digits,
}
use bitcoinlib.Script.Num.{add_sign, encode_num, sign_bit, clear_sign, negate, decode_num}
use bitcoinlib.Script.Num.BitLength.{bit_length, bit_length-bound, bit_length-least}
use bitcoinlib.Common.Powers.{pow-add}
use native.Mathlib.Nat.{pow-suc, pow-le-pow_right}

add_sign-ne-nil : (neg : Bool) (b : ℕ) (bs : List ℕ) → add_sign neg (b ∷ bs) ≢ []
unfolding add_sign
add_sign-ne-nil neg b [] = ground arith
add_sign-ne-nil neg b (c ∷ bs) = ground arith

add_sign-cons :
    (neg : Bool) (b c : ℕ) (bs : List ℕ) → add_sign neg (b ∷ c ∷ bs) ≡ b ∷ add_sign neg (c ∷ bs)
unfolding add_sign
add_sign-cons neg b c bs = refl

clear_sign-cons : (b : ℕ) (xs : List ℕ) → xs ≢ [] → clear_sign (b ∷ xs) ≡ b ∷ clear_sign xs
unfolding clear_sign
clear_sign-cons b [] h = absurd (h refl)
clear_sign-cons b (x ∷ xs) h = refl

sign_bit-cons : (b : ℕ) (xs : List ℕ) → xs ≢ [] → sign_bit (b ∷ xs) ≡ sign_bit xs
unfolding sign_bit
sign_bit-cons b [] h = absurd (h refl)
sign_bit-cons b (x ∷ xs) h = refl

low_bits : (b : ℕ) → bit_and b 0x7f ≡ b % 128
low_bits b = bit_and_mask 7 b

-- The sign is stored beside the magnitude.
sign_bit-add_sign :
    (neg : Bool) (b : ℕ) (bs : List ℕ) → IsBytes (b ∷ bs) → sign_bit (add_sign neg (b ∷ bs)) ≡ neg
sign_bit-add_sign neg b [] h =
    unfold add_sign sign_bit in ground (arith, bit_and_top b h.0, bit_and_top (b + 128))
sign_bit-add_sign neg b (c ∷ bs) h =
    rw
      (add_sign-cons neg b c bs, sign_bit-cons b (add_sign neg (c ∷ bs)) (add_sign-ne-nil neg c bs))
      (sign_bit-add_sign neg c bs h.1)

clear_sign-add_sign :
    (neg : Bool) (b : ℕ) (bs : List ℕ)
    → IsBytes (b ∷ bs)
    → from_little (clear_sign (add_sign neg (b ∷ bs))) ≡ from_little (b ∷ bs)
clear_sign-add_sign neg b [] h =
    unfold add_sign clear_sign in
    ground (arith, bit_and_top b h.0, low_bits b, low_bits (b + 128), low_bits 128, low_bits 0)
clear_sign-add_sign neg b (c ∷ bs) h =
    rw
      (
        add_sign-cons neg b c bs,
        clear_sign-cons b (add_sign neg (c ∷ bs)) (add_sign-ne-nil neg c bs),
      )
      (ap (λ t. b + 256 * t) (clear_sign-add_sign neg c bs h.1))

-- The bytes of `to_bytes` are enough for the bits, and a nonzero number has at least one.
abbrev size_of : ℕ → ℕ
size_of n = (bit_length n + 7) / 8

byte_pow : (k : ℕ) → 256 ^ k ≡ 2 ^ (8 * k)
byte_pow zero = refl
byte_pow (suc k) =
    let e : 8 * suc k ≡ 8 * k + 8 = omega arith in
    rw (e, pow-add 2 (8 * k) 8, pow-suc 256 k, byte_pow k)

pub size_of-bound : (n : ℕ) → n < 256 ^ size_of n
size_of-bound n =
    let room : 2 ^ bit_length n ≤ 2 ^ (8 * size_of n) =
      pow-le-pow_right (omega arith) (omega arith) in
    omega (arith, bit_length-bound n, byte_pow (size_of n), room)

-- The digits of a nonzero number start with some byte.
digits_cons :
    (n : ℕ)
    → 0 < n
    → (b : ℕ) × (bs : List ℕ) × (little_digits (size_of n) n ≡ b ∷ bs)
      × IsBytes (b ∷ bs)
      × (from_little (b ∷ bs) ≡ n)
      × (length (b ∷ bs) ≡ size_of n)
digits_cons n h = go (little_digits (size_of n) n) refl
  where
    value : from_little (little_digits (size_of n) n) ≡ n
    value = from_little-little_digits (size_of n) n (size_of-bound n)

    go :
        (xs : List ℕ)
        → little_digits (size_of n) n ≡ xs
        → (b : ℕ) × (bs : List ℕ) × (little_digits (size_of n) n ≡ b ∷ bs)
          × IsBytes (b ∷ bs)
          × (from_little (b ∷ bs) ≡ n)
          × (length (b ∷ bs) ≡ size_of n)
    go [] e = absurd (omega (arith, value, ap from_little e))
    go (b ∷ bs) e = (
      b,
      bs,
      e,
      rw e at (little_digits-IsBytes (size_of n) n),
      sym (ap from_little e) ∙ value,
      sym (ap length e) ∙ length-little_digits (size_of n) n,
    )

encode_num-pos :
    (n : ℕ) → encode_num (pos (suc n)) ≡ add_sign false (little_digits (size_of (suc n)) (suc n))
unfolding encode_num
encode_num-pos n = let e : suc n + 0 ≡ suc n = omega arith in rw e (ground arith)

encode_num-negsuc :
    (n : ℕ) → encode_num (negsuc n) ≡ add_sign true (little_digits (size_of (suc n)) (suc n))
unfolding encode_num
encode_num-negsuc n = let e : 0 + suc n ≡ suc n = omega arith in rw e (ground arith)

-- A byte string that stores a sign beside the digits of a magnitude decodes to their number.
decode_num-add_sign :
    (neg : Bool) (n : ℕ)
    → decode_num (add_sign neg (little_digits (size_of (suc n)) (suc n)))
      ≡ (if neg then negsuc n else pos (suc n))
unfolding decode_num
decode_num-add_sign neg n =
    let (b, bs, e, bytes, value, len) = digits_cons (suc n) (omega arith) in
    rw (e, sign_bit-add_sign neg b bs bytes, clear_sign-add_sign neg b bs bytes, value) refl

-- Decoding gives back every number that was encoded.
pub decode_num-encode_num : (z : ℤ) → decode_num (encode_num z) ≡ z
decode_num-encode_num (pos zero) = unfold encode_num decode_num sign_bit clear_sign in refl
decode_num-encode_num (pos (suc n)) = rw (encode_num-pos n) (decode_num-add_sign false n)
decode_num-encode_num (negsuc n) = rw (encode_num-negsuc n) (decode_num-add_sign true n)

length-add_sign : (neg : Bool) (bs : List ℕ) → length (add_sign neg bs) ≤ length bs + 1
unfolding add_sign
length-add_sign neg [] = omega arith
length-add_sign neg (b ∷ []) = ground arith
length-add_sign neg (b ∷ c ∷ bs) = omega (arith, length-add_sign neg (c ∷ bs))

-- A free sign bit in the last byte needs no further byte.
length-add_sign_free :
    (neg : Bool) (b : ℕ) (bs : List ℕ)
    → IsBytes (b ∷ bs)
    → from_little (b ∷ bs) < 128 * 256 ^ length bs
    → length (add_sign neg (b ∷ bs)) ≡ length (b ∷ bs)
length-add_sign_free neg b [] h small = unfold add_sign in ground (arith, bit_and_top b h.0)
length-add_sign_free neg b (c ∷ bs) h small =
    rw (add_sign-cons neg b c bs)
      (ap suc (length-add_sign_free neg c bs h.1 (omega (arith, small, pow-suc 256 (length bs)))))

length-add_sign_digits :
    (neg : Bool) (n k : ℕ)
    → 0 < n
    → n < 2 ^ (8 * k + 7)
    → length (add_sign neg (little_digits (size_of n) n)) ≤ k + 1
length-add_sign_digits neg n k pos_n small =
    let (b, bs, e, bytes, value, len) = digits_cons n pos_n in
    let bits : bit_length n ≤ 8 * k + 7 = bit_length-least n (8 * k + 7) small in
    rw e (elim (Bool-cases (length bs == k)) [
      | inl full ↦
          let same : length bs ≡ k = (==_iff _ _).0 full in
          omega (
            arith,
            same,
            length-add_sign_free neg b bs bytes
                (rw (same, value) (omega (arith, small, pow-add 2 (8 * k) 7, byte_pow k))),
          )
      | inr less ↦
          let fewer : length bs < k = ground (arith, len) in
          omega (arith, length-add_sign neg (b ∷ bs), fewer)
    ])

-- A number of at most 8k + 7 bits takes at most k + 1 bytes.
pub length-encode_num :
    (z : ℤ) (k : ℕ) → magnitude z < 2 ^ (8 * k + 7) → length (encode_num z) ≤ k + 1
length-encode_num (pos zero) k h = unfold encode_num in omega arith
length-encode_num (pos (suc n)) k h =
    rw (encode_num-pos n) (length-add_sign_digits false (suc n) k (omega arith) (omega arith))
length-encode_num (negsuc n) k h =
    rw (encode_num-negsuc n) (length-add_sign_digits true (suc n) k (omega arith) (omega arith))

clear_sign-lt :
    (b : ℕ) (bs : List ℕ)
    → IsBytes (b ∷ bs)
    → from_little (clear_sign (b ∷ bs)) < 128 * 256 ^ length bs
clear_sign-lt b [] h = unfold clear_sign in omega (arith, low_bits b)
clear_sign-lt b (c ∷ bs) h =
    rw (clear_sign-cons b (c ∷ bs) (λ e. cc))
      (omega (arith, clear_sign-lt c bs h.1, h.0, pow-suc 256 (length bs)))

magnitude-signed : (neg : Bool) (n : ℕ) → magnitude (if neg then negate n else pos n) ≡ n
magnitude-signed true zero = refl
magnitude-signed true (suc n) = omega arith
magnitude-signed false n = omega arith

-- `k + 1` bytes decode to a number of at most 8k + 7 bits.
pub decode_num-lt :
    (k b : ℕ) (bs : List ℕ)
    → IsBytes (b ∷ bs)
    → length bs ≡ k
    → magnitude (decode_num (b ∷ bs)) < 2 ^ (8 * k + 7)
unfolding decode_num
decode_num-lt k b bs h len =
    let small = clear_sign-lt b bs h in
    omega (
      arith,
      magnitude-signed (sign_bit (b ∷ bs)) (from_little (clear_sign (b ∷ bs))),
      (rw (len, byte_pow k) at small),
      pow-add 2 (8 * k) 7,
    )
