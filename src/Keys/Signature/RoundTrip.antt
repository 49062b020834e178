-- ===== src/Keys/Signature/RoundTrip.antt =====
-- `Signature.parse_bytes` of bitcoinlib/keys.py reads what bitcoinlib/encoding.py encodes.
use bitcoinlib.Common.{
  ℕ, ◌+◌, ◌-◌, ◌^◌, ◌≤◌, ◌<◌, ◌≡◌, refl, ap, ◌∙◌, List, [], ◌∷◌, ◌++◌, reverse, true, some, ok, ltb,
  arith, length, take-append, drop-append, length-append, length-reverse,
}
use bitcoinlib.Encoding.Bytes.{from_big, little_digits}
use bitcoinlib.Encoding.Bytes.Laws.{length-little_digits, from_big-little_digits}
use bitcoinlib.Encoding.Der.{signature_der_encode, signature_der_decode, signature_der_decode_bytes}
use bitcoinlib.Encoding.Der.RoundTrip.{signature_der_decode-encode}
use bitcoinlib.Keys.Derivation.{secp256k1_n}
use bitcoinlib.Keys.Signature.{in_range, starts_with, split_signature, parse_bytes}

-- What is decoded starts with the sequence byte.
starts_with-signature_der_decode :
    (sig rest : List ℕ) (x : ℕ × ℕ)
    → signature_der_decode sig ≡ ok x
    → starts_with 0x30 (sig ++ rest) ≡ true
unfolding signature_der_decode
starts_with-signature_der_decode [] rest x e = cc
starts_with-signature_der_decode (b ∷ bs) rest x e = ground (arith, e)

big : ℕ → List ℕ
big n = reverse (little_digits 32 n)

length-big : (n : ℕ) → length (big n) ≡ 32
unfolding big
length-big n = length-reverse (little_digits 32 n) ∙ length-little_digits 32 n

signature_der_decode_bytes_lem :
    (sig : List ℕ) (r s : ℕ)
    → r < 2 ^ 256
    → s < 2 ^ 256
    → signature_der_decode sig ≡ ok (r, s)
    → signature_der_decode_bytes sig ≡ ok (big r ++ big s)
unfolding signature_der_decode_bytes big
signature_der_decode_bytes_lem sig r s hr hs e = rw e (ground (arith, hr, hs))

split_halves :
    (r s hash_type : ℕ) (der : List ℕ)
    → 0 < r
    → r < secp256k1_n
    → 0 < s
    → s < secp256k1_n
    → split_signature (some der) hash_type (big r ++ big s)
      ≡ ok (record { r = r; s = s; der_signature = some der; hash_type = hash_type })
unfolding split_signature big
split_halves r s hash_type der r_pos r_fits s_pos s_fits =
    let r_ok : in_range r ≡ true = ground arith in
    let s_ok : in_range s ≡ true = ground arith in
    rw
      (
        length-append (big r) (big s),
        length-big r,
        length-big s,
        take-append (big r) (big s) 32 (length-big r),
        drop-append (big r) (big s) 32 (length-big r),
        from_big-little_digits 32 r (omega (arith, r_fits)),
        from_big-little_digits 32 s (omega (arith, s_fits)),
        r_ok,
        s_ok,
      )
      refl

-- For r and s between 1 and the order of the curve less 1, an encoded signature of 64 bytes or more with a hash type
-- byte behind it is parsed into r, s, the encoded signature and the hash type.
pub parse_bytes-signature_der_encode :
    (r s hash_type : ℕ) (sig : List ℕ)
    → 0 < r
    → r < secp256k1_n
    → 0 < s
    → s < secp256k1_n
    → signature_der_encode r s ≡ ok sig
    → 64 ≤ length sig
    → parse_bytes (sig ++ (hash_type ∷ []))
      ≡ ok (record { r = r; s = s; der_signature = some sig; hash_type = hash_type })
unfolding parse_bytes
parse_bytes-signature_der_encode r s hash_type sig r_pos r_fits s_pos s_fits e long =
    let r_bits : r < 2 ^ 256 = omega (arith, r_fits) in
    let s_bits : s < 2 ^ 256 = omega (arith, s_fits) in
    let (sig', e', short, decoded, with_type) =
      signature_der_decode-encode r s hash_type r_pos r_bits s_pos s_bits in
    let same : sig' ≡ sig = cc in
    let d : signature_der_decode sig ≡ ok (r, s) = rw same at decoded in
    let size : length (sig ++ (hash_type ∷ [])) ≡ length sig + 1 =
      length-append sig (hash_type ∷ []) in
    let cut : length sig + 1 - 1 ≡ length sig = omega arith in
    let long' : ltb 64 (length sig + 1) ≡ true = ground (arith, long) in
    let number : from_big (hash_type ∷ []) ≡ hash_type = omega arith in
    rw
      (
        size,
        cut,
        long',
        starts_with-signature_der_decode sig (hash_type ∷ []) (r, s) d,
        take-append sig (hash_type ∷ []) (length sig) refl,
        drop-append sig (hash_type ∷ []) (length sig) refl,
        signature_der_decode_bytes_lem sig r s r_bits s_bits d,
      )
      (ap (λ t. split_signature (some sig) t (big r ++ big s)) number
        ∙ split_halves r s hash_type sig r_pos r_fits s_pos s_fits)
