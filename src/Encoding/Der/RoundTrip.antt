-- ===== src/Encoding/Der/RoundTrip.antt =====
-- Every signature that `signature_der_encode` writes is strict DER, and decodes to its two numbers,
-- with or without a hash type byte behind it.
use bitcoinlib.Common.{
  ℕ, zero, suc, ◌+◌, ◌-◌, ◌*◌, ◌/◌, ◌^◌, ◌≤◌, ◌<◌, ◌≡◌, ◌≢◌, refl, sym, ap, ◌∙◌, ◌⊎◌, inl, inr,
  List, [], ◌∷◌, ◌++◌, reverse, ok, arith, length, length-append, length-reverse, All-reverse,
  take-append, drop-append, bytes_eq, bytes_eq→eq, Bool-cases, lt→ltb, ◌==◌, bit_and, append-nil,
}
use bitcoinlib.Encoding.Bytes.{IsByte, IsBytes, from_big, little_digits, lstrip_zeros}
use bitcoinlib.Encoding.Bytes.Laws.{
  length-little_digits, little_digits-IsBytes, from_big-little_digits, from_big-lstrip_zeros,
  from_big-zero_cons, length-lstrip_zeros,
}
use bitcoinlib.Encoding.VarInt.{varbyteint_to_int, int_to_varbyteint, varstr}
use bitcoinlib.Encoding.Der.{
  pad_sign, strip_sighash, der_integer, signature_der_encode, unpack_int, signature_der_decode,
}
use bitcoinlib.Common.Bits.{bit_and_top}

-- A short byte string, other than the single byte 0, gets one length byte.
pub varstr_short : (s : List ℕ) → length s < 253 → s ≢ 0 ∷ [] → varstr s ≡ ok (length s ∷ s)
unfolding varstr int_to_varbyteint little_digits
varstr_short s h ne = elim (Bool-cases (bytes_eq s (0 ∷ []))) [
  | inl e ↦ absurd (ne (bytes_eq→eq s (0 ∷ []) e))
  | inr e ↦ rw e (ground arith)
]

-- A positive DER integer in the shortest form: the first byte has no sign bit, and is 0 only where
-- the second has one.
pub IsMinimal : List ℕ → Type 0
IsMinimal [] = ⊥
IsMinimal (b ∷ []) = (0 < b) × (b < 128)
IsMinimal (b ∷ c ∷ bs) = (b < 128) × ((0 < b) ⊎ (128 ≤ c))

lstrip_zeros_cases :
    (xs : List ℕ)
    → (lstrip_zeros xs ≡ []) ⊎ ((b : ℕ) × (bs : List ℕ) × (lstrip_zeros xs ≡ suc b ∷ bs))
lstrip_zeros_cases [] = inl refl
lstrip_zeros_cases (zero ∷ xs) = lstrip_zeros_cases xs
lstrip_zeros_cases (suc b ∷ xs) = inr (b, xs, refl)

lstrip_zeros-IsBytes : (xs : List ℕ) → IsBytes xs → IsBytes (lstrip_zeros xs)
lstrip_zeros-IsBytes [] h = tt
lstrip_zeros-IsBytes (zero ∷ xs) h = lstrip_zeros-IsBytes xs h.1
lstrip_zeros-IsBytes (suc b ∷ xs) h = h

pub record IsEncodingOf (n : ℕ) (b : List ℕ) : Type 0 where
  pub encodes : der_integer n ≡ ok b
  pub minimal : IsMinimal b
  pub bytes : IsBytes b
  pub short : length b ≤ 33
  pub value : from_big b ≡ n

-- The sign byte, on a byte string that starts with a nonzero byte.
pad_sign-IsMinimal :
    (b : ℕ) (bs : List ℕ)
    → IsBytes (suc b ∷ bs)
    → (p : List ℕ) × (pad_sign (suc b ∷ bs) ≡ ok p)
      × IsMinimal p
      × IsBytes p
      × (length p ≤ suc (length (suc b ∷ bs)))
      × (from_big p ≡ from_big (suc b ∷ bs))
unfolding pad_sign IsMinimal
pad_sign-IsMinimal b bs h = elim (Bool-cases (bit_and (suc b) 0x80 == 0)) [
  | inl e ↦ (suc b ∷ bs, rw e, low bs (ground (arith, top)), h, omega arith, refl)
  | inr e ↦ (
    0 ∷ suc b ∷ bs,
    rw e,
    ground (arith, top),
    (omega arith, h),
    omega arith,
    from_big-zero_cons (suc b ∷ bs),
  )
]
  where
    top : bit_and (suc b) 0x80 ≡ suc b / 128 * 128
    top = bit_and_top (suc b) h.0

    low : (bs : List ℕ) → suc b < 128 → IsMinimal (suc b ∷ bs)
    low [] p = (omega arith, p)
    low (c ∷ bs) p = (p, inl (omega arith))

pub der_integer-IsEncodingOf : (n : ℕ) → 0 < n → n < 2 ^ 256 → (b : List ℕ) × IsEncodingOf n b
unfolding der_integer
der_integer-IsEncodingOf n pos fits = elim (lstrip_zeros_cases big) [
  | inl e ↦ absurd (omega (arith, value, ap from_big e))
  | inr (b, bs, e) ↦
      let (p, padded, minimal, bytes, short, same) =
        pad_sign-IsMinimal b bs (rw e at stripped_bytes) in
      (
        p,
        record {
          encodes = rw (lt→ltb n (256 ^ 32) fits) (rw e padded);
          minimal = minimal;
          bytes = bytes;
          short = omega (arith, short, ap length e, length-lstrip_zeros big, length-big);
          value = same ∙ ap from_big (sym e) ∙ value;
        },
      )
]
  where
    big : List ℕ
    big = reverse (little_digits 32 n)

    stripped_bytes : IsBytes (lstrip_zeros big)
    stripped_bytes =
        lstrip_zeros-IsBytes big
          (All-reverse IsByte (little_digits 32 n) (little_digits-IsBytes 32 n))

    value : from_big (lstrip_zeros big) ≡ n
    value = from_big-lstrip_zeros big ∙ from_big-little_digits 32 n fits

    length-big : length big ≡ 32
    length-big = length-reverse (little_digits 32 n) ∙ length-little_digits 32 n

one_byte_length : (k : ℕ) (xs : List ℕ) → k < 253 → varbyteint_to_int (k ∷ xs) ≡ (k, 1)
unfolding varbyteint_to_int
one_byte_length k xs h = ground arith

-- `unpack_int` takes one integer off the front.
unpack_int_front :
    (b rest : List ℕ) (k : ℕ)
    → length b ≡ k
    → k < 253
    → unpack_int (0x02 ∷ k ∷ b ++ rest) ≡ ok (from_big b, rest)
unfolding unpack_int
unpack_int_front b rest k len h =
    let e : 1 + k + 1 ≡ suc (suc k) = omega arith in
    let e' : 1 + 1 + k ≡ suc (suc k) = omega arith in
    rw (one_byte_length k (b ++ rest) h, e, e', take-append b rest k len, drop-append b rest k len)
      (ground (arith, len))

-- Without the hash type byte, and with it, `strip_sighash` leaves the sequence.
strip_exact :
    (m : ℕ) (body : List ℕ)
    → length body ≡ m
    → strip_sighash (m + 1 + 1) (0x30 ∷ m ∷ body) ≡ 0x30 ∷ m ∷ body
strip_exact m body len = ground (arith, len)

strip_one :
    (m hash_type : ℕ) (body : List ℕ)
    → length body ≡ m
    → strip_sighash (m + 1 + 1) (0x30 ∷ m ∷ (body ++ (hash_type ∷ []))) ≡ 0x30 ∷ m ∷ body
strip_one m hash_type body len =
    let e : length (body ++ (hash_type ∷ [])) ≡ suc m =
      omega (arith, len, length-append body (hash_type ∷ [])) in
    let e' : suc (suc (suc m)) - 1 ≡ suc (suc m) = omega arith in
    rw (e, e', take-append body (hash_type ∷ []) m len) (ground arith)

-- A sequence that `strip_sighash` leaves with a body of two integers decodes to them.
decode_sequence :
    (m r s : ℕ) (body rest tail : List ℕ)
    → m < 253
    → length body ≡ m
    → strip_sighash (m + 1 + 1) (0x30 ∷ m ∷ tail) ≡ 0x30 ∷ m ∷ body
    → unpack_int body ≡ ok (r, rest)
    → unpack_int rest ≡ ok (s, [])
    → signature_der_decode (0x30 ∷ m ∷ tail) ≡ ok (r, s)
unfolding signature_der_decode
decode_sequence m r s body rest tail h len strip u v =
    rw (one_byte_length m tail h, strip, u, v) (ground (arith, len))

encode_parts :
    (r s m : ℕ) (rb sb : List ℕ)
    → IsEncodingOf r rb
    → IsEncodingOf s sb
    → length ((0x02 ∷ length rb ∷ rb) ++ (0x02 ∷ length sb ∷ sb)) ≡ m
    → signature_der_encode r s
      ≡ ok (0x30 ∷ m ∷ ((0x02 ∷ length rb ∷ rb) ++ (0x02 ∷ length sb ∷ sb)))
unfolding signature_der_encode
encode_parts r s m rb sb pr ps len = rw (
  pr.encodes,
  ps.encodes,
  varstr_short rb (omega (arith, pr.short)) (not_zero rb pr.minimal),
  varstr_short sb (omega (arith, ps.short)) (not_zero sb ps.minimal),
  varstr_short ((0x02 ∷ length rb ∷ rb) ++ (0x02 ∷ length sb ∷ sb))
      (omega (arith, pr.short, ps.short, length-append rb (0x02 ∷ length sb ∷ sb))) (λ e. cc),
  len,
)
  where
    not_zero : (b : List ℕ) → IsMinimal b → b ≢ 0 ∷ []
    not_zero b h e = let p = rw e at h in unfold IsMinimal in omega (arith, p.0)

-- For r and s between 1 and 2 ^ 256 - 1 the encoder returns a signature of at most 72 bytes, and
-- the decoder gives r and s back, from the signature alone and with any hash type byte behind it.
pub signature_der_decode-encode :
    (r s hash_type : ℕ)
    → 0 < r
    → r < 2 ^ 256
    → 0 < s
    → s < 2 ^ 256
    → (sig : List ℕ) × (signature_der_encode r s ≡ ok sig)
      × (length sig ≤ 72)
      × (signature_der_decode sig ≡ ok (r, s))
      × (signature_der_decode (sig ++ (hash_type ∷ [])) ≡ ok (r, s))
signature_der_decode-encode r s hash_type r_pos r_fits s_pos s_fits =
    let (rb, pr) = der_integer-IsEncodingOf r r_pos r_fits in
    let (sb, ps) = der_integer-IsEncodingOf s s_pos s_fits in
    let tail : List ℕ = 0x02 ∷ length sb ∷ sb in
    let body : List ℕ = (0x02 ∷ length rb ∷ rb) ++ tail in
    let size : length body ≤ 70 = omega (arith, pr.short, ps.short, length-append rb tail) in
    let front =
      unpack_int_front rb tail (length rb) refl (omega (arith, pr.short))
      ∙ ap (λ v. ok (v, tail)) pr.value in
    let back =
      rw (append-nil sb, ps.value) at
        (unpack_int_front sb [] (length sb) refl (omega (arith, ps.short))) in
    (
      0x30 ∷ length body ∷ body,
      encode_parts r s (length body) rb sb pr ps refl,
      omega (arith, size),
      decode_sequence (length body) r s body tail body (omega (arith, size)) refl
          (strip_exact (length body) body refl) front back,
      decode_sequence (length body) r s body tail (body ++ (hash_type ∷ [])) (omega (arith, size))
          refl (strip_one (length body) hash_type body refl) front back,
    )

-- A number between 1 and 2 ^ 256 - 1 is written as at most 33 bytes in big-endian order, in the
-- shortest form whose first byte has no sign bit.
pub der_integer-IsMinimal :
    (n : ℕ) (b : List ℕ)
    → 0 < n
    → n < 2 ^ 256
    → der_integer n ≡ ok b
    → IsMinimal b × IsBytes b × (length b ≤ 33) × (from_big b ≡ n)
der_integer-IsMinimal n b pos fits e =
    let (c, p) = der_integer-IsEncodingOf n pos fits in
    let same : c ≡ b = cc (p.encodes) in rw (← same) (p.minimal, p.bytes, p.short, p.value)
