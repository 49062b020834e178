-- ===== src/Encoding/VarInt/RoundTrip.antt =====
-- What `int_to_varbyteint` writes, the three readers read back.
use bitcoinlib.Common.{
  ℕ, zero, suc, ◌+◌, ◌%◌, ◌^◌, ◌≤◌, ◌<◌, ◌≡◌, refl, sym, ap, ◌∙◌, ◌⊎◌, ◌↔◌, inl, inr, List, [], ◌∷◌,
  ◌++◌, ok, err, overflow_error, arith, length, take, drop, drop-drop, take-append, drop-append,
  ltb, Bool-cases, ltb→lt, ltb→le,
}
use bitcoinlib.Encoding.Bytes.{little_digits}
use bitcoinlib.Encoding.Bytes.Laws.{length-little_digits, from_little-little_digits}
use bitcoinlib.Encoding.Stream.{Stream, remaining, seek}
use bitcoinlib.Encoding.VarInt.{
  extra_size, return_parts, varbyteint_to_int, read_varbyteint, read_varbyteint_return,
  int_to_varbyteint,
}

-- The two shapes of an encoding: a small number alone, or a marker with 2, 4 or 8 bytes.
pub data Encodes (n : ℕ) (code : List ℕ) : Type 0 where
  short : n < 253 → code ≡ n ∷ [] → Encodes n code
  long :
      (marker : ℕ)
      → 253 ≤ marker
      → marker < 256
      → n < 256 ^ extra_size marker
      → code ≡ marker ∷ little_digits (extra_size marker) n
      → Encodes n code

-- Enough room for the number is all that the encoder asks.
int_to_varbyteint_shape :
    (n : ℕ)
    → ((code : List ℕ) × (int_to_varbyteint n ≡ ok code) × Encodes n code × (n < 2 ^ 64))
      ⊎ ((int_to_varbyteint n ≡ err overflow_error) × (2 ^ 64 ≤ n))
unfolding int_to_varbyteint
int_to_varbyteint_shape n = elim (Bool-cases (ltb n 0xfd)) [
  | inl e ↦
      inl (n ∷ [], ground (arith, digit), short (ltb→lt _ _ e) refl, omega (arith, ltb→lt _ _ e))
  | inr e ↦ elim (Bool-cases (ltb n 0xffff)) [
    | inl e2 ↦ inl (
      0xfd ∷ little_digits 2 n,
      ground arith,
      long 0xfd (omega arith) (omega arith) (omega (arith, ltb→lt _ _ e2)) refl,
      omega (arith, ltb→lt _ _ e2),
    )
    | inr e2 ↦ elim (Bool-cases (ltb n 0xffff_ffff)) [
      | inl e3 ↦ inl (
        0xfe ∷ little_digits 4 n,
        ground arith,
        long 0xfe (omega arith) (omega arith) (omega (arith, ltb→lt _ _ e3)) refl,
        omega (arith, ltb→lt _ _ e3),
      )
      | inr e3 ↦ elim (Bool-cases (ltb n (256 ^ 8))) [
        | inl e4 ↦ inl (
          0xff ∷ little_digits 8 n,
          ground arith,
          long 0xff (omega arith) (omega arith) (omega (arith, ltb→lt _ _ e4)) refl,
          omega (arith, ltb→lt _ _ e4),
        )
        | inr e4 ↦ inr (ground arith, omega (arith, ltb→le _ _ e4))
      ]
    ]
  ]
]
  where
    digit : little_digits 1 n ≡ n % 256 ∷ []
    digit = unfold little_digits in refl

pub int_to_varbyteint-Encodes :
    (n : ℕ) (code : List ℕ) → int_to_varbyteint n ≡ ok code → Encodes n code × (n < 2 ^ 64)
int_to_varbyteint-Encodes n code h = elim (int_to_varbyteint_shape n) [
  | inl (c, e, shape, bound) ↦ let same : c ≡ code = cc in (rw (← same) shape, bound)
  | inr (e, over) ↦ cc
]

-- An integer has a CompactSize encoding exactly when it is below 2 ^ 64.
pub int_to_varbyteint_total :
    (n : ℕ) → ((code : List ℕ) × (int_to_varbyteint n ≡ ok code)) ↔ (n < 2 ^ 64)
int_to_varbyteint_total n = (
  λ c. (int_to_varbyteint-Encodes n c.0 c.1).1,
  λ h. elim (int_to_varbyteint_shape n) [
    | inl (c, e, shape, bound) ↦ (c, e)
    | inr (e, over) ↦ absurd (omega arith)
  ],
)

extra_size-le : (m : ℕ) → (2 ≤ extra_size m) × (extra_size m ≤ 8)
extra_size-le m = ground arith

take-take : {A : Type 0} (n m : ℕ) (xs : List A) → n ≤ m → take n (take m xs) ≡ take n xs
take-take zero m xs h = refl
take-take (suc n) zero xs h = absurd (omega arith)
take-take (suc n) (suc m) [] h = refl
take-take (suc n) (suc m) (x ∷ xs) h = ap (λ t. x ∷ t) (take-take n m xs (omega arith))

window_digits :
    (k n : ℕ) (rest : List ℕ)
    → k ≤ 8
    → take k (take 8 (little_digits k n ++ rest)) ≡ little_digits k n
window_digits k n rest h =
    take-take k 8 (little_digits k n ++ rest) h
    ∙ take-append (little_digits k n) rest k (length-little_digits k n)

-- `varbyteint_to_int` and `read_varbyteint_return` find the number, its size and its bytes at the
-- front of the nine bytes that they look at.
varbyteint_to_int-window :
    (n : ℕ) (code rest : List ℕ)
    → Encodes n code
    → varbyteint_to_int (take 9 (code ++ rest)) ≡ (n, length code)
unfolding varbyteint_to_int
varbyteint_to_int-window n code rest (short small e) = rw e (ground arith)
varbyteint_to_int-window n code rest (long marker lo hi fits e) =
    let k = extra_size marker in
    rw e (
      ground (
        arith,
        window_digits k n rest (extra_size-le marker).1,
        from_little-little_digits k n,
        length-little_digits k n,
      ))

return_parts-window :
    (n : ℕ) (code rest : List ℕ) (pos : ℕ) (s : Stream)
    → Encodes n code
    → return_parts (take 9 (code ++ rest)) pos s ≡ ((n, code), seek (pos + length code) s)
unfolding return_parts
return_parts-window n code rest pos s (short small e) = rw e (ground arith)
return_parts-window n code rest pos s (long marker lo hi fits e) =
    let k = extra_size marker in
    rw e (
      ground (
        arith,
        window_digits k n rest (extra_size-le marker).1,
        from_little-little_digits k n,
        length-little_digits k n,
      ))

-- At a stream that goes on with the encoding of `n`, both stream readers return `n`, the second
-- with the bytes of the encoding, and both leave the stream just behind it.
pub read_varbyteint-int_to_varbyteint :
    (n : ℕ) (code rest : List ℕ) (s : Stream)
    → int_to_varbyteint n ≡ ok code
    → remaining s ≡ code ++ rest
    → ((read_varbyteint s).0 ≡ n)
      × (remaining (read_varbyteint s).1 ≡ rest)
      × ((read_varbyteint_return s).0 ≡ (n, code))
      × (remaining (read_varbyteint_return s).1 ≡ rest)
unfolding read_varbyteint read_varbyteint_return
read_varbyteint-int_to_varbyteint n code rest s h e =
    let shape = (int_to_varbyteint-Encodes n code h).0 in
    rw
      (
        e,
        varbyteint_to_int-window n code rest shape,
        return_parts-window n code rest s.position _ shape,
      )
      (refl, behind, refl, behind)
  where
    behind : drop (s.position + length code) s.buffer ≡ rest
    behind =
        sym (drop-drop s.position (length code) s.buffer)
        ∙ rw e (drop-append code rest (length code) refl)

-- The stream reader leaves the buffer alone and moves on by the length of the encoding.
pub read_varbyteint-seek :
    (n : ℕ) (code rest : List ℕ) (s : Stream)
    → int_to_varbyteint n ≡ ok code
    → remaining s ≡ code ++ rest
    → read_varbyteint s ≡ (n, seek (s.position + length code) s)
unfolding read_varbyteint
read_varbyteint-seek n code rest s h e =
    rw (e, varbyteint_to_int-window n code rest (int_to_varbyteint-Encodes n code h).0) refl
