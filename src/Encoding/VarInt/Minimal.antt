-- ===== src/Encoding/VarInt/Minimal.antt =====
-- Which encodings of `int_to_varbyteint` are the shortest ones that `varbyteint_to_int` accepts.
use bitcoinlib.Common.{
  ℕ, zero, suc, ◌^◌, ◌≤◌, ◌<◌, ◌≡◌, ◌≢◌, refl, ap, ◌⊎◌, List, [], ◌∷◌, ok, arith, length, take, ltb,
  if◌then◌else◌,
}
use bitcoinlib.Encoding.Bytes.{IsBytes}
use bitcoinlib.Encoding.Bytes.Laws.{from_little-lt, length-little_digits}
use bitcoinlib.Encoding.VarInt.{varbyteint_to_int, int_to_varbyteint}

-- The length that the encoder's tests choose.
abbrev chosen_length : ℕ → ℕ
chosen_length n =
    if ltb n 0xfd then 1 else if ltb n 0xffff then 3 else if ltb n 0xffff_ffff then 5 else 9

length-int_to_varbyteint :
    (n : ℕ) (code : List ℕ) → int_to_varbyteint n ≡ ok code → length code ≡ chosen_length n
unfolding int_to_varbyteint
length-int_to_varbyteint n code h = ground (
  arith,
  length-little_digits 1 n,
  length-little_digits 2 n,
  length-little_digits 4 n,
  length-little_digits 8 n,
)

take_all : (k : ℕ) (xs : List ℕ) → length xs ≡ k → take k xs ≡ xs
take_all zero [] h = refl
take_all zero (x ∷ xs) h = absurd (omega arith)
take_all (suc k) [] h = absurd (omega arith)
take_all (suc k) (x ∷ xs) h = ap (λ t. x ∷ t) (take_all k xs (omega arith))

-- What a whole byte string can stand for, by its length.
accepted_bound :
    (n m : ℕ) (rest : List ℕ)
    → IsBytes (m ∷ rest)
    → varbyteint_to_int (m ∷ rest) ≡ (n, length (m ∷ rest))
    → (n < 253) × (length rest ≡ 0)
      ⊎ (length rest ≡ 2) × (n < 256 ^ 2)
      ⊎ (length rest ≡ 4) × (n < 256 ^ 4)
      ⊎ (length rest ≡ 8)
unfolding varbyteint_to_int
accepted_bound n m rest bytes h =
    ground (arith, take_all 2 rest, take_all 4 rest, from_little-lt rest bytes.1)

-- Except for 65535 and 4294967295, no byte string that decodes to the number, with all of its bytes
-- read and at least one, is shorter than the encoding.
pub int_to_varbyteint_shortest :
    (n : ℕ) (code other : List ℕ)
    → n ≢ 0xffff
    → n ≢ 0xffff_ffff
    → int_to_varbyteint n ≡ ok code
    → IsBytes other
    → other ≢ []
    → varbyteint_to_int other ≡ (n, length other)
    → length code ≤ length other
int_to_varbyteint_shortest n code [] a b h bytes full e = absurd (full refl)
int_to_varbyteint_shortest n code (m ∷ rest) a b h bytes full e =
    ground (arith, length-int_to_varbyteint n code h, accepted_bound n m rest bytes e)
