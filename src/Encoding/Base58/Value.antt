-- ===== src/Encoding/Base58/Value.antt =====
-- What the string that `base58encode` of bitcoinlib/encoding.py returns stands for.
use bitcoinlib.Common.{
  ℕ, zero, suc, ◌+◌, ◌-◌, ◌*◌, ◌/◌, ◌%◌, ◌≤◌, ◌<◌, ◌≡◌, ◌≢◌, refl, sym, ap, ◌∙◌, List, [], ◌∷◌,
  ◌++◌, Bool, true, false, ◌&&◌, not, Option, none, some, ◌==◌, get_elem?, length, replicate, arith,
  if◌then◌else◌,
}
use bitcoinlib.Common.Bits.{every, every-true}
use bitcoinlib.Encoding.Bytes.{from_big, lstrip_zeros}
use bitcoinlib.Encoding.Bytes.Laws.{from_big-lstrip_zeros}
use bitcoinlib.Encoding.Base58.{code_str, write_digits, base58encode}
use mathlib.Core.Bool.{false≢true}

-- The place of a character in the code string, counted from `i` on.
abbrev index_of : ℕ → ℕ → List ℕ → ℕ
index_of i c [] = i
index_of i c (d ∷ ds) = if c == d then i else index_of (i + 1) c ds

-- The number that a string stands for in base 58, behind `e`.
abbrev pub value_from : ℕ → List ℕ → ℕ
value_from e [] = e
value_from e (c ∷ cs) = value_from (e * 58 + index_of 0 c code_str) cs

abbrev pub leading_ones : List ℕ → ℕ
leading_ones [] = 0
leading_ones (c ∷ cs) = if c == 49 then suc (leading_ones cs) else 0

-- The character of a digit, as a test.
fits : Option ℕ → ℕ → Bool
fits none d = false
fits (some c) d = (index_of 0 c code_str == d) && (if d == 0 then true else not (c == 49))

digit_table : every (λ d. fits (get_elem? code_str d) d) 58 ≡ true
unfolding every fits
digit_table = refl

-- Every digit has a character, which is `1` for the digit 0 alone.
record IsDigit (d c : ℕ) : Type 0 where
  pub stands : get_elem? code_str d ≡ some c
  pub index : index_of 0 c code_str ≡ d
  pub nonzero : 0 < d → c ≢ 49

digit_from :
    (d : ℕ) (o : Option ℕ) → get_elem? code_str d ≡ o → fits o d ≡ true → (c : ℕ) × IsDigit d c
unfolding fits
digit_from d none e h = absurd (false≢true h)
digit_from d (some c) e h =
    let (i, n) = parts (index_of 0 c code_str) h in
    (c, record { stands = e; index = i; nonzero = n })
  where
    parts :
        (i : ℕ)
        → ((i == d) && (if d == 0 then true else not (c == 49))) ≡ true
        → (i ≡ d) × (0 < d → c ≢ 49)
    parts i h = (ground arith, λ p. ground (arith, p))

digit : (d : ℕ) → d < 58 → (c : ℕ) × IsDigit d c
digit d h =
    digit_from d (get_elem? code_str d) refl
      (every-true (λ d. fits (get_elem? code_str d) d) 58 d h digit_table)

write_digits-suc :
    (fuel acc c : ℕ) (string : List ℕ)
    → get_elem? code_str (suc acc % 58) ≡ some c
    → write_digits (suc fuel) (suc acc) string ≡ write_digits fuel (suc acc / 58) (c ∷ string)
unfolding write_digits
write_digits-suc fuel acc c string e = rw (e, write_digits) refl

not_one : (c : ℕ) (string : List ℕ) → c ≢ 49 → leading_ones (c ∷ string) ≡ 0
not_one c string h = ground (arith, h)

-- The digits of a positive number do not begin with `1`, and stand for it.
write_digits_lem :
    (fuel acc : ℕ) (string : List ℕ)
    → 0 < acc
    → acc ≤ fuel
    → (leading_ones (write_digits fuel acc string) ≡ 0)
      × (value_from 0 (write_digits fuel acc string) ≡ value_from acc string)
write_digits_lem zero acc string p h = absurd (omega arith)
write_digits_lem (suc fuel) zero string p h = absurd (omega arith)
write_digits_lem (suc fuel) (suc acc) string p h =
    let (c, q) = digit (suc acc % 58) (omega arith) in
    rw (write_digits-suc fuel acc c string q.stands)
      (by_rest (suc acc / 58) refl c q (λ rest p h. write_digits_lem fuel rest (c ∷ string) p h))
  where
    by_rest :
        (rest : ℕ)
        → suc acc / 58 ≡ rest
        → (c : ℕ) → IsDigit (suc acc % 58) c
        → ((rest : ℕ)
            → 0 < rest
            → rest ≤ fuel
            → (leading_ones (write_digits fuel rest (c ∷ string)) ≡ 0)
              × (value_from 0 (write_digits fuel rest (c ∷ string)) ≡ value_from rest (c ∷ string)))
        → (leading_ones (write_digits fuel rest (c ∷ string)) ≡ 0)
          × (value_from 0 (write_digits fuel rest (c ∷ string)) ≡ value_from (suc acc) string)
    by_rest zero e c q ih =
        let other : c ≢ 49 = q.nonzero (omega (arith, e)) in
        let number : 0 * 58 + suc acc % 58 ≡ suc acc = omega (arith, e) in
        unfold write_digits in
        (
          not_one c string other,
          ap (λ t. value_from t string) (ap (λ i. 0 * 58 + i) (q.index) ∙ number),
        )
    by_rest (suc rest) e c q ih =
        let (l, v) = ih (suc rest) (omega arith) (omega (arith, e)) in
        let number : suc rest * 58 + suc acc % 58 ≡ suc acc = omega (arith, e) in
        (l, v ∙ ap (λ t. value_from t string) (ap (λ i. suc rest * 58 + i) (q.index) ∙ number))

ones :
    (n : ℕ) (string : List ℕ)
    → (leading_ones (replicate n 49 ++ string) ≡ n + leading_ones string)
      × (value_from 0 (replicate n 49 ++ string) ≡ value_from 0 string)
ones zero string = (omega arith, refl)
ones (suc n) string = let (l, v) = ones n string in (omega (arith, l), v)

-- The string that `base58encode` returns has as many leading `1` as the bytes have leading zeros,
-- and its value in base 58 is the number of the bytes.
pub base58encode_lem :
    (inp : List ℕ)
    → (leading_ones (base58encode inp) ≡ length inp - length (lstrip_zeros inp))
      × (value_from 0 (base58encode inp) ≡ from_big inp)
unfolding base58encode
base58encode_lem inp = by_number (from_big (lstrip_zeros inp)) refl
  where
    zeros : ℕ
    zeros = length inp - length (lstrip_zeros inp)

    by_number :
        (n : ℕ)
        → from_big (lstrip_zeros inp) ≡ n
        → (leading_ones (replicate zeros 49 ++ write_digits n n []) ≡ zeros)
          × (value_from 0 (replicate zeros 49 ++ write_digits n n []) ≡ from_big inp)
    by_number zero e =
        let (l, v) = ones zeros [] in
        unfold write_digits in (omega (arith, l), v ∙ sym e ∙ from_big-lstrip_zeros inp)
    by_number (suc n) e =
        let (l, v) = ones zeros (write_digits (suc n) (suc n) []) in
        let (l', v') = write_digits_lem (suc n) (suc n) [] (omega arith) (omega arith) in
        (omega (arith, l, l'), v ∙ v' ∙ sym e ∙ from_big-lstrip_zeros inp)
