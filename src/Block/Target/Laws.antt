-- ===== src/Block/Target/Laws.antt =====
-- What `Block.check_proof_of_work` and `Block.version_bin` of bitcoinlib/blocks.py promise.
use bitcoinlib.Common.{
  ℕ, zero, suc, ◌+◌, ◌-◌, ◌*◌, ◌/◌, ◌%◌, ◌^◌, ◌<◌, ◌≤◌, ◌≡◌, refl, sym, ap, ◌∙◌, List, [], ◌∷◌,
  ◌++◌, reverse, reverse-append, true, false, ltb, ltb→lt, ◌==◌, length, length-append,
  length-replicate, length-reverse, take, replicate, All, All-append, All-reverse, arith,
}
use bitcoinlib.Common.Powers.{pow-add}
use native.Mathlib.Nat.{pow-suc, mul-suc, mul-le-mul_right}
use bitcoinlib.Encoding.Bytes.{IsByte, IsBytes, from_little, from_big}
use bitcoinlib.Encoding.Bytes.Laws.{from_little-append, from_little-lt, from_big-zero_cons}
use bitcoinlib.Block.{Bytes, Block}
use bitcoinlib.Block.Target.{
  target_of, meets_target, check_proof_of_work, binary, bin_digits, zfill, version_bin,
}

from_big-cons : (b : ℕ) (bs : Bytes) → from_big (b ∷ bs) ≡ from_big bs + 256 ^ length bs * b
from_big-cons b bs =
    ap from_little (reverse-append (b ∷ []) bs)
    ∙ omega
        (arith, from_little-append (reverse bs) (b ∷ []), ap (λ n. 256 ^ n * b) (length-reverse bs))

pow-le : (n e : ℕ) → 256 ^ e ≤ 256 ^ (n + e)
pow-le zero e = let same : zero + e ≡ e = omega arith in rw same (omega arith)
pow-le (suc n) e =
    let same : suc n + e ≡ suc (n + e) = omega arith in
    rw (same, pow-suc 256 (n + e)) (omega (arith, pow-le n e))

times_pos : (p b : ℕ) → p ≤ p * suc b
times_pos p b = omega (arith, mul-suc p b)

-- A number below 256 ^ e has zeros in front of its last e bytes.
leading_zeros :
    (n e : ℕ) (xs : Bytes) → length xs ≡ n + e → from_big xs < 256 ^ e → take n xs ≡ replicate n 0
leading_zeros zero e xs h small = refl
leading_zeros (suc n) e [] h small = absurd (omega arith)
leading_zeros (suc n) e (zero ∷ bs) h small =
    ap (λ t. 0 ∷ t) (leading_zeros n e bs (omega arith) (omega (arith, from_big-cons 0 bs)))
leading_zeros (suc n) e (suc b ∷ bs) h small =
    let long : length bs ≡ n + e = omega arith in
    let more = rw long at (from_big-cons (suc b) bs) in
    absurd (omega (arith, more, times_pos (256 ^ (n + e)) b, pow-le n e))

meets_target-lt :
    (hash coefficient : Bytes) (e : ℕ)
    → 3 ≤ e
    → meets_target hash (e ∷ coefficient) ≡ true
    → from_big hash < from_big coefficient * 256 ^ (e - 3)
unfolding meets_target target_of
meets_target-lt [] coefficient e low h = cc
meets_target-lt (x ∷ xs) coefficient e low h =
    let high : ltb e 3 ≡ false = ground arith in
    let h' = rw (high, from_big-zero_cons coefficient) at h in omega (arith, ltb→lt _ _ h')

-- Three bytes above e - 3 others.
scaled_lt :
    (coefficient : Bytes) (e : ℕ)
    → IsBytes coefficient
    → length coefficient ≡ 3
    → 3 ≤ e
    → from_big coefficient * 256 ^ (e - 3) ≤ 256 ^ e
scaled_lt coefficient e bytes three low =
    let whole : 3 + (e - 3) ≡ e = omega arith in
    let split = rw whole at (pow-add 256 3 (e - 3)) in
    let n : length (reverse coefficient) ≡ 3 = length-reverse coefficient ∙ three in
    let small : from_big coefficient < 256 ^ 3 =
      rw n at (from_little-lt (reverse coefficient) (All-reverse IsByte coefficient bytes)) in
    omega (
      arith,
      split,
      mul-le-mul_right {m = from_big coefficient} {n = 256 ^ 3} (256 ^ (e - 3))
          (omega (arith, small)),
    )

module _ {A : Type 0} where
  -- A hash of 32 bytes that passes the check is below the target that the bits stand for, so that
  -- its first bytes are 0: as many as the exponent of the bits falls short of 32. The bits are an
  -- exponent from 3 to 32 and a coefficient of three bytes.
  pub check_proof_of_work-zeros :
      (b : Block A) (e : ℕ) (coefficient : Bytes)
      → b.bits ≡ e ∷ coefficient
      → IsBytes coefficient
      → length coefficient ≡ 3
      → 3 ≤ e
      → e ≤ 32
      → length b.block_hash ≡ 32
      → check_proof_of_work b ≡ true
      → (from_big b.block_hash < from_big coefficient * 256 ^ (e - 3))
        × (take (32 - e) b.block_hash ≡ replicate (32 - e) 0)
  unfolding check_proof_of_work
  check_proof_of_work-zeros b e coefficient bits bytes three low high long h =
      let below =
        meets_target-lt b.block_hash coefficient e low
          (ap (meets_target b.block_hash) (sym bits) ∙ h) in
      (
        below,
        leading_zeros (32 - e) e b.block_hash (omega arith)
            (omega (arith, below, scaled_lt coefficient e bytes three low)),
      )

-- The number that binary digits stand for, highest first, behind `acc`.
abbrev pub from_bits : ℕ → List ℕ → ℕ
from_bits acc [] = acc
from_bits acc (d ∷ ds) = from_bits (acc * 2 + d) ds

abbrev pub IsBits : List ℕ → Type 0
IsBits = All (λ d. d < 2)

from_bits-binary :
    (fuel n : ℕ) (acc : List ℕ) → n ≤ fuel → from_bits 0 (binary fuel n acc) ≡ from_bits n acc
unfolding binary
from_bits-binary zero n acc h = let same : 0 ≡ n = omega arith in ap (λ x. from_bits x acc) same
from_bits-binary (suc fuel) zero acc h = refl
from_bits-binary (suc fuel) (suc n) acc h =
    let digits : suc n / 2 * 2 + suc n % 2 ≡ suc n = omega arith in
    let more : (suc n == 0) ≡ false = ground arith in
    rw more (
      from_bits-binary fuel (suc n / 2) ((suc n % 2) ∷ acc) (omega arith)
      ∙ ap (λ x. from_bits x acc) digits)

binary-IsBits : (fuel n : ℕ) (acc : List ℕ) → IsBits acc → IsBits (binary fuel n acc)
unfolding binary
binary-IsBits zero n acc h = h
binary-IsBits (suc fuel) zero acc h = h
binary-IsBits (suc fuel) (suc n) acc h =
    let more : (suc n == 0) ≡ false = ground arith in
    rw more (binary-IsBits fuel (suc n / 2) ((suc n % 2) ∷ acc) (omega arith, h))

length-binary :
    (fuel n k : ℕ) (acc : List ℕ) → n < 2 ^ k → length (binary fuel n acc) ≤ k + length acc
unfolding binary
length-binary zero n k acc h = omega arith
length-binary (suc fuel) zero k acc h = omega arith
length-binary (suc fuel) (suc n) zero acc h = absurd (omega arith)
length-binary (suc fuel) (suc n) (suc k) acc h =
    let more : (suc n == 0) ≡ false = ground arith in
    rw more (
      omega
        (arith, length-binary fuel (suc n / 2) k ((suc n % 2) ∷ acc) (omega (arith, pow-suc 2 k))))

from_bits-zeros : (k : ℕ) (ds : List ℕ) → from_bits 0 (replicate k 0 ++ ds) ≡ from_bits 0 ds
from_bits-zeros zero ds = refl
from_bits-zeros (suc k) ds = from_bits-zeros k ds

zeros-IsBits : (k : ℕ) → IsBits (replicate k 0)
zeros-IsBits zero = tt
zeros-IsBits (suc k) = (omega arith, zeros-IsBits k)

bin_digits-zero : bin_digits 0 ≡ 0 ∷ []
unfolding bin_digits
bin_digits-zero = refl

bin_digits-binary : (n : ℕ) → bin_digits (suc n) ≡ binary (suc n) (suc n) []
unfolding bin_digits
bin_digits-binary n = let more : (suc n == 0) ≡ false = ground arith in rw more refl

bin_digits_lem :
    (n : ℕ)
    → n < 2 ^ 32
    → (from_bits 0 (bin_digits n) ≡ n) × IsBits (bin_digits n) × (length (bin_digits n) ≤ 32)
bin_digits_lem zero h = rw bin_digits-zero (refl, (omega arith, tt), omega arith)
bin_digits_lem (suc n) h = rw (bin_digits-binary n) (
  from_bits-binary (suc n) (suc n) [] (omega arith),
  binary-IsBits (suc n) (suc n) [] tt,
  omega (arith, length-binary (suc n) (suc n) 32 [] h),
)

module _ {A : Type 0} where
  -- The binary string of a version of four bytes has exactly 32 digits, each of them 0 or 1, and
  -- they stand for the version.
  pub version_bin_lem :
      (b : Block A)
      → b.version_int < 2 ^ 32
      → (length (version_bin b) ≡ 32)
        × IsBits (version_bin b)
        × (from_bits 0 (version_bin b) ≡ b.version_int)
  unfolding version_bin zfill
  version_bin_lem b h =
      let s = bin_digits b.version_int in
      let (value, bits, short) = bin_digits_lem b.version_int h in
      (
        omega (
          arith,
          short,
          length-append (replicate (32 - length s) 0) s,
          length-replicate {A = ℕ} (32 - length s) 0,
        ),
        All-append (λ d. d < 2) (replicate (32 - length s) 0) s (zeros-IsBits (32 - length s)) bits,
        from_bits-zeros (32 - length s) s ∙ value,
      )
