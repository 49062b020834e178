-- ===== src/Encoding/Bech32/Verify.antt =====
-- The checksum of bitcoinlib/encoding.py is the only one that its decoder accepts.
use bitcoinlib.Common.{
  ℕ, zero, suc, ◌+◌, ◌*◌, ◌/◌, ◌%◌, ◌^◌, ◌≤◌, ◌<◌, ◌≡◌, refl, sym, ap, ◌∙◌, ◌↔◌, List, [], ◌∷◌,
  ◌++◌, replicate, length, All, bit_xor, arith,
}
use bitcoinlib.Common.Bits.{xor_cancel, xor-zero, xor_fields, bit_and_mask}
use bitcoinlib.Common.Powers.{pow-add}
use bitcoinlib.Encoding.Bech32.{
  polymod_round, polymod_from, bech32_polymod, checksum_digits, checksum,
}
use bitcoinlib.Encoding.Bech32.Checksum.{polymod_round-lt, polymod_round-xor}
use mathlib.Core.Path.{ap₂}
use native.Mathlib.Nat.{div-div-eq-div-mul}

-- The number that base-32 digits add to `e`, the first digit the highest.
accumulate : ℕ → List ℕ → ℕ
accumulate e [] = e
accumulate e (d ∷ ds) = accumulate (e * 32 + d) ds

accumulate-injective :
    (e e' : ℕ) (ds ds' : List ℕ)
    → All (λ d. d < 32) ds
    → All (λ d. d < 32) ds'
    → length ds ≡ length ds'
    → accumulate e ds ≡ accumulate e' ds'
    → (e ≡ e') × (ds ≡ ds')
unfolding accumulate
accumulate-injective e e' [] [] h k l p = (p, refl)
accumulate-injective e e' [] (d ∷ ds') h k l p = absurd (omega arith)
accumulate-injective e e' (d ∷ ds) [] h k l p = absurd (omega arith)
accumulate-injective e e' (d ∷ ds) (d' ∷ ds') h k l p =
    let (q, r) = accumulate-injective (e * 32 + d) (e' * 32 + d') ds ds' h.1 k.1 (omega arith) p in
    (omega (arith, q, h.0, k.0), ap₂ ◌∷◌ (omega (arith, q, h.0, k.0)) r)

-- What `e` must stay below where `n` digits follow in 30 bits.
room : ℕ → ℕ
room zero = 2 ^ 30
room (suc n) = room n / 32

room-le : (n : ℕ) → room n ≤ 2 ^ 30
unfolding room
room-le zero = omega arith
room-le (suc n) = omega (arith, room-le n)

polymod_from-append :
    (chk : ℕ) (values rest : List ℕ)
    → polymod_from chk (values ++ rest) ≡ polymod_from (polymod_from chk values) rest
unfolding polymod_from
polymod_from-append chk [] rest = refl
polymod_from-append chk (v ∷ values) rest = polymod_from-append (polymod_round chk v) values rest

polymod_from-xor :
    (chk e : ℕ) (ds : List ℕ)
    → All (λ d. d < 32) ds
    → e < room (length ds)
    → polymod_from (bit_xor chk e) ds
      ≡ bit_xor (polymod_from chk (replicate (length ds) 0)) (accumulate e ds)
unfolding polymod_from accumulate room
polymod_from-xor chk e [] h k = refl
polymod_from-xor chk e (d ∷ ds) h k =
    rw (polymod_round-xor chk e d (omega (arith, room-le (length ds))) h.0)
      (polymod_from-xor (polymod_round chk 0) (e * 32 + d) ds h.1 (omega (arith, h.0)))

pub checksum_digits-small :
    (n p : ℕ) → (length (checksum_digits n p) ≡ n) × All (λ d. d < 32) (checksum_digits n p)
unfolding checksum_digits
checksum_digits-small zero p = (refl, tt)
checksum_digits-small (suc n) p =
    let (l, h) = checksum_digits-small n p in
    (omega (arith, l), (omega (arith, bit_and_mask 5 (p / 2 ^ (5 * n))), h))

accumulate-checksum_digits : (n p : ℕ) → accumulate (p / 2 ^ (5 * n)) (checksum_digits n p) ≡ p
unfolding accumulate checksum_digits
accumulate-checksum_digits zero p = omega arith
accumulate-checksum_digits (suc n) p =
    let five : 5 * suc n ≡ 5 * n + 5 = omega arith in
    let halves =
      rw (← pow-add 2 (5 * n) 5, ← five) at (div-div-eq-div-mul p (2 ^ (5 * n)) (2 ^ 5)) in
    let e : p / 2 ^ (5 * suc n) * 32 + p / 2 ^ (5 * n) % 32 ≡ p / 2 ^ (5 * n) =
      omega (arith, halves) in
    rw (bit_and_mask 5 (p / 2 ^ (5 * n)), e) (accumulate-checksum_digits n p)

-- The values that follow six zeros, and those that follow six digits.
polymod_digits :
    (values ds : List ℕ)
    → length ds ≡ 6
    → All (λ d. d < 32) ds
    → bech32_polymod (values ++ ds)
      ≡ bit_xor (bech32_polymod (values ++ replicate 6 0)) (accumulate 0 ds)
unfolding bech32_polymod
polymod_digits values ds l h =
    let chk = polymod_from 1 values in
    let fits : 0 < room (length ds) = rw l (unfold room in omega arith) in
    polymod_from-append 1 values ds
    ∙ (rw (l, xor-zero chk) at (polymod_from-xor chk 0 ds h fits))
    ∙ ap (λ t. bit_xor t (accumulate 0 ds)) (sym (polymod_from-append 1 values (replicate 6 0)))

polymod_zeros-lt : (values : List ℕ) → bech32_polymod (values ++ replicate 6 0) < 2 ^ 30
unfolding bech32_polymod polymod_from
polymod_zeros-lt values = rw (polymod_from-append 1 values (replicate 6 0)) (polymod_round-lt _)

-- For a constant below 2 ^ 30, the values with their checksum have that constant as their polymod,
-- and no other six digits below 32 behind the values have it.
pub bech32_polymod-checksum :
    (checksum_xor : ℕ) (values ds : List ℕ)
    → checksum_xor < 2 ^ 30
    → length ds ≡ 6
    → All (λ d. d < 32) ds
    → (bech32_polymod (values ++ checksum checksum_xor values) ≡ checksum_xor)
      × ((bech32_polymod (values ++ ds) ≡ checksum_xor) ↔ (ds ≡ checksum checksum_xor values))
unfolding checksum
bech32_polymod-checksum checksum_xor values ds fits l h =
    let z = bech32_polymod (values ++ replicate 6 0) in
    let p = bit_xor z checksum_xor in
    let small : p < 2 ^ 30 = (xor_fields 30 0 0 z checksum_xor (polymod_zeros-lt values) fits).1 in
    let (len, digits) = checksum_digits-small 6 p in
    let top : p / 2 ^ (5 * 6) ≡ 0 = omega arith in
    let number : accumulate 0 (checksum_digits 6 p) ≡ p =
      rw top at (accumulate-checksum_digits 6 p) in
    let verified : bech32_polymod (values ++ checksum_digits 6 p) ≡ checksum_xor =
      polymod_digits values (checksum_digits 6 p) len digits
      ∙ ap (λ t. bit_xor z t) number
      ∙ xor_cancel z checksum_xor in
    (
      verified,
      (
        λ e.
            (accumulate-injective 0 0 ds (checksum_digits 6 p) h digits (omega (arith, l, len)) (
              sym (xor_cancel z (accumulate 0 ds))
              ∙ ap (λ t. bit_xor z t) (sym (polymod_digits values ds l h) ∙ e)
              ∙ sym number)).1,
        λ e. rw e verified,
      ),
    )
