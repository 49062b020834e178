-- ===== src/Encoding/Bech32/Checksum.antt =====
-- The polymod of bitcoinlib/encoding.py is linear in its last values, so the appended checksum is
-- the one that decoders accept.
use bitcoinlib.Common.{
  ℕ, suc, ◌+◌, ◌*◌, ◌/◌, ◌%◌, ◌^◌, ◌<◌, ◌≡◌, refl, sym, ap, ◌∙◌, List, [], ◌∷◌, All, bit_and,
  bit_xor, arith, ◌==◌, if◌then◌else◌,
}
use bitcoinlib.Common.Powers.{div_mod_unique}
use bitcoinlib.Common.Bits.{xor_comm, xor_assoc, xor-zero, xor_fields, bit_and_mask}
use bitcoinlib.Encoding.Bech32.{generator, mix_generators, polymod_round}

mix_generators-xor :
    (i : ℕ) (gs : List ℕ) (top x y : ℕ)
    → mix_generators i gs top (bit_xor x y) ≡ bit_xor (mix_generators i gs top x) y
unfolding mix_generators
mix_generators-xor i [] top x y = refl
mix_generators-xor i (g ∷ gs) top x y =
    let m = if bit_and (top / 2 ^ i) 1 == 0 then 0 else g in
    let swap : bit_xor (bit_xor x y) m ≡ bit_xor (bit_xor x m) y =
      xor_assoc x y m ∙ ap (λ t. bit_xor x t) (xor_comm y m) ∙ sym (xor_assoc x m y) in
    rw swap (mix_generators-xor (suc i) gs top (bit_xor x m) y)

mix_generators-lt :
    (i : ℕ) (gs : List ℕ) (top x : ℕ)
    → All (λ g. g < 2 ^ 30) gs
    → x < 2 ^ 30
    → mix_generators i gs top x < 2 ^ 30
unfolding mix_generators
mix_generators-lt i [] top x h k = k
mix_generators-lt i (g ∷ gs) top x h k =
    mix_generators-lt (suc i) gs top _ h.1 (xor_fields 30 0 0 x _ k small).1
  where
    small : (if bit_and (top / 2 ^ i) 1 == 0 then 0 else g) < 2 ^ 30
    small = ground (arith, h.0)

-- The round of a zero stays below 2 ^ 30.
pub polymod_round-lt : (chk : ℕ) → polymod_round chk 0 < 2 ^ 30
unfolding polymod_round
polymod_round-lt chk =
    mix_generators-lt 0 generator (chk / 2 ^ 25) _
      (omega arith, (omega arith, (omega arith, (omega arith, (omega arith, tt)))))
      (rw (xor-zero (bit_and chk 0x1ff_ffff * 2 ^ 5)) (omega (arith, bit_and_mask 25 chk)))

split_difference :
    (chk e : ℕ)
    → e < 2 ^ 25
    → (bit_xor chk e / 2 ^ 25 ≡ chk / 2 ^ 25)
      × (bit_and (bit_xor chk e) 0x1ff_ffff ≡ bit_xor (bit_and chk 0x1ff_ffff) e)
split_difference chk e h =
    let low : chk % 2 ^ 25 < 2 ^ 25 = omega arith in
    let fields = xor_fields 25 (chk / 2 ^ 25) 0 (chk % 2 ^ 25) e low h in
    let whole : chk / 2 ^ 25 * 2 ^ 25 + chk % 2 ^ 25 ≡ chk = omega arith in
    let at_e : 0 * 2 ^ 25 + e ≡ e = omega arith in
    let sum = rw (whole, at_e, xor-zero (chk / 2 ^ 25)) at fields.0 in
    let parts = div_mod_unique (chk / 2 ^ 25) (bit_xor (chk % 2 ^ 25) e) (2 ^ 25) fields.1 in
    (
      rw sum parts.0,
      rw (bit_and_mask 25 chk, bit_and_mask 25 (bit_xor chk e)) (rw (← sum) at parts.1),
    )

shift_difference :
    (r e d : ℕ) → d < 32 → bit_xor (bit_xor r e * 2 ^ 5) d ≡ bit_xor (r * 2 ^ 5) (e * 32 + d)
shift_difference r e d h =
    let left = (xor_fields 5 (bit_xor r e) 0 0 d (omega arith) h).0 in
    let right = (xor_fields 5 r e 0 d (omega arith) h).0 in
    let a : bit_xor r e * 2 ^ 5 + 0 ≡ bit_xor r e * 2 ^ 5 = omega arith in
    let b : 0 * 2 ^ 5 + d ≡ d = omega arith in
    let c : r * 2 ^ 5 + 0 ≡ r * 2 ^ 5 = omega arith in
    (rw (a, b, xor-zero (bit_xor r e)) at left) ∙ sym (rw c at right)

-- A difference in the lowest bits is shifted past the next value.
pub polymod_round-xor :
    (chk e d : ℕ)
    → e < 2 ^ 25
    → d < 32
    → polymod_round (bit_xor chk e) d ≡ bit_xor (polymod_round chk 0) (e * 32 + d)
unfolding polymod_round
polymod_round-xor chk e d he hd =
    let (top, low) = split_difference chk e he in
    rw
      (
        top,
        low,
        shift_difference (bit_and chk 0x1ff_ffff) e d hd,
        xor-zero (bit_and chk 0x1ff_ffff * 2 ^ 5),
      )
      (mix_generators-xor 0 generator (chk / 2 ^ 25) (bit_and chk 0x1ff_ffff * 2 ^ 5) (e * 32 + d))
