-- ===== src/Encoding/ConvertBits/Fields.antt =====
-- The bit fields that `convertbits` of bitcoinlib/encoding.py shifts in and out.
use bitcoinlib.Common.{ℕ, ◌+◌, ◌*◌, ◌/◌, ◌%◌, ◌^◌, ◌<◌, ◌≡◌, refl, sym, ap, ◌∙◌, arith}
use bitcoinlib.Common.Powers.{pow-add, two-pow-pos, div_mod_unique}
use native.Mathlib.Nat.{add-mul, mul_assoc, mul_comm, mod-lt, div-add-mod', mul-le-mul_right}

-- The lowest b + t bits are a field of t bits over one of b bits.
pub mod_fields : (a b t : ℕ) → a % 2 ^ (b + t) ≡ a / 2 ^ b % 2 ^ t * 2 ^ b + a % 2 ^ b
mod_fields a b t =
    let q = a / 2 ^ b in
    let low = mod-lt a (two-pow-pos b) in
    let high = mod-lt q (two-pow-pos t) in
    let whole : a ≡ q / 2 ^ t * 2 ^ (b + t) + (q % 2 ^ t * 2 ^ b + a % 2 ^ b) = omega (
      arith,
      div-add-mod' a (2 ^ b),
      ap (λ (x : ℕ). x * 2 ^ b) (div-add-mod' q (2 ^ t)),
      add-mul (q / 2 ^ t * 2 ^ t) (q % 2 ^ t) (2 ^ b),
      mul_assoc (q / 2 ^ t) (2 ^ t) (2 ^ b),
      ap (λ (x : ℕ). q / 2 ^ t * x) (mul_comm (2 ^ t) (2 ^ b) ∙ sym (pow-add 2 b t)),
    ) in
    let small : q % 2 ^ t * 2 ^ b + a % 2 ^ b < 2 ^ (b + t) = omega (
      arith,
      low,
      pow-add 2 b t,
      mul_comm (2 ^ t) (2 ^ b),
      mul-le-mul_right (2 ^ b) high,
      add-mul (q % 2 ^ t) 1 (2 ^ b),
    ) in
    ap (λ x. x % 2 ^ (b + t)) whole ∙ (div_mod_unique (q / 2 ^ t) _ (2 ^ (b + t)) small).1

pub mod_low : (a b t : ℕ) → a % 2 ^ (b + t) % 2 ^ b ≡ a % 2 ^ b
mod_low a b t =
    rw (mod_fields a b t)
      (div_mod_unique (a / 2 ^ b % 2 ^ t) (a % 2 ^ b) (2 ^ b) (mod-lt a (two-pow-pos b))).1

-- A value of f bits is shifted in.
pub shift_in :
    (acc v b f : ℕ) → v < 2 ^ f → (acc * 2 ^ f + v) % 2 ^ (f + b) ≡ acc % 2 ^ b * 2 ^ f + v
shift_in acc v b f h =
    let (q, r) = div_mod_unique acc v (2 ^ f) h in mod_fields (acc * 2 ^ f + v) f b ∙ rw (q, r) refl
