-- ===== src/Encoding/ConvertBits/Digits.antt =====
-- Lists of digits of one width, for `convertbits` of bitcoinlib/encoding.py.
use bitcoinlib.Common.{
  ℕ, suc, ◌+◌, ◌*◌, ◌/◌, ◌%◌, ◌^◌, ◌<◌, ◌≡◌, refl, List, [], ◌∷◌, ◌++◌, length, All, arith,
}
use bitcoinlib.Common.Powers.{div_mod_unique}
use mathlib.Core.Path.{ap₂, sym, ap, ◌∙◌}

abbrev pub AreDigits : ℕ → List ℕ → Type 0
AreDigits width = All (λ d. d < 2 ^ width)

-- The number that digits of `width` bits add to `e`, the first digit the highest.
unfoldable pub from_digits : ℕ → ℕ → List ℕ → ℕ
from_digits width e [] = e
from_digits width e (d ∷ ds) = from_digits width (e * 2 ^ width + d) ds

-- The bits of all digits together.
unfoldable pub total_bits : ℕ → List ℕ → ℕ
total_bits width [] = 0
total_bits width (d ∷ ds) = width + total_bits width ds

pub from_digits-append :
    (width e d : ℕ) (ds : List ℕ)
    → from_digits width e (ds ++ (d ∷ [])) ≡ from_digits width e ds * 2 ^ width + d
unfolding from_digits
from_digits-append width e d [] = refl
from_digits-append width e d (x ∷ ds) = from_digits-append width (e * 2 ^ width + x) d ds

pub total_bits-append :
    (width d : ℕ) (ds : List ℕ) → total_bits width (ds ++ (d ∷ [])) ≡ total_bits width ds + width
unfolding total_bits
total_bits-append width d [] = omega arith
total_bits-append width d (x ∷ ds) = omega (arith, total_bits-append width d ds)

-- A number of bits determines how many whole digits it has, and what is left.
pub total_bits_unique :
    (width : ℕ) (xs ys : List ℕ) (a b : ℕ)
    → a < width
    → b < width
    → total_bits width xs + a ≡ total_bits width ys + b
    → (length xs ≡ length ys) × (a ≡ b)
unfolding total_bits
total_bits_unique width [] [] a b h k e = (refl, omega arith)
total_bits_unique width [] (y ∷ ys) a b h k e = absurd (omega arith)
total_bits_unique width (x ∷ xs) [] a b h k e = absurd (omega arith)
total_bits_unique width (x ∷ xs) (y ∷ ys) a b h k e =
    let (l, c) = total_bits_unique width xs ys a b h k (omega arith) in (ap suc l, c)

pub from_digits-injective :
    (width e e' : ℕ) (xs ys : List ℕ)
    → AreDigits width xs
    → AreDigits width ys
    → length xs ≡ length ys
    → from_digits width e xs ≡ from_digits width e' ys
    → (e ≡ e') × (xs ≡ ys)
unfolding from_digits
from_digits-injective width e e' [] [] h k l p = (p, refl)
from_digits-injective width e e' [] (y ∷ ys) h k l p = absurd (omega arith)
from_digits-injective width e e' (x ∷ xs) [] h k l p = absurd (omega arith)
from_digits-injective width e e' (x ∷ xs) (y ∷ ys) h k l p =
    let (q, r) =
      from_digits-injective width (e * 2 ^ width + x) (e' * 2 ^ width + y) xs ys h.1 k.1
        (omega arith) p in
    let (a, b) = div_mod_unique e x (2 ^ width) h.0 in
    let (c, d) = div_mod_unique e' y (2 ^ width) k.0 in
    (sym a ∙ ap (λ t. t / 2 ^ width) q ∙ c, ap₂ ◌∷◌ (sym b ∙ ap (λ t. t % 2 ^ width) q ∙ d) r)
