-- ===== src/Encoding/Bytes/Laws.antt =====
-- Numbers and their base-256 digits determine one another.
use bitcoinlib.Common.{
  ℕ, zero, suc, ◌+◌, ◌*◌, ◌/◌, ◌^◌, ◌≤◌, ◌<◌, ◌≡◌, refl, sym, ap, ◌∙◌, List, [], ◌∷◌, ◌++◌, reverse,
  reverse-append, reverse-reverse, arith, length,
}
use bitcoinlib.Encoding.Bytes.{IsBytes, from_little, from_big, little_digits, lstrip_zeros}
use mathlib.Core.Path.{ap₂}
use native.Mathlib.Nat.{pow-suc}

pub length-little_digits : (size n : ℕ) → length (little_digits size n) ≡ size
unfolding little_digits
length-little_digits zero n = refl
length-little_digits (suc size) n = ap suc (length-little_digits size (n / 256))

pub little_digits-IsBytes : (size n : ℕ) → IsBytes (little_digits size n)
unfolding little_digits
little_digits-IsBytes zero n = tt
little_digits-IsBytes (suc size) n = (omega arith, little_digits-IsBytes size (n / 256))

pub from_little-little_digits :
    (size n : ℕ) → n < 256 ^ size → from_little (little_digits size n) ≡ n
unfolding little_digits
from_little-little_digits zero n h = omega arith
from_little-little_digits (suc size) n h =
    omega (arith, from_little-little_digits size (n / 256) (omega (arith, pow-suc 256 size)))

pub from_little-lt : (bs : List ℕ) → IsBytes bs → from_little bs < 256 ^ length bs
from_little-lt [] h = omega arith
from_little-lt (b ∷ bs) h = omega (arith, h.0, from_little-lt bs h.1, pow-suc 256 (length bs))

pub from_little-append :
    (xs ys : List ℕ) → from_little (xs ++ ys) ≡ from_little xs + 256 ^ length xs * from_little ys
from_little-append [] ys = omega arith
from_little-append (x ∷ xs) ys =
    omega (
      arith,
      from_little-append xs ys,
      ap (λ (t : ℕ). t * from_little ys) (pow-suc 256 (length xs)),
    )

-- Byte strings of one length are equal where their numbers are.
pub from_little-injective :
    (xs ys : List ℕ)
    → IsBytes xs
    → IsBytes ys
    → length xs ≡ length ys
    → from_little xs ≡ from_little ys
    → xs ≡ ys
from_little-injective [] [] h k l e = refl
from_little-injective [] (y ∷ ys) h k l e = absurd (omega arith)
from_little-injective (x ∷ xs) [] h k l e = absurd (omega arith)
from_little-injective (x ∷ xs) (y ∷ ys) h k l e =
    ap₂ ◌∷◌ (omega (arith, h.0, k.0))
      (from_little-injective xs ys h.1 k.1 (omega arith) (omega (arith, h.0, k.0)))

pub from_big-little_digits :
    (size n : ℕ) → n < 256 ^ size → from_big (reverse (little_digits size n)) ≡ n
from_big-little_digits size n h =
    rw (reverse-reverse (little_digits size n)) (from_little-little_digits size n h)

-- Leading zeros do not count in big-endian order.
pub from_big-lstrip_zeros : (bs : List ℕ) → from_big (lstrip_zeros bs) ≡ from_big bs
from_big-lstrip_zeros [] = refl
from_big-lstrip_zeros (zero ∷ bs) =
    from_big-lstrip_zeros bs
    ∙ sym (
        ap from_little (reverse-append (0 ∷ []) bs)
        ∙ omega (arith, from_little-append (reverse bs) (0 ∷ [])))
from_big-lstrip_zeros (suc b ∷ bs) = refl

pub from_big-zero_cons : (bs : List ℕ) → from_big (0 ∷ bs) ≡ from_big bs
from_big-zero_cons bs =
    ap from_little (reverse-append (0 ∷ []) bs)
    ∙ omega (arith, from_little-append (reverse bs) (0 ∷ []))

pub length-lstrip_zeros : (bs : List ℕ) → length (lstrip_zeros bs) ≤ length bs
length-lstrip_zeros [] = omega arith
length-lstrip_zeros (zero ∷ bs) = omega (arith, length-lstrip_zeros bs)
length-lstrip_zeros (suc b ∷ bs) = omega arith
