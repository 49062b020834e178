-- ===== src/Common/Powers.antt =====
-- Powers of two, and division and remainder by them.
use Prim.Native.Nat.{ℕ, zero, suc, ◌+◌, ◌*◌, ◌/◌, ◌%◌, ◌^◌, ◌<◌}
use mathlib.Core.Path.{◌≡◌, ap, ◌∙◌}
use native.Mathlib.Nat.{
  pow-suc, pow-zero, one-le-pow, mul_assoc, div-add-mod', mul-add-div_right, div-eq_of_lt,
}
use native.Mathlib.Omega.{arith}

pub pow-add : (b n m : ℕ) → b ^ (n + m) ≡ b ^ n * b ^ m
pow-add b n zero = let e : n + 0 ≡ n = omega arith in rw (e, pow-zero b) (omega arith)
pow-add b n (suc m) =
    let e : n + suc m ≡ suc (n + m) = omega arith in
    rw (e, pow-suc b (n + m), pow-add b n m, pow-suc b m) (mul_assoc (b ^ n) (b ^ m) b)

pub two-pow-pos : (k : ℕ) → 0 < 2 ^ k
two-pow-pos k = one-le-pow k 2 (omega arith)

-- A number is its quotient and remainder in one way.
pub div_mod_unique : (q r m : ℕ) → r < m → ((q * m + r) / m ≡ q) × ((q * m + r) % m ≡ r)
div_mod_unique q r m h =
    let e : (q * m + r) / m ≡ q =
      mul-add-div_right (omega arith) q r ∙ omega (arith, div-eq_of_lt h) in
    (e, omega (arith, div-add-mod' (q * m + r) m, ap (λ (t : ℕ). t * m) e))
