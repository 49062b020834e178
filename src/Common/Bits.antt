-- ===== src/Common/Bits.antt =====
-- Laws of `^`, `&`, `|` on numbers of every width: bit fields that do not overlap are treated
-- one by one, and `^` is a commutative group in which every number is its own inverse.
use Prim.Native.Nat.{
  ℕ, zero, suc, ◌+◌, ◌*◌, ◌/◌, ◌%◌, ◌^◌, ◌-◌, ◌≤◌, ◌<◌, bit_and, bit_or, bit_xor, digits, bitwise,
  differ, min, max, bit_and-bitwise, bit_or-bitwise, bit_xor-bitwise,
}
use mathlib.Core.Path.{◌≡◌, refl, sym, ap, ◌∙◌}
use native.Mathlib.Nat.{pow-suc, div-add-mod', mod-lt}
use native.Mathlib.Omega.{arith}
use mathlib.Core.Bool.{Bool, true, ◌&&◌}
use bitcoinlib.Common.Tests.{◌==◌, ==_iff}
use bitcoinlib.Common.Powers.{two-pow-pos}

-- The digit recursion with its fuel dropped.
module _ (whole : ℕ → ℕ) (digit : ℕ → ℕ → ℕ) where
  one_more : (n x y : ℕ) → x ≤ n → digits whole digit (suc n) x y ≡ digits whole digit n x y
  one_more zero zero y p = refl
  one_more zero (suc x) y p = absurd (omega arith)
  one_more (suc n) zero y p = refl
  one_more (suc n) (suc x) y p = rw (one_more n (suc x / 2) (y / 2) (omega arith))

  enough : (n x y : ℕ) → x ≤ n → digits whole digit n x y ≡ bitwise whole digit x y
  enough zero zero y p = refl
  enough zero (suc x) y p = absurd (omega arith)
  enough (suc n) x y p = ground (arith, one_more n x y, enough n x y)

  lowest_digit :
      (x y : ℕ)
      → bitwise whole digit (suc x) y
        ≡ 2 * bitwise whole digit (suc x / 2) (y / 2) + digit (suc x % 2) (y % 2)
  lowest_digit x y = omega (arith, enough x (suc x / 2) (y / 2) (omega arith))

differ_parity : (x y : ℕ) → x < 2 → y < 2 → differ x y ≡ (x + y) % 2
differ_parity zero y p q = omega arith
differ_parity (suc zero) zero p q = refl
differ_parity (suc zero) (suc zero) p q = refl
differ_parity (suc zero) (suc (suc y)) p q = absurd (omega arith)
differ_parity (suc (suc x)) y p q = absurd (omega arith)

xor_digit : (x y : ℕ) → bit_xor x y ≡ 2 * bit_xor (x / 2) (y / 2) + differ (x % 2) (y % 2)
xor_digit zero y = simp bit_xor-bitwise (omega arith)
xor_digit (suc x) y = simp bit_xor-bitwise (lowest_digit (λ t. t) differ x y)

pub bit_xor_step : (a b : ℕ) → bit_xor a b ≡ bit_xor (a / 2) (b / 2) * 2 + (a + b) % 2
bit_xor_step a b =
    omega (arith, xor_digit a b, differ_parity (a % 2) (b % 2) (omega arith) (omega arith))

pub bit_or_step : (x y : ℕ) → bit_or x y ≡ 2 * bit_or (x / 2) (y / 2) + max (x % 2) (y % 2)
bit_or_step zero y = simp bit_or-bitwise (omega arith)
bit_or_step (suc x) y = simp bit_or-bitwise (lowest_digit (λ t. t) max x y)

pub bit_and_step : (x y : ℕ) → bit_and x y ≡ 2 * bit_and (x / 2) (y / 2) + min (x % 2) (y % 2)
bit_and_step zero y = simp bit_and-bitwise (omega arith)
bit_and_step (suc x) y = simp bit_and-bitwise (lowest_digit (λ t. zero) min x y)

xor_comm_fuel : (n a b : ℕ) → a ≤ n → b ≤ n → bit_xor a b ≡ bit_xor b a
xor_comm_fuel zero zero zero p q = refl
xor_comm_fuel zero zero (suc b) p q = absurd (omega arith)
xor_comm_fuel zero (suc a) b p q = absurd (omega arith)
xor_comm_fuel (suc n) a b p q = ground (
  arith,
  bit_xor_step a b,
  bit_xor_step b a,
  xor_comm_fuel n (a / 2) (b / 2) (omega arith) (omega arith),
)

pub xor_comm : (a b : ℕ) → bit_xor a b ≡ bit_xor b a
xor_comm a b = xor_comm_fuel (a + b) a b (omega arith) (omega arith)

xor_self_fuel : (n a : ℕ) → a ≤ n → bit_xor a a ≡ 0
xor_self_fuel zero zero p = refl
xor_self_fuel zero (suc a) p = absurd (omega arith)
xor_self_fuel (suc n) a p = ground (arith, bit_xor_step a a, xor_self_fuel n (a / 2) (omega arith))

pub xor_self : (a : ℕ) → bit_xor a a ≡ 0
xor_self a = xor_self_fuel a a (omega arith)

pub zero-xor : (a : ℕ) → bit_xor 0 a ≡ a
zero-xor a = bit_xor-bitwise 0 a

pub xor-zero : (a : ℕ) → bit_xor a 0 ≡ a
xor-zero a = xor_comm a 0 ∙ zero-xor a

xor_assoc_fuel :
    (n a b c : ℕ) → a ≤ n → b ≤ n → c ≤ n → bit_xor (bit_xor a b) c ≡ bit_xor a (bit_xor b c)
xor_assoc_fuel zero zero zero zero p q r = refl
xor_assoc_fuel zero zero zero (suc c) p q r = absurd (omega arith)
xor_assoc_fuel zero zero (suc b) c p q r = absurd (omega arith)
xor_assoc_fuel zero (suc a) b c p q r = absurd (omega arith)
xor_assoc_fuel (suc n) a b c p q r =
    let dab : bit_xor a b / 2 ≡ bit_xor (a / 2) (b / 2) = omega (arith, bit_xor_step a b) in
    let dbc : bit_xor b c / 2 ≡ bit_xor (b / 2) (c / 2) = omega (arith, bit_xor_step b c) in
    let left = rw dab at (bit_xor_step (bit_xor a b) c) in
    let right = rw dbc at (bit_xor_step a (bit_xor b c)) in
    let ih = xor_assoc_fuel n (a / 2) (b / 2) (c / 2) (omega arith) (omega arith) (omega arith) in
    omega (arith, left, right, ih, bit_xor_step a b, bit_xor_step b c)

pub xor_assoc : (a b c : ℕ) → bit_xor (bit_xor a b) c ≡ bit_xor a (bit_xor b c)
xor_assoc a b c = xor_assoc_fuel (a + b + c) a b c (omega arith) (omega arith) (omega arith)

-- `a ^ (a ^ b)` is `b`.
pub xor_cancel : (a b : ℕ) → bit_xor a (bit_xor a b) ≡ b
xor_cancel a b = sym (xor_assoc a a b) ∙ rw (xor_self a) (zero-xor b)

double_pow : (k q : ℕ) → 2 * (q * 2 ^ k) ≡ q * 2 ^ suc k
double_pow k q = omega (arith, ap (λ (p : ℕ). q * p) (pow-suc 2 k))

-- Fields of `k` bits are combined one by one.
pub xor_fields :
    (k q q' r r' : ℕ)
    → r < 2 ^ k
    → r' < 2 ^ k
    → (bit_xor (q * 2 ^ k + r) (q' * 2 ^ k + r') ≡ bit_xor q q' * 2 ^ k + bit_xor r r')
      × (bit_xor r r' < 2 ^ k)
xor_fields zero q q' zero zero h h' = ground arith
xor_fields zero q q' zero (suc r') h h' = absurd (omega arith)
xor_fields zero q q' (suc r) r' h h' = absurd (omega arith)
xor_fields (suc k) q q' r r' h h' =
    let whole = bit_xor_step (q * 2 ^ suc k + r) (q' * 2 ^ suc k + r') in
    let low = bit_xor_step r r' in
    let e : (q * 2 ^ suc k + r) / 2 ≡ q * 2 ^ k + r / 2 = omega (arith, double_pow k q) in
    let e' : (q' * 2 ^ suc k + r') / 2 ≡ q' * 2 ^ k + r' / 2 = omega (arith, double_pow k q') in
    let ih =
      xor_fields k q q' (r / 2) (r' / 2) (omega (arith, pow-suc 2 k))
        (omega (arith, pow-suc 2 k)) in
    let whole' = rw (e, e', ih.0) at whole in
    (
      omega (arith, whole', low, double_pow k q, double_pow k q', double_pow k (bit_xor q q')),
      omega (arith, low, ih.1, pow-suc 2 k),
    )

zero_right_or : (fuel x : ℕ) → x ≤ fuel → bit_or x 0 ≡ x
zero_right_or fuel zero p = refl
zero_right_or zero (suc x) p = absurd (omega arith)
zero_right_or (suc fuel) (suc x) p =
    omega (arith, zero_right_or fuel (suc x / 2) (omega arith), bit_or_step (suc x) 0)

pub bit_or-zero : (x : ℕ) → bit_or x 0 ≡ x
bit_or-zero x = zero_right_or x x (omega arith)

-- `(q << k) | r` is a sum where `r` fits `k` bits.
pub bit_or_fields : (k q r : ℕ) → r < 2 ^ k → bit_or (q * 2 ^ k) r ≡ q * 2 ^ k + r
bit_or_fields zero q zero h = rw (bit_or-zero (q * 2 ^ 0)) (omega arith)
bit_or_fields zero q (suc r) h = absurd (omega arith)
bit_or_fields (suc k) q r h = ground (
  arith,
  bit_or_step (q * 2 ^ suc k) r,
  double_pow k q,
  bit_or_fields k q (r / 2) (omega (arith, pow-suc 2 k)),
)

zero_right_and : (fuel x : ℕ) → x ≤ fuel → bit_and x 0 ≡ 0
zero_right_and fuel zero p = refl
zero_right_and zero (suc x) p = absurd (omega arith)
zero_right_and (suc fuel) (suc x) p =
    omega (arith, zero_right_and fuel (suc x / 2) (omega arith), bit_and_step (suc x) 0)

bit_and-zero : (x : ℕ) → bit_and x 0 ≡ 0
bit_and-zero x = zero_right_and x x (omega arith)

-- `x & (2 ^ k - 1)` takes the lowest `k` bits.
pub bit_and_fields : (k q r : ℕ) → r < 2 ^ k → bit_and (q * 2 ^ k + r) (2 ^ k - 1) ≡ r
bit_and_fields zero q r h = rw (bit_and-zero (q * 2 ^ 0 + r)) (omega arith)
bit_and_fields (suc k) q r h =
    let p = pow-suc 2 k in
    let e : (q * 2 ^ suc k + r) / 2 ≡ q * 2 ^ k + r / 2 = omega (arith, double_pow k q) in
    let m : (2 ^ suc k - 1) / 2 ≡ 2 ^ k - 1 = omega (arith, p, two-pow-pos k) in
    let step = rw (e, m) at (bit_and_step (q * 2 ^ suc k + r) (2 ^ suc k - 1)) in
    omega
      (arith, step, p, two-pow-pos k, double_pow k q, bit_and_fields k q (r / 2) (omega (arith, p)))

pub bit_and_mask : (k a : ℕ) → bit_and a (2 ^ k - 1) ≡ a % 2 ^ k
bit_and_mask k a =
    (rw (div-add-mod' a (2 ^ k)) at
      (bit_and_fields k (a / 2 ^ k) (a % 2 ^ k) (mod-lt a (two-pow-pos k))))

-- A test at every number below a bound.
unfoldable pub every : (ℕ → Bool) → ℕ → Bool
every test zero = true
every test (suc n) = every test n && test n

pub every-true : (test : ℕ → Bool) (n x : ℕ) → x < n → every test n ≡ true → test x ≡ true
unfolding every
every-true test zero x p e = absurd (omega arith)
every-true test (suc n) x p e = ground (arith, every-true test n x)

-- The top bit of a byte.
pub bit_and_top : (b : ℕ) → b < 256 → bit_and b 0x80 ≡ b / 128 * 128
unfolding every
bit_and_top b h = (==_iff _ _).0 (every-true (λ x. bit_and x 0x80 == x / 128 * 128) 256 b h refl)
