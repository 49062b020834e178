-- ===== src/Encoding/Bytes.antt =====
-- Python's `int.to_bytes`, `int.from_bytes` and `bytes.lstrip(b'\0')`, which bitcoinlib/encoding.py
-- calls throughout. A byte string is a list of numbers below 256.
pub mod Laws
use bitcoinlib.Common.{
  ℕ, zero, suc, ◌+◌, ◌*◌, ◌/◌, ◌%◌, ◌^◌, ◌<◌, List, [], ◌∷◌, reverse, Result, ok, err,
  overflow_error, ltb, if◌then◌else◌, All,
}

abbrev pub IsByte : ℕ → Type 0
IsByte b = b < 256

abbrev pub IsBytes : List ℕ → Type 0
IsBytes = All IsByte

-- `int.from_bytes(xs, 'little')` and `int.from_bytes(xs, 'big')`
abbrev pub from_little : List ℕ → ℕ
from_little [] = 0
from_little (b ∷ bs) = b + 256 * from_little bs

abbrev pub from_big : List ℕ → ℕ
from_big xs = from_little (reverse xs)

-- The lowest `size` base-256 digits of `n`, lowest first.
unfoldable pub little_digits : ℕ → ℕ → List ℕ
little_digits zero n = []
little_digits (suc size) n = (n % 256) ∷ little_digits size (n / 256)

-- `n.to_bytes(size, 'little')` and `n.to_bytes(size, 'big')`
abbrev pub to_little : ℕ → ℕ → Result (List ℕ)
to_little size n = if ltb n (256 ^ size) then ok (little_digits size n) else err overflow_error

abbrev pub to_big : ℕ → ℕ → Result (List ℕ)
to_big size n =
    if ltb n (256 ^ size) then ok (reverse (little_digits size n)) else err overflow_error

-- `xs.lstrip(b'\0')`
abbrev pub lstrip_zeros : List ℕ → List ℕ
lstrip_zeros [] = []
lstrip_zeros (zero ∷ bs) = lstrip_zeros bs
lstrip_zeros (suc b ∷ bs) = suc b ∷ bs
