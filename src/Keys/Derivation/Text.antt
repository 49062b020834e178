-- ===== src/Keys/Derivation/Text.antt =====
-- The items of a key path of bitcoinlib/keys.py, `HDKey.key_for_path`, as text.
use bitcoinlib.Common.{
  ℕ, ◌+◌, ◌-◌, ◌*◌, List, [], ◌∷◌, Bool, true, false, ◌&&◌, ◌||◌, Result, ok, err, bkey_error,
  value_error, ◌>>=◌, ◌>>◌, guard, leb, ◌==◌, if◌then◌else◌,
}

-- `int` on decimal digits, behind the number `acc`.
unfoldable pub read_digits : ℕ → List ℕ → Result ℕ
read_digits acc [] = ok acc
read_digits acc (d ∷ ds) = do
  guard (leb 48 d && leb d 57) value_error
  read_digits (acc * 10 + (d - 48)) ds

-- What stands behind a minus sign: only 0 is not below 0.
unfoldable pub read_negative : List ℕ → Result ℕ
unfolding read_digits
read_negative [] = err value_error
read_negative (d ∷ ds) = read_digits 0 (d ∷ ds) >>= λ n. if n == 0 then ok 0 else err bkey_error

-- `int(item)`, and the exception for a number below 0. Python also reads a `+`, blanks around the
-- digits and underscores between them, which are left out.
unfoldable pub read_number : List ℕ → Result ℕ
unfolding read_digits read_negative
read_number [] = err value_error
read_number (d ∷ ds) = if d == 45 then read_negative ds else read_digits 0 (d ∷ ds)

-- `item[-1] in "'HhPp"`
abbrev pub is_mark : ℕ → Bool
is_mark c = (c == 39) || (c == 72) || (c == 104) || (c == 80) || (c == 112)

abbrev pub last_is_mark : List ℕ → Bool
last_is_mark [] = false
last_is_mark (c ∷ []) = is_mark c
last_is_mark (c ∷ d ∷ cs) = last_is_mark (d ∷ cs)

-- `item[:-1]`
abbrev pub but_last : List ℕ → List ℕ
but_last [] = []
but_last (c ∷ []) = []
but_last (c ∷ d ∷ cs) = c ∷ but_last (d ∷ cs)

unfoldable pub read_index : List ℕ → Result (ℕ × Bool)
unfolding read_number
read_index [] = err bkey_error
read_index (c ∷ cs) =
    let item = c ∷ cs in
    if last_is_mark item
    then (read_number (but_last item) >>= λ n. ok (n, true))
    else (read_number item >>= λ n. ok (n, false))
