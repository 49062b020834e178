-- ===== src/Encoding/Base58.antt =====
-- bitcoinlib/encoding.py, `base58encode`. A string is the list of its character codes.
pub mod Value
mod Tests
use bitcoinlib.Common.{
  ℕ, zero, suc, ◌-◌, ◌/◌, ◌%◌, List, [], ◌∷◌, ◌++◌, Option, none, some, get_elem?, length,
  replicate,
}
use bitcoinlib.Encoding.Bytes.{from_big, lstrip_zeros}

-- "123456789ABCDEFGHJKLMNPQRSTUVWXYZabcdefghijkmnopqrstuvwxyz"
abbrev pub code_str : List ℕ
code_str =
    49 ∷ 50 ∷ 51 ∷ 52 ∷ 53 ∷ 54 ∷ 55 ∷ 56 ∷ 57 ∷ 65 ∷ 66 ∷ 67 ∷ 68 ∷ 69 ∷ 70 ∷ 71 ∷ 72 ∷ 74 ∷ 75
    ∷ 76 ∷ 77 ∷ 78 ∷ 80 ∷ 81 ∷ 82 ∷ 83 ∷ 84 ∷ 85 ∷ 86 ∷ 87 ∷ 88 ∷ 89 ∷ 90 ∷ 97 ∷ 98 ∷ 99 ∷ 100 ∷ 101
    ∷ 102 ∷ 103 ∷ 104 ∷ 105 ∷ 106 ∷ 107 ∷ 109 ∷ 110 ∷ 111 ∷ 112 ∷ 113 ∷ 114 ∷ 115 ∷ 116 ∷ 117 ∷ 118
    ∷ 119 ∷ 120 ∷ 121 ∷ 122 ∷ []

-- `code_str[idx:idx + 1]`, which is empty out of range
abbrev pub character : Option ℕ → List ℕ
character none = []
character (some c) = c ∷ []

-- `while acc`: each round divides the number, so the number is fuel enough.
unfoldable pub write_digits : ℕ → ℕ → List ℕ → List ℕ
write_digits fuel zero string = string
write_digits zero (suc acc) string = string
write_digits (suc fuel) (suc acc) string =
    write_digits fuel (suc acc / 58) (character (get_elem? code_str (suc acc % 58)) ++ string)

unfoldable pub base58encode : List ℕ → List ℕ
unfolding write_digits
base58encode inp =
    let padding_zeros = length inp - length (lstrip_zeros inp) in
    let acc = from_big (lstrip_zeros inp) in replicate padding_zeros 49 ++ write_digits acc acc []
