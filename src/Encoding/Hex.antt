-- ===== src/Encoding/Hex.antt =====
-- bitcoinlib/encoding.py, `to_bytes` on a byte string, and Python's `bytes.fromhex`.
use bitcoinlib.Common.{
  ℕ, ◌+◌, ◌-◌, ◌*◌, List, [], ◌∷◌, Bool, true, false, ◌&&◌, ◌||◌, Option, none, some, leb, ◌==◌,
  if◌then◌else◌,
}

-- The ASCII blanks, which `bytes.fromhex` skips between two bytes.
abbrev is_blank : ℕ → Bool
is_blank c = (c == 32) || (leb 9 c && leb c 13)

abbrev hex_digit : ℕ → Option ℕ
hex_digit c =
    if leb 48 c && leb c 57
    then some (c - 48)
    else if leb 97 c && leb c 102
    then some (c - 87)
    else if leb 65 c && leb c 70
    then some (c - 55)
    else none

abbrev hex_pair : Option ℕ → Option ℕ → Option (List ℕ) → Option (List ℕ)
hex_pair (some a) (some b) (some rest) = some ((a * 16 + b) ∷ rest)
hex_pair (some a) (some b) none = none
hex_pair (some a) none rest = none
hex_pair none b rest = none

-- `bytes.fromhex(s)` on text; `none` stands for ValueError.
unfoldable pub from_hex : List ℕ → Option (List ℕ)
from_hex [] = some []
from_hex (c ∷ []) = if is_blank c then some [] else none
from_hex (c ∷ d ∷ cs) = elim (is_blank c) [
  | true ↦ from_hex (d ∷ cs)
  | false ↦ hex_pair (hex_digit c) (hex_digit d) (from_hex cs)
]

abbrev or_same : List ℕ → Option (List ℕ) → List ℕ
or_same s none = s
or_same s (some bytes) = bytes

-- Bytes that are no text in hexadecimal digits stay as they are: a byte above 127 is no such digit,
-- whether it can be decoded or not.
unfoldable pub to_bytes : List ℕ → List ℕ
unfolding from_hex
to_bytes s = or_same s (from_hex s)
