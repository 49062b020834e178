-- ===== src/Script/Num.antt =====
-- bitcoinlib/scripts.py, `encode_num` and `decode_num`: numbers on the script stack, in
-- little-endian order with the sign in the top bit of the last byte.
pub mod BitLength
pub mod Laws
mod Tests
use bitcoinlib.Common.{
  ℕ, zero, suc, ◌+◌, ◌/◌, List, [], ◌∷◌, Bool, true, false, not, ◌==◌, if◌then◌else◌, bit_and,
}
use bitcoinlib.Common.Integer.{ℤ, pos, negsuc, magnitude, ltb_ℤ}
use bitcoinlib.Encoding.Bytes.{from_little, little_digits}
use bitcoinlib.Script.Num.BitLength.{bit_length}

-- What happens to the last byte of the magnitude: a free sign bit is set for a negative number,
-- a used one gets a byte of its own behind it.
unfoldable pub add_sign : Bool → List ℕ → List ℕ
add_sign negative [] = []
add_sign negative (b ∷ c ∷ bs) = b ∷ add_sign negative (c ∷ bs)
add_sign negative (b ∷ []) =
    if not (bit_and b 0x80 == 0)
    then (if negative then b ∷ 0x80 ∷ [] else b ∷ 0 ∷ [])
    else if negative
    then (b + 0x80) ∷ []
    else b ∷ []

unfoldable pub encode_num : ℤ → List ℕ
encode_num num =
    if magnitude num == 0
    then []
    else (let size = (bit_length (magnitude num) + 7) / 8 in
        add_sign (ltb_ℤ num (pos 0)) (little_digits size (magnitude num)))

-- `encoded[-1] & 0x80`
unfoldable pub sign_bit : List ℕ → Bool
sign_bit [] = false
sign_bit (b ∷ c ∷ bs) = sign_bit (c ∷ bs)
sign_bit (b ∷ []) = not (bit_and b 0x80 == 0)

-- `encoded[:-1] + (encoded[-1] & 0x7f).to_bytes(1, 'big')`
unfoldable pub clear_sign : List ℕ → List ℕ
clear_sign [] = []
clear_sign (b ∷ c ∷ bs) = b ∷ clear_sign (c ∷ bs)
clear_sign (b ∷ []) = bit_and b 0x7f ∷ []

-- `-n`
abbrev pub negate : ℕ → ℤ
negate zero = pos 0
negate (suc n) = negsuc n

unfoldable pub decode_num : List ℕ → ℤ
decode_num encoded =
    if sign_bit encoded
    then negate (from_little (clear_sign encoded))
    else pos (from_little (clear_sign encoded))
