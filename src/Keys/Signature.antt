-- ===== src/Keys/Signature.antt =====
-- bitcoinlib/keys.py, `Signature.parse_bytes` with the checks of r and s in the constructor that it
-- calls, `Signature.__init__`.
pub mod RoundTrip
mod Tests
use bitcoinlib.Common.{
  ℕ, ◌-◌, List, [], ◌∷◌, Bool, true, false, not, ◌&&◌, ◌||◌, Option, none, some, Result, ok, err,
  bkey_error, ◌>>=◌, ◌>>◌, guard, ltb, leb, ◌==◌, if◌then◌else◌, length, take, drop,
}
use bitcoinlib.Encoding.Bytes.{from_big}
use bitcoinlib.Keys.Derivation.{secp256k1_n}
use bitcoinlib.Encoding.Der.{signature_der_decode_bytes}

-- What the constructor keeps of its arguments; the public key is passed through.
pub record Arguments : Type 0 where
  pub r : ℕ
  pub s : ℕ
  pub der_signature : Option (List ℕ)
  pub hash_type : ℕ

-- `SIGHASH_ALL`
abbrev pub sighash_all : ℕ
sighash_all = 1

abbrev pub starts_with : ℕ → List ℕ → Bool
starts_with n [] = false
starts_with n (b ∷ bs) = b == n

-- `self.r < 1 or self.r >= secp256k1_n`
abbrev pub in_range : ℕ → Bool
in_range n = not (ltb n 1 || leb secp256k1_n n)

-- The two halves of 64 bytes, in the range of the curve.
unfoldable pub split_signature : Option (List ℕ) → ℕ → List ℕ → Result Arguments
split_signature der_signature hash_type signature = do
  guard (length signature == 64) bkey_error
  let r = from_big (take 32 signature)
  let s = from_big (drop 32 signature)
  guard (in_range r) bkey_error
  guard (in_range s) bkey_error
  ok (record { r = r; s = s; der_signature = der_signature; hash_type = hash_type })

unfoldable pub parse_bytes : List ℕ → Result Arguments
unfolding split_signature
parse_bytes signature =
    let der_signature = take (length signature - 1) signature in
    let hash_type = from_big (drop (length signature - 1) signature) in
    if ltb 64 (length signature) && starts_with 0x30 signature
    then signature_der_decode_bytes der_signature >>= split_signature (some der_signature) hash_type
    else split_signature none sighash_all signature
