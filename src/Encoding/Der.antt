-- ===== src/Encoding/Der.antt =====
-- bitcoinlib/encoding.py, `signature_der_encode` and `signature_der_decode`: ECDSA signatures as
-- two DER integers in a sequence.
pub mod RoundTrip
mod Tests
use bitcoinlib.Common.{
  ℕ, ◌+◌, ◌-◌, List, [], ◌∷◌, ◌++◌, Result, ok, err, encoding_error, index_error, ◌>>=◌, ◌>>◌,
  guard, ◌==◌, if◌then◌else◌, length, take, drop, bit_and,
}
use bitcoinlib.Encoding.Bytes.{from_big, to_big, lstrip_zeros}
use bitcoinlib.Encoding.VarInt.{varbyteint_to_int, varstr}

-- `b'\0' + rb if rb[0] & 0x80 else rb`
pad_sign : List ℕ → Result (List ℕ)
pad_sign [] = err index_error
pad_sign (b ∷ bs) = if bit_and b 0x80 == 0 then ok (b ∷ bs) else ok (0 ∷ b ∷ bs)

-- `int.to_bytes(r, 32, 'big').lstrip(b'\0')` with its sign byte
unfoldable pub der_integer : ℕ → Result (List ℕ)
unfolding pad_sign
der_integer n = do pad_sign (lstrip_zeros (← to_big 32 n))

unfoldable pub signature_der_encode : ℕ → ℕ → Result (List ℕ)
signature_der_encode r s = do
  rb ← der_integer r
  sb ← der_integer s
  rv ← varstr rb
  sv ← varstr sb
  body ← varstr (0x02 ∷ rv ++ (0x02 ∷ sv))
  ok (0x30 ∷ body)

-- `x[0]`
abbrev first : List ℕ → Result ℕ
first [] = err index_error
first (b ∷ bs) = ok b

unfoldable pub unpack_int : List ℕ → Result (ℕ × List ℕ)
unpack_int sigbytes = do
  b ← first sigbytes
  guard (b == 0x02) encoding_error
  let (vlen, vsize) = varbyteint_to_int (drop 1 sigbytes)
  guard (length (take (vsize + vlen + 1) sigbytes) == 1 + vsize + vlen) encoding_error
  ok (from_big (take vlen (drop (1 + vsize) sigbytes)), drop (vsize + vlen + 1) sigbytes)

-- `signature[:-1]` where one byte too many stands at the end
abbrev strip_sighash : ℕ → List ℕ → List ℕ
strip_sighash expected signature =
    if length signature == expected + 1 then take (length signature - 1) signature else signature

-- `rest2 != b''`
abbrev is_empty : List ℕ → Result (Unit {0})
is_empty [] = ok tt
is_empty (b ∷ bs) = err encoding_error

unfoldable pub signature_der_decode : List ℕ → Result (ℕ × ℕ)
signature_der_decode signature = do
  b ← first signature
  guard (b == 0x30) encoding_error
  let (siglen, size) = varbyteint_to_int (drop 1 signature)
  let sig = strip_sighash (siglen + 1 + size) signature
  guard (length sig == siglen + 1 + size) encoding_error
  (r, rest) ← unpack_int (drop (1 + size) sig)
  (s, rest2) ← unpack_int rest
  is_empty rest2
  ok (r, s)

unfoldable pub signature_der_decode_bytes : List ℕ → Result (List ℕ)
signature_der_decode_bytes signature = do
  (r, s) ← signature_der_decode signature
  rb ← to_big 32 r
  sb ← to_big 32 s
  ok (rb ++ sb)
