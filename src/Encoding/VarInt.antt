-- ===== src/Encoding/VarInt.antt =====
-- bitcoinlib/encoding.py, `varbyteint_to_int` to `int_to_varbyteint` and `varstr`: CompactSize
-- integers and the byte strings that they prefix. Numbers that are encoded are lengths and counts,
-- so they are naturals.
pub mod RoundTrip
pub mod Minimal
mod Tests
use bitcoinlib.Common.{
  ℕ, ◌+◌, List, [], ◌∷◌, ◌++◌, Result, ok, err, ltb, ◌==◌, if◌then◌else◌, ◌>>=◌, length, take, drop,
  bytes_eq,
}
use bitcoinlib.Encoding.Bytes.{from_little, to_little}
use bitcoinlib.Encoding.Stream.{Stream, read, seek}

-- The bytes that follow a first byte of 253 or more.
abbrev pub extra_size : ℕ → ℕ
extra_size ni = if ni == 253 then 2 else if ni == 254 then 4 else 8

-- A slice past the end of a byte string is shorter, and no error. Reversing the slice and reading
-- it in big-endian order is reading it in little-endian order.
unfoldable pub varbyteint_to_int : List ℕ → ℕ × ℕ
varbyteint_to_int [] = (0, 0)
varbyteint_to_int (ni ∷ rest) =
    if ltb ni 253 then (ni, 1) else (from_little (take (extra_size ni) rest), extra_size ni + 1)

unfoldable pub read_varbyteint : Stream → ℕ × Stream
unfolding varbyteint_to_int
read_varbyteint s =
    let pos = s.position in
    let (byteint, s') = read 9 s in
    let (value, size) = varbyteint_to_int byteint in (value, seek (pos + size) s')

-- What `read_varbyteint_return` does once the first bytes are read at position `pos`.
return_parts : List ℕ → ℕ → Stream → (ℕ × List ℕ) × Stream
return_parts [] pos s = ((0, []), s)
return_parts (ni ∷ rest) pos s =
    if ltb ni 253
    then ((ni, ni ∷ []), seek (pos + 1) s)
    else (let varbytes = take (extra_size ni) rest in
        ((from_little varbytes, ni ∷ varbytes), seek (pos + extra_size ni + 1) s))

unfoldable pub read_varbyteint_return : Stream → (ℕ × List ℕ) × Stream
unfolding return_parts
read_varbyteint_return s = let (byteint, s') = read 9 s in return_parts byteint s.position s'

unfoldable pub int_to_varbyteint : ℕ → Result (List ℕ)
int_to_varbyteint inp =
    if ltb inp 0xfd
    then to_little 1 inp
    else if ltb inp 0xffff
    then (to_little 2 inp >>= λ b. ok (0xfd ∷ b))
    else if ltb inp 0xffff_ffff
    then (to_little 4 inp >>= λ b. ok (0xfe ∷ b))
    else (to_little 8 inp >>= λ b. ok (0xff ∷ b))

-- The single byte 0 is returned with no length before it.
unfoldable pub varstr : List ℕ → Result (List ℕ)
varstr s =
    if bytes_eq s (0 ∷ [])
    then ok s
    else (int_to_varbyteint (length s) >>= λ prefix. ok (prefix ++ s))
