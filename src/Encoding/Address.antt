-- ===== src/Encoding/Address.antt =====
-- bitcoinlib/encoding.py, the segwit addresses: `_array_to_codestring`, `_codestring_to_array`,
-- `pubkeyhash_to_addr_bech32`, `addr_bech32_to_pubkeyhash` and `addr_bech32_checksum`. A string is
-- the list of its character codes.
pub mod Strings
pub mod RoundTrip
pub mod Whole
mod Tests
use bitcoinlib.Common.{
  ℕ, zero, suc, ◌+◌, ◌-◌, ◌/◌, ◌^◌, List, [], ◌∷◌, ◌++◌, map, Bool, true, false, ◌&&◌, ◌||◌, not,
  Option, none, some, Exception, Result, ok, err, encoding_error, index_error, type_error, ◌>>=◌,
  ◌>>◌, guard, ltb, leb, ◌==◌, if◌then◌else◌, bytes_eq, length, take, drop, get_elem?, bit_and,
}
use bitcoinlib.Common.Integer.{ℤ, pos, negsuc}
use bitcoinlib.Encoding.Bech32.{bech32_polymod, checksum}
use bitcoinlib.Encoding.Hex.{to_bytes}
use bitcoinlib.Encoding.ConvertBits.{convertbits}

-- `code_strings['bech32']`, which is "qpzry9x8gf2tvdw0s3jn54khce6mua7l"
abbrev pub codebase : List ℕ
codebase =
    113 ∷ 112 ∷ 122 ∷ 114 ∷ 121 ∷ 57 ∷ 120 ∷ 56 ∷ 103 ∷ 102 ∷ 50 ∷ 116 ∷ 118 ∷ 100 ∷ 119 ∷ 48 ∷ 115
    ∷ 51 ∷ 106 ∷ 110 ∷ 53 ∷ 52 ∷ 107 ∷ 104 ∷ 99 ∷ 101 ∷ 54 ∷ 109 ∷ 117 ∷ 97 ∷ 55 ∷ 108 ∷ []

abbrev pub bech32m_const : ℕ
bech32m_const = 0x2bc8_30a3

-- An element, or the exception of its absence.
abbrev pub present : {A : Type 0} → Exception → Option A → Result A
present e none = err e
present e (some a) = ok a

-- `xs.index(x)`, counted from `i` on
abbrev pub index_from : ℕ → ℕ → List ℕ → Option ℕ
index_from i x [] = none
index_from i x (y ∷ ys) = if x == y then some i else index_from (i + 1) x ys

unfoldable pub array_to_codestring : List ℕ → Result (List ℕ)
array_to_codestring [] = ok []
array_to_codestring (i ∷ array) = do
  c ← present index_error (get_elem? codebase i)
  codestring ← array_to_codestring array
  ok (c ∷ codestring)

unfoldable pub codestring_to_array : List ℕ → Result (List ℕ)
codestring_to_array [] = ok []
codestring_to_array (s ∷ codestring) = do
  i ← present encoding_error (index_from 0 s codebase)
  array ← codestring_to_array codestring
  ok (i ∷ array)

-- `[ord(x) >> 5 for x in prefix] + [0] + [ord(x) & 31 for x in prefix]`
unfoldable pub expand_prefix : List ℕ → List ℕ
expand_prefix prefix = map (λ x. x / 2 ^ 5) prefix ++ (0 ∷ map (λ x. bit_and x 31) prefix)

abbrev pub one_of : ℕ → List ℕ → Bool
one_of n [] = false
one_of n (m ∷ ms) = (n == m) || one_of n ms

-- The version byte, which may be below 0x50, with the size byte and the program behind it.
abbrev split_program : ℕ → List ℕ → Result (ℤ × List ℕ)
split_program witver [] = err index_error
split_program witver (v ∷ []) = err index_error
split_program witver (v ∷ size ∷ program) = do
  guard (size == length program) encoding_error
  ok (
    if v == 0 then pos witver else if ltb v 0x50 then negsuc (0x50 - v - 1) else pos (v - 0x50),
    program,
  )

-- The first part of `pubkeyhash_to_addr_bech32`: the witness version and the program.
unfoldable pub read_program : List ℕ → ℕ → Result (ℤ × List ℕ)
read_program pubkeyhash witver =
    if one_of (length pubkeyhash) (20 ∷ 32 ∷ 40 ∷ [])
    then ok (pos witver, pubkeyhash)
    else split_program witver pubkeyhash

-- The version and the constant that are used.
unfoldable pub choose_checksum : ℕ → ℕ → ℕ × ℕ
choose_checksum witver checksum_xor =
    if (checksum_xor == bech32m_const) && (witver == 0)
    then (1, checksum_xor)
    else if ltb 0 witver
    then (witver, bech32m_const)
    else (witver, checksum_xor)

-- The second part, for a version that is not negative.
unfoldable pub encode_program : List ℕ → List ℕ → ℕ → List ℕ → ℕ → Result (List ℕ)
unfolding array_to_codestring expand_prefix choose_checksum
encode_program program prefix witver separator checksum_xor = do
  guard (leb witver 16) encoding_error
  let (version, constant) = choose_checksum witver checksum_xor
  converted ← convertbits program 8 5 true
  digits ← present type_error converted
  let data_ = version ∷ digits
  payload ← array_to_codestring data_
  check ← array_to_codestring (checksum constant (expand_prefix prefix ++ data_))
  ok (prefix ++ (separator ++ (payload ++ check)))

-- The second part for the version -n, n above 0, in bech32 even where bech32m is asked for: the
-- version is an index from the end of the code string, and the checksum takes its bits modulo
-- 2 ^ 30, since of each value no other bits are used.
unfoldable pub encode_negative : List ℕ → List ℕ → ℕ → List ℕ → ℕ → Result (List ℕ)
unfolding array_to_codestring expand_prefix
encode_negative program prefix n separator checksum_xor = do
  converted ← convertbits program 8 5 true
  digits ← present type_error converted
  let values = expand_prefix prefix ++ ((2 ^ 30 - n) ∷ digits)
  guard (leb n 32) index_error
  payload ← array_to_codestring ((32 - n) ∷ digits)
  check ← array_to_codestring (checksum checksum_xor values)
  ok (prefix ++ (separator ++ (payload ++ check)))

abbrev pub encode_version : ℤ × List ℕ → List ℕ → List ℕ → ℕ → Result (List ℕ)
encode_version (pos witver, program) prefix separator checksum_xor =
    encode_program program prefix witver separator checksum_xor
encode_version (negsuc n, program) prefix separator checksum_xor =
    encode_negative program prefix (n + 1) separator checksum_xor

unfoldable pub pubkeyhash_to_addr_bech32 : List ℕ → List ℕ → ℕ → List ℕ → ℕ → Result (List ℕ)
unfolding to_bytes read_program encode_program encode_negative
pubkeyhash_to_addr_bech32 pubkeyhash prefix witver separator checksum_xor = do
  parts ← read_program (to_bytes pubkeyhash) witver
  encode_version parts prefix separator checksum_xor

abbrev pub to_lower : ℕ → ℕ
to_lower c = if leb 65 c && leb c 90 then c + 32 else c

abbrev to_upper : ℕ → ℕ
to_upper c = if leb 97 c && leb c 122 then c - 32 else c

abbrev printable : List ℕ → Bool
printable [] = true
printable (c ∷ cs) = leb 33 c && leb c 126 && printable cs

-- The text before the last `1` and the text behind it.
unfoldable pub split_last_one : List ℕ → Option (List ℕ × List ℕ)
split_last_one [] = none
split_last_one (c ∷ cs) = elim (split_last_one cs) [
  | some (before, after) ↦ some (c ∷ before, after)
  | none ↦ if c == 49 then some ([], cs) else none
]

-- `not prefix or prefix == bech[:pos]`; no prefix is the empty one.
abbrev pub prefix_fits : List ℕ → List ℕ → Bool
prefix_fits [] hrp = true
prefix_fits (c ∷ cs) hrp = bytes_eq (c ∷ cs) hrp

-- Bech32 is for version 0, Bech32m for the others.
unfoldable pub require_checksum : ℕ → ℕ → Result (Unit {0})
require_checksum version check = do
  guard (not (version == 0 && not (check == 1))) encoding_error
  guard (not (not (version == 0) && not (check == bech32m_const))) encoding_error

-- The first value of a list.
abbrev pub version_of : List ℕ → Result ℕ
version_of [] = err index_error
version_of (v ∷ vs) = ok v

-- `bytes([data[0] + 0x50 if data[0] else 0, datalen])` where the version is asked for
abbrev pub version_bytes : Bool → ℕ → ℕ → List ℕ
version_bytes false version datalen = []
version_bytes true version datalen = (if version == 0 then 0 else version + 0x50) ∷ datalen ∷ []

-- What follows the checksum test, on the values without the checksum.
unfoldable pub decode_program : List ℕ → Bool → Result (List ℕ)
decode_program data_ include_witver = do
  converted ← convertbits (drop 1 data_) 5 8 false
  decoded ← present type_error converted
  guard (not (ltb (length decoded) 2 || ltb 40 (length decoded))) encoding_error
  version ← version_of data_
  guard (not (ltb 16 version)) encoding_error
  guard (not (version == 0 && not (one_of (length decoded) (20 ∷ 32 ∷ [])))) encoding_error
  ok (version_bytes include_witver version (length decoded) ++ decoded)

-- The tests of the values behind the prefix.
unfoldable pub decode_values : List ℕ → List ℕ → Bool → Result (List ℕ)
unfolding expand_prefix require_checksum decode_program
decode_values hrp data_ include_witver = do
  let check = bech32_polymod (expand_prefix hrp ++ data_)
  guard (check == 1 || check == bech32m_const) encoding_error
  version ← version_of data_
  require_checksum version check
  decode_program (take (length data_ - 6) data_) include_witver

-- Both cases are mixed.
abbrev mixed_case : List ℕ → Bool
mixed_case bech = not (bytes_eq (map to_lower bech) bech) && not (bytes_eq (map to_upper bech) bech)

unfoldable pub addr_bech32_to_pubkeyhash : List ℕ → List ℕ → Bool → Result (List ℕ)
unfolding codestring_to_array split_last_one decode_values
addr_bech32_to_pubkeyhash text prefix include_witver = do
  guard (printable text && not (mixed_case text)) encoding_error
  let bech = map to_lower text
  (hrp, payload) ← present encoding_error (split_last_one bech)
  guard (not (ltb (length hrp) 1 || ltb (length bech) (length hrp + 7) || ltb 90 (length bech)))
      encoding_error
  guard (prefix_fits prefix hrp) encoding_error
  data_ ← codestring_to_array payload
  decode_values hrp data_ include_witver

-- The text before and behind `pos`, which is -1 where there is no `1`.
abbrev pub split_at_one : List ℕ → Option (List ℕ × List ℕ) → List ℕ × List ℕ
split_at_one bech none = (take (length bech - 1) bech, bech)
split_at_one bech (some parts) = parts

unfoldable pub addr_bech32_checksum : List ℕ → Result ℕ
unfolding codestring_to_array split_last_one expand_prefix
addr_bech32_checksum text =
    let bech = map to_lower text in
    let (hrp, payload) = split_at_one bech (split_last_one bech) in
    codestring_to_array payload >>= λ data_. ok (bech32_polymod (expand_prefix hrp ++ data_))
