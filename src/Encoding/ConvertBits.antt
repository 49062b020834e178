-- ===== src/Encoding/ConvertBits.antt =====
-- bitcoinlib/encoding.py, `convertbits`: a list of digits of one width in bits, written as digits
-- of another width.
pub mod Fields
pub mod Digits
pub mod Loop
pub mod RoundTrip
mod Tests
use bitcoinlib.Common.{
  ℕ, zero, suc, ◌+◌, ◌-◌, ◌*◌, ◌/◌, ◌%◌, ◌^◌, List, [], ◌∷◌, ◌++◌, Bool, true, false, ◌||◌, not,
  Option, none, some, Result, ok, err, ◌>>=◌, encoding_error, ltb, ◌==◌, if◌then◌else◌, bit_and,
  bit_or,
}

-- The accumulator, the number of its bits that are not written out, and the result so far.
pub record Converter : Type 0 where
  pub acc : ℕ
  pub bits : ℕ
  pub ret : List ℕ

-- `(acc << n) & maxv`, `(acc >> n) & maxv`
abbrev pub masked : ℕ → ℕ → ℕ
masked tobits n = bit_and n (2 ^ tobits - 1)

-- `while bits >= tobits`: each round takes at least one bit, so the number of bits is fuel enough.
unfoldable pub write_out : ℕ → ℕ → ℕ → ℕ → List ℕ → Converter
write_out zero tobits acc bits ret = record { acc = acc; bits = bits; ret = ret }
write_out (suc fuel) tobits acc bits ret =
    let left = bits - tobits in
    let rest = write_out fuel tobits acc left (ret ++ (masked tobits (acc / 2 ^ left) ∷ [])) in
    if ltb bits tobits then record { acc = acc; bits = bits; ret = ret } else rest

-- One round of the loop over the values.
unfoldable pub read_in : ℕ → ℕ → ℕ → Converter → Converter
unfolding write_out
read_in frombits tobits value c =
    let acc = bit_and (bit_or (c.acc * 2 ^ frombits) value) (2 ^ (frombits + tobits - 1) - 1) in
    let bits = c.bits + frombits in write_out bits tobits acc bits c.ret

-- The loop over the values; `none` is the `None` that a value of too many bits returns.
unfoldable pub read_all : ℕ → ℕ → List ℕ → Converter → Option Converter
unfolding read_in
read_all frombits tobits [] c = some c
read_all frombits tobits (value ∷ data_) c =
    let rest = read_all frombits tobits data_ (read_in frombits tobits value c) in
    if value / 2 ^ frombits == 0 then rest else none

-- What follows the loop.
unfoldable pub close : ℕ → ℕ → Bool → Converter → Result (List ℕ)
close frombits tobits true c =
    if c.bits == 0
    then ok c.ret
    else ok (c.ret ++ (masked tobits (c.acc * 2 ^ (tobits - c.bits)) ∷ []))
close frombits tobits false c =
    if not (ltb c.bits frombits) || not (masked tobits (c.acc * 2 ^ (tobits - c.bits)) == 0)
    then err encoding_error
    else ok c.ret

abbrev finish : ℕ → ℕ → Bool → Option Converter → Result (Option (List ℕ))
finish frombits tobits pad none = ok none
finish frombits tobits pad (some c) = close frombits tobits pad c >>= λ ret. ok (some ret)

unfoldable pub convertbits : List ℕ → ℕ → ℕ → Bool → Result (Option (List ℕ))
unfolding read_all close
convertbits data_ frombits tobits pad =
    finish frombits tobits pad
      (read_all frombits tobits data_ (record { acc = 0; bits = 0; ret = [] }))
