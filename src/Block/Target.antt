-- ===== src/Block/Target.antt =====
-- bitcoinlib/blocks.py, `Block.target`, `check_proof_of_work`, `version_bin` and `version_bips`.
pub mod Laws
use bitcoinlib.Common.{
  ℕ, zero, suc, ◌+◌, ◌-◌, ◌*◌, ◌/◌, ◌%◌, ◌^◌, List, [], ◌∷◌, ◌++◌, Bool, true, false, not, ◌&&◌,
  ◌||◌, Option, none, some, Result, ok, err, type_error, ltb, leb, ◌==◌, if◌then◌else◌, bit_and,
  length, replicate,
}
use bitcoinlib.Encoding.Bytes.{from_big}
use bitcoinlib.Transaction.Raw.{is_empty}
use bitcoinlib.Block.{Bytes, Block}

-- `coefficient * 256 ** (exponent - 3)` as a fraction, since the power is one below 3.
unfoldable pub target_of : Bytes → ℕ × ℕ
target_of [] = (0, 1)
target_of (exponent ∷ coefficient) =
    if ltb exponent 3
    then (from_big (0 ∷ coefficient), 256 ^ (3 - exponent))
    else (from_big (0 ∷ coefficient) * 256 ^ (exponent - 3), 1)

-- What a version below 0x20000000 or a low block stands for.
unfoldable pub old_bips : ℕ → List ℕ
old_bips version =
    (if version == 2 then 34 ∷ [] else [])
    ++ ((if version == 3 then 66 ∷ [] else [])
        ++ ((if version == 4 then 65 ∷ [] else [])
            ++ ((if version == 0x3000_0000 then 109 ∷ [] else [])
                ++ (if version == 0x2000_0007 then 101 ∷ [] else []))))

-- What the bits of a version stand for (BIP9).
unfoldable pub signalled_bips : ℕ → ℕ → List ℕ
signalled_bips version height =
    9
    ∷ ((if version % 2 == 1 then 68 ∷ [] else [])
        ++ ((if version / 2 ^ 1 % 2 == 1 then 141 ∷ [] else [])
            ++ ((if version / 2 ^ 4 % 2 == 1 then 91 ∷ [] else [])
                ++ ((if version == 0x3000_0000 then 109 ∷ [] else [])
                    ++ (if not (bit_and version 0x1fff_e000 == 0) && leb 500000 height
                        then 310 ∷ []
                        else [])))))

-- `self.height` is compared in any case, which raises where it is None. A name such as 'BIP9' is
-- its number.
unfoldable pub bips_of : ℕ → Option ℕ → Result (List ℕ)
unfolding old_bips signalled_bips
bips_of version none = err type_error
bips_of version (some height) =
    if (version / 2 ^ 29 == 1) && leb 407021 height
    then ok (signalled_bips version height)
    else if ltb height 500000
    then ok (old_bips version)
    else ok []

-- The binary digits of a number, highest first, in front of `acc`; `fuel` is enough if it is the
-- number.
unfoldable pub binary : ℕ → ℕ → List ℕ → List ℕ
binary zero n acc = acc
binary (suc fuel) n acc =
    let more = binary fuel (n / 2) ((n % 2) ∷ acc) in if n == 0 then acc else more

-- `s.zfill(size)`
unfoldable pub zfill : ℕ → List ℕ → List ℕ
zfill size s = replicate (size - length s) 0 ++ s

-- `bin(n)[2:]`, which is one digit for 0.
unfoldable pub bin_digits : ℕ → List ℕ
unfolding binary
bin_digits n = if n == 0 then 0 ∷ [] else binary n n []

-- The hash as a number is below the target; an empty hash or no bits fail.
unfoldable pub meets_target : Bytes → Bytes → Bool
unfolding target_of
meets_target block_hash bits =
    if is_empty block_hash || is_empty bits
    then false
    else (let (numerator, denominator) = target_of bits in
        ltb (from_big block_hash * denominator) numerator)

module _ {A : Type 0} where
  unfoldable pub target : Block A → ℕ × ℕ
  unfolding target_of
  target b = target_of b.bits

  unfoldable pub check_proof_of_work : Block A → Bool
  unfolding meets_target
  check_proof_of_work b = meets_target b.block_hash b.bits

  -- The text of digits as numbers.
  unfoldable pub version_bin : Block A → List ℕ
  unfolding bin_digits zfill
  version_bin b = zfill 32 (bin_digits b.version_int)

  unfoldable pub version_bips : Block A → Result (List ℕ)
  unfolding bips_of
  version_bips b = bips_of b.version_int b.height
