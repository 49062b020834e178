-- ===== src/Encoding/Address/Tests.antt =====
-- Runs of the address functions of bitcoinlib/encoding.py: the example in the text of
-- `pubkeyhash_to_addr_bech32`.
use bitcoinlib.Common.{
  ℕ, ◌≡◌, refl, inl, List, [], ◌∷◌, ◌++◌, length, true, false, ok, err, encoding_error,
}
use bitcoinlib.Encoding.Bytes.{IsBytes}
use bitcoinlib.Encoding.Bech32.{bech32_polymod, checksum}
use bitcoinlib.Encoding.ConvertBits.{convertbits}
use bitcoinlib.Encoding.Address.{
  encode_program, pubkeyhash_to_addr_bech32, addr_bech32_to_pubkeyhash, addr_bech32_checksum,
  version_bytes,
}
use bitcoinlib.Encoding.Address.RoundTrip.{constant_of}
use bitcoinlib.Encoding.Address.Whole.{Carries, addr_bech32_to_pubkeyhash-pubkeyhash_to_addr_bech32}
use bitcoinlib.Encoding.Hex.{to_bytes}
use native.Mathlib.Omega.{arith}

abbrev pubkeyhash : List ℕ
pubkeyhash =
    0x21 ∷ 0xc1 ∷ 0xbc ∷ 0x69 ∷ 0x5a ∷ 0x56 ∷ 0xf4 ∷ 0x79 ∷ 0x91 ∷ 0xe9 ∷ 0x5f ∷ 0xf2 ∷ 0x68 ∷ 0x56
    ∷ 0xe5 ∷ 0x0f ∷ 0x78 ∷ 0xd3 ∷ 0xc1 ∷ 0x18 ∷ []

bytes : IsBytes pubkeyhash
bytes = (
  omega arith,
  (
    omega arith,
    (
      omega arith,
      (
        omega arith,
        (
          omega arith,
          (
            omega arith,
            (
              omega arith,
              (
                omega arith,
                (
                  omega arith,
                  (
                    omega arith,
                    (
                      omega arith,
                      (
                        omega arith,
                        (
                          omega arith,
                          (
                            omega arith,
                            (
                              omega arith,
                              (
                                omega arith,
                                (omega arith, (omega arith, (omega arith, (omega arith, tt)))),
                              ),
                            ),
                          ),
                        ),
                      ),
                    ),
                  ),
                ),
              ),
            ),
          ),
        ),
      ),
    ),
  ),
)

-- "bc1qy8qmc6262m68ny0ftlexs4h9paud8sgce3sf84"
abbrev address : List ℕ
address =
    98 ∷ 99 ∷ 49 ∷ 113 ∷ 121 ∷ 56 ∷ 113 ∷ 109 ∷ 99 ∷ 54 ∷ 50 ∷ 54 ∷ 50 ∷ 109 ∷ 54 ∷ 56 ∷ 110 ∷ 121
    ∷ 48 ∷ 102 ∷ 116 ∷ 108 ∷ 101 ∷ 120 ∷ 115 ∷ 52 ∷ 104 ∷ 57 ∷ 112 ∷ 97 ∷ 117 ∷ 100 ∷ 56 ∷ 115 ∷ 103
    ∷ 99 ∷ 101 ∷ 51 ∷ 115 ∷ 102 ∷ 56 ∷ 52 ∷ []

encode_pubkeyhash : encode_program pubkeyhash (98 ∷ 99 ∷ []) 0 (49 ∷ []) 1 ≡ ok address
unfolding encode_program convertbits checksum
encode_pubkeyhash = refl

decode_address : addr_bech32_to_pubkeyhash address [] false ≡ ok pubkeyhash
unfolding addr_bech32_to_pubkeyhash bech32_polymod convertbits
decode_address = refl

unknown_character :
    addr_bech32_to_pubkeyhash (98 ∷ 99 ∷ 49 ∷ 98 ∷ 113 ∷ 113 ∷ 113 ∷ 113 ∷ 113 ∷ 113 ∷ []) [] false
    ≡ err encoding_error
unfolding addr_bech32_to_pubkeyhash
unknown_character = refl

-- The same program behind its version and size bytes.
encode_behind_bytes :
    pubkeyhash_to_addr_bech32 (0 ∷ 20 ∷ pubkeyhash) (98 ∷ 99 ∷ []) 0 (49 ∷ []) 1 ≡ ok address
unfolding pubkeyhash_to_addr_bech32 convertbits checksum
encode_behind_bytes = refl

wrong_size :
    pubkeyhash_to_addr_bech32 (0 ∷ 19 ∷ pubkeyhash) (98 ∷ 99 ∷ []) 0 (49 ∷ []) 1
    ≡ err encoding_error
unfolding pubkeyhash_to_addr_bech32
wrong_size = refl

no_text : to_bytes pubkeyhash ≡ pubkeyhash
unfolding to_bytes
no_text = refl

addr_bech32_to_pubkeyhash-pubkeyhash_to_addr_bech32_example :
    (s : List ℕ) × (pubkeyhash_to_addr_bech32 pubkeyhash (98 ∷ 99 ∷ []) 0 (49 ∷ []) 1
      ≡ ok ((98 ∷ 99 ∷ []) ++ (49 ∷ s)))
    × (addr_bech32_to_pubkeyhash ((98 ∷ 99 ∷ []) ++ (49 ∷ s)) (98 ∷ 99 ∷ []) true
        ≡ ok (version_bytes true 0 (length pubkeyhash) ++ pubkeyhash))
    × (addr_bech32_checksum ((98 ∷ 99 ∷ []) ++ (49 ∷ s)) ≡ ok (constant_of 0))
addr_bech32_to_pubkeyhash-pubkeyhash_to_addr_bech32_example =
    addr_bech32_to_pubkeyhash-pubkeyhash_to_addr_bech32 pubkeyhash pubkeyhash (98 ∷ 99 ∷ [])
      (98 ∷ 99 ∷ []) 0 0 true (Carries.bare refl) no_text bytes (omega arith) (inl refl)
      (
        record { lowest = omega arith; highest = omega arith; lower = refl },
        (record { lowest = omega arith; highest = omega arith; lower = refl }, tt),
      )
      (omega arith) (omega arith) refl
