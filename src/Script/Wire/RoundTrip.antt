-- ===== src/Script/Wire/RoundTrip.antt =====
-- Data that `data_pack` of bitcoinlib/scripts.py writes is read by `Script.parse_bytesio`.
use bitcoinlib.Common.{
  ℕ, ◌+◌, ◌*◌, ◌%◌, ◌^◌, ◌≤◌, ◌<◌, ◌≡◌, refl, inl, inr, List, [], ◌∷◌, ◌++◌, ok, leb, arith, length,
  take-append, drop-append, Bool-cases, append_assoc,
}
use bitcoinlib.Encoding.Bytes.{little_digits, to_little}
use bitcoinlib.Encoding.Bytes.Laws.{length-little_digits, from_little-little_digits}
use bitcoinlib.Script.Stack.{Bytes}
use bitcoinlib.Script.Command.{item}
use bitcoinlib.Script.Wire.{data_pack, data_length, read_command}

read_data :
    (ch : ℕ) (script d rest : List ℕ)
    → 0 < length d
    → data_length ch script ≡ (length d, d ++ rest)
    → read_command ch script ≡ ok (item d, rest)
unfolding read_command
read_data ch script d rest h e =
    rw (e, take-append d rest (length d) refl, drop-append d rest (length d) refl)
      (ground (arith, h))

data_length-pushdata1 : (n : ℕ) (rest : List ℕ) → data_length 76 (n ∷ rest) ≡ (n, rest)
unfolding data_length
data_length-pushdata1 n rest = let e : n + 256 * 0 ≡ n = omega arith in rw e refl

data_length-pushdata2 :
    (n : ℕ) (rest : List ℕ) → n < 65536 → data_length 77 (little_digits 2 n ++ rest) ≡ (n, rest)
unfolding data_length
data_length-pushdata2 n rest h =
    rw
      (
        take-append (little_digits 2 n) rest 2 (length-little_digits 2 n),
        drop-append (little_digits 2 n) rest 2 (length-little_digits 2 n),
        from_little-little_digits 2 n (omega arith),
      )
      refl

data_length-direct : (n : ℕ) (rest : List ℕ) → 1 ≤ n → n ≤ 75 → data_length n rest ≡ (n, rest)
unfolding data_length
data_length-direct n rest a b = ground arith

to_little-fits : (size n : ℕ) → n < 256 ^ size → to_little size n ≡ ok (little_digits size n)
to_little-fits size n h = ground (arith, h)

one_digit : (n : ℕ) → n < 256 → little_digits 1 n ≡ n ∷ []
unfolding little_digits
one_digit n h = let e : n % 256 ≡ n = omega arith in rw e refl

-- Data of 1 to 65535 bytes is packed, and whatever follows it, reading the first byte of the packed
-- data as an opcode gives the same data and leaves what follows.
pub read_command-data_pack :
    (d : Bytes)
    → 0 < length d
    → length d < 65536
    → (ch : ℕ) × (bs : List ℕ) × (data_pack d ≡ ok (ch ∷ bs))
      × ((rest : List ℕ) → read_command ch (bs ++ rest) ≡ ok (item d, rest))
unfolding data_pack
read_command-data_pack d some_data fits = elim (Bool-cases (leb (length d) 75)) [
  | inl short ↦
      let n : length d ≤ 75 = ground (arith, short) in
      (
        length d,
        d,
        rw (short, to_little-fits 1 (length d) (omega arith), one_digit (length d) (omega arith))
            refl,
        λ rest.
            read_data (length d) (d ++ rest) d rest some_data
              (data_length-direct (length d) (d ++ rest) some_data n),
      )
  | inr long ↦ elim (Bool-cases (leb (length d) 255)) [
    | inl one ↦
        let n : length d < 256 = ground (arith, one) in
        (
          0x4c,
          length d ∷ d,
          rw (long, one, to_little-fits 1 (length d) n, one_digit (length d) n) refl,
          λ rest.
              read_data 76 (length d ∷ (d ++ rest)) d rest some_data
                (data_length-pushdata1 (length d) (d ++ rest)),
        )
    | inr two ↦ (
      0x4d,
      little_digits 2 (length d) ++ d,
      rw (long, two, to_little-fits 2 (length d) (omega arith)) refl,
      λ rest. rw (append_assoc (little_digits 2 (length d)) d rest) (
          read_data 77 (little_digits 2 (length d) ++ (d ++ rest)) d rest some_data
            (data_length-pushdata2 (length d) (d ++ rest) fits)),
    )
  ]
]
