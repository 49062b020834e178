-- ===== src/Encoding/Address/RoundTrip.antt =====
-- The segwit addresses of bitcoinlib/encoding.py that are encoded are decoded again.
use bitcoinlib.Common.{
  ℕ, zero, suc, ◌+◌, ◌-◌, ◌*◌, ◌^◌, ◌≤◌, ◌<◌, ◌≡◌, refl, sym, ap, ◌∙◌, ◌⊎◌, List, [], ◌∷◌, ◌++◌,
  map, Bool, true, false, ◌||◌, some, ok, All, All-append, length, length-append, take, take-append,
  ◌==◌, bytes_eq_refl, append_assoc, arith,
}
use bitcoinlib.Encoding.Bytes.{IsBytes}
use bitcoinlib.Encoding.Bech32.{bech32_polymod, checksum}
use bitcoinlib.Encoding.Bech32.Verify.{bech32_polymod-checksum, checksum_digits-small}
use bitcoinlib.Encoding.ConvertBits.{convertbits}
use bitcoinlib.Encoding.ConvertBits.Digits.{total_bits}
use bitcoinlib.Encoding.ConvertBits.RoundTrip.{convertbits-convertbits}
use bitcoinlib.Encoding.Address.{
  bech32m_const, expand_prefix, choose_checksum, encode_program, prefix_fits, require_checksum,
  version_bytes, decode_program, decode_values, printable, to_lower, addr_bech32_to_pubkeyhash,
  addr_bech32_checksum,
}
use bitcoinlib.Encoding.Address.Strings.{
  Spells, spelling, Spells-append, array_to_codestring-Spells, codestring_to_array-Spells,
  length-Spells, IsPlain, Spells-IsPlain, printable-IsPlain, split_last_one-Spells,
}
use native.Mathlib.Nat.{add-mul}

-- The constant that belongs to a version.
abbrev pub constant_of : ℕ → ℕ
constant_of zero = 1
constant_of (suc version) = bech32m_const

choose_checksum_lem : (witver : ℕ) → choose_checksum witver 1 ≡ (witver, constant_of witver)
unfolding choose_checksum
choose_checksum_lem zero = refl
choose_checksum_lem (suc witver) = ground arith

require_checksum_lem : (witver : ℕ) → require_checksum witver (constant_of witver) ≡ ok tt
unfolding require_checksum
require_checksum_lem zero = refl
require_checksum_lem (suc witver) = ground arith

either_constant :
    (witver : ℕ) → (constant_of witver == 1 || constant_of witver == bech32m_const) ≡ true
either_constant zero = refl
either_constant (suc witver) = refl

-- The sizes of programs that the decoder takes.
abbrev pub IsProgramSize : ℕ → ℕ → Type 0
IsProgramSize witver size = (size ≡ 20) ⊎ (size ≡ 32) ⊎ (0 < witver) × (2 ≤ size) × (size ≤ 40)

decode_program_lem :
    (program digits : List ℕ) (witver : ℕ) (include_witver : Bool)
    → convertbits digits 5 8 false ≡ ok (some program)
    → witver ≤ 16
    → IsProgramSize witver (length program)
    → decode_program (witver ∷ digits) include_witver
      ≡ ok (version_bytes include_witver witver (length program) ++ program)
unfolding decode_program
decode_program_lem program digits witver include_witver e h size = rw e (ground arith)

encode_program_lem :
    (program hrp digits s t : List ℕ) (witver : ℕ)
    → witver ≤ 16
    → convertbits program 8 5 true ≡ ok (some digits)
    → Spells (witver ∷ digits) s
    → Spells (checksum (constant_of witver) (expand_prefix hrp ++ (witver ∷ digits))) t
    → encode_program program hrp witver (49 ∷ []) 1 ≡ ok (hrp ++ (49 ∷ (s ++ t)))
unfolding encode_program
encode_program_lem program hrp digits s t witver h e p q =
    rw (choose_checksum_lem witver, e, array_to_codestring-Spells p, array_to_codestring-Spells q)
      (ground arith)

checksum-small :
    (constant : ℕ) (values : List ℕ)
    → (length (checksum constant values) ≡ 6) × All (λ d. d < 32) (checksum constant values)
unfolding checksum
checksum-small constant values = checksum_digits-small 6 _

polymod_lem :
    (hrp values : List ℕ) (witver : ℕ)
    → bech32_polymod (
        expand_prefix hrp
        ++ (values ++ checksum (constant_of witver) (expand_prefix hrp ++ values)))
      ≡ constant_of witver
polymod_lem hrp values witver =
    let all = expand_prefix hrp ++ values in
    let (l, d) = checksum-small (constant_of witver) all in
    ap bech32_polymod
      (sym (append_assoc (expand_prefix hrp) values (checksum (constant_of witver) all)))
    ∙ (bech32_polymod-checksum (constant_of witver) all (checksum (constant_of witver) all)
        (small witver) l d).0
  where
    small : (version : ℕ) → constant_of version < 2 ^ 30
    small zero = omega arith
    small (suc version) = omega arith

decode_values_lem :
    (program hrp digits : List ℕ) (witver : ℕ) (include_witver : Bool)
    → convertbits digits 5 8 false ≡ ok (some program)
    → witver ≤ 16
    → IsProgramSize witver (length program)
    → decode_values hrp
        ((witver ∷ digits)
          ++ checksum (constant_of witver) (expand_prefix hrp ++ (witver ∷ digits)))
        include_witver
      ≡ ok (version_bytes include_witver witver (length program) ++ program)
unfolding decode_values
decode_values_lem program hrp digits witver include_witver e h size =
    let values : List ℕ = witver ∷ digits in
    let ck = checksum (constant_of witver) (expand_prefix hrp ++ values) in
    let (l, d) = checksum-small (constant_of witver) (expand_prefix hrp ++ values) in
    let cut : take (length (values ++ ck) - 6) (values ++ ck) ≡ values =
      take-append values ck _ (omega (arith, length-append values ck, l)) in
    rw (polymod_lem hrp values witver, either_constant witver, require_checksum_lem witver, cut)
      (decode_program_lem program digits witver include_witver e h size)

total_bits-length : (width : ℕ) (ds : List ℕ) → total_bits width ds ≡ length ds * width
unfolding total_bits
total_bits-length width [] = omega arith
total_bits-length width (d ∷ ds) =
    omega (arith, total_bits-length width ds, add-mul 1 (length ds) width)

lower_address :
    (hrp : List ℕ) {ds s : List ℕ}
    → All IsPlain hrp
    → Spells ds s
    → (printable (hrp ++ (49 ∷ s)) ≡ true) × (map to_lower (hrp ++ (49 ∷ s)) ≡ hrp ++ (49 ∷ s))
lower_address hrp {ds} {s} plain p =
    let one : IsPlain 49 = record { lowest = omega arith; highest = omega arith; lower = refl } in
    printable-IsPlain (hrp ++ (49 ∷ s))
      (All-append IsPlain hrp (49 ∷ s) plain (one, Spells-IsPlain p))

addr_bech32_checksum_lem :
    (hrp ds s : List ℕ)
    → All IsPlain hrp
    → Spells ds s
    → addr_bech32_checksum (hrp ++ (49 ∷ s)) ≡ ok (bech32_polymod (expand_prefix hrp ++ ds))
unfolding addr_bech32_checksum
addr_bech32_checksum_lem hrp ds s plain p =
    rw ((lower_address hrp plain p).1, split_last_one-Spells hrp p, codestring_to_array-Spells p)
      refl

-- The parts of an address are decoded.
decode_parts :
    (hrp prefix ds s program : List ℕ) (include_witver : Bool)
    → All IsPlain hrp
    → 0 < length hrp
    → length hrp + length ds ≤ 89
    → 6 ≤ length ds
    → prefix_fits prefix hrp ≡ true
    → Spells ds s
    → decode_values hrp ds include_witver ≡ ok program
    → addr_bech32_to_pubkeyhash (hrp ++ (49 ∷ s)) prefix include_witver ≡ ok program
unfolding addr_bech32_to_pubkeyhash
decode_parts hrp prefix ds s program include_witver plain some_prefix short long fits p e =
    let text = hrp ++ (49 ∷ s) in
    let (print, low) = lower_address hrp plain p in
    let size : length text ≡ length hrp + suc (length ds) =
      length-append hrp (49 ∷ s) ∙ rw (length-Spells p) refl in
    rw
      (
        low,
        print,
        bytes_eq_refl text,
        split_last_one-Spells hrp p,
        size,
        fits,
        codestring_to_array-Spells p,
        e,
      )
      (ground (arith, some_prefix, short, long))

-- What the second part writes is read back.
pub addr_bech32_to_pubkeyhash-encode_program :
    (program hrp prefix : List ℕ) (witver : ℕ) (include_witver : Bool)
    → IsBytes program
    → witver ≤ 16
    → IsProgramSize witver (length program)
    → All IsPlain hrp
    → 0 < length hrp
    → length hrp ≤ 18
    → prefix_fits prefix hrp ≡ true
    → (s : List ℕ) × (encode_program program hrp witver (49 ∷ []) 1 ≡ ok (hrp ++ (49 ∷ s)))
      × (addr_bech32_to_pubkeyhash (hrp ++ (49 ∷ s)) prefix include_witver
          ≡ ok (version_bytes include_witver witver (length program) ++ program))
      × (addr_bech32_checksum (hrp ++ (49 ∷ s)) ≡ ok (constant_of witver))
addr_bech32_to_pubkeyhash-encode_program program hrp prefix witver include_witver bytes version size
      plain some_prefix short fits =
    let (digits, e, small, count, back) =
      convertbits-convertbits 8 5 program (omega arith) (omega arith) bytes in
    let all = expand_prefix hrp ++ (witver ∷ digits) in
    let ck = checksum (constant_of witver) all in
    let (l, d) = checksum-small (constant_of witver) all in
    let (s, p) = spelling (witver ∷ digits) (omega (arith, version), small) in
    let (t, q) = spelling ck d in
    let few : length digits ≤ 64 =
      ground (arith, count, size, total_bits-length 5 digits, total_bits-length 8 program) in
    let sum = length-append (witver ∷ digits) ck in
    (
      s ++ t,
      encode_program_lem program hrp digits s t witver version e p q,
      decode_parts hrp prefix ((witver ∷ digits) ++ ck) (s ++ t) _ include_witver plain some_prefix
          (omega (arith, few, short, sum, l)) (omega (arith, sum, l)) fits (Spells-append p q)
          (decode_values_lem program hrp digits witver include_witver back version size),
      addr_bech32_checksum_lem hrp _ _ plain (Spells-append p q)
          ∙ ap ok (polymod_lem hrp (witver ∷ digits) witver),
    )
