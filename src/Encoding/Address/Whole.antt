-- ===== src/Encoding/Address/Whole.antt =====
-- `addr_bech32_to_pubkeyhash` of bitcoinlib/encoding.py reads what `pubkeyhash_to_addr_bech32` writes.
use bitcoinlib.Common.{
  ℕ, zero, suc, ◌+◌, ◌-◌, ◌==◌, ltb, ◌≤◌, ◌<◌, ◌≡◌, refl, sym, ap, ◌∙◌, List, [], ◌∷◌, ◌++◌, Bool,
  true, false, ok, All, length, arith,
}
use bitcoinlib.Common.Integer.{pos}
use bitcoinlib.Encoding.Bytes.{IsBytes}
use bitcoinlib.Encoding.Hex.{to_bytes}
use bitcoinlib.Encoding.Address.{
  one_of, read_program, pubkeyhash_to_addr_bech32, addr_bech32_to_pubkeyhash, addr_bech32_checksum,
  version_bytes, prefix_fits,
}
use bitcoinlib.Encoding.Address.Strings.{IsPlain}
use bitcoinlib.Encoding.Address.RoundTrip.{
  IsProgramSize, constant_of, addr_bech32_to_pubkeyhash-encode_program,
}

-- The sizes at which an argument is a program without the version and size bytes.
abbrev pub is_bare_size : ℕ → Bool
is_bare_size n = one_of n (20 ∷ 32 ∷ 40 ∷ [])

-- How the arguments pubkeyhash and witver carry a version and a program: as they are, or with the
-- version and size bytes in front, where witver counts for the version 0 only.
pub data Carries : List ℕ → ℕ → ℕ → List ℕ → Type 0 where
  bare :
      {program : List ℕ} {witver : ℕ}
      → is_bare_size (length program) ≡ true
      → Carries program witver witver program
  prefixed :
      {program : List ℕ} {witver version : ℕ}
      → is_bare_size (length program + 2) ≡ false
      → (version ≡ 0 → witver ≡ 0)
      → Carries (version_bytes true version (length program) ++ program) witver version program

read_program-Carries :
    {pubkeyhash program : List ℕ} {witver version : ℕ}
    → Carries pubkeyhash witver version program
    → read_program pubkeyhash witver ≡ ok (pos version, program)
unfolding read_program
read_program-Carries (Carries.bare h) = rw h refl
read_program-Carries
      (Carries.prefixed {program = program} {witver = witver} {version = version} h k) =
    behind version program witver h k
  where
    two : (n : ℕ) → n + 2 ≡ suc (suc n)
    two n = omega arith

    behind :
        (version : ℕ) (program : List ℕ) (witver : ℕ)
        → is_bare_size (length program + 2) ≡ false
        → (version ≡ 0 → witver ≡ 0)
        → read_program (version_bytes true version (length program) ++ program) witver
          ≡ ok (pos version, program)
    behind zero program witver h k =
        let long : is_bare_size (suc (suc (length program))) ≡ false =
          sym (ap is_bare_size (two (length program))) ∙ h in
        let same : length program == length program ≡ true = ground arith in
        unfold read_program in rw (long, k refl, same) refl
    behind (suc v) program witver h k =
        let long : is_bare_size (suc (suc (length program))) ≡ false =
          sym (ap is_bare_size (two (length program))) ∙ h in
        let same : length program == length program ≡ true = ground arith in
        let not_zero : suc v == 0 ≡ false = ground arith in
        let high : ltb (suc v + 80) 80 ≡ false = ground arith in
        let byte : suc v + 80 == 0 ≡ false = ground arith in
        let version : suc v + 80 - 80 ≡ suc v = omega arith in
        unfold read_program in rw (long, not_zero, same, byte, high, version) refl

-- A program of 20 or 32 bytes, or for a version above 0 of 2 to 40 bytes, with a version of at most
-- 16 and a printable lower-case prefix of 1 to 18 characters, has an address, which begins with the
-- prefix and the separator. Decoding it, with that prefix expected or with none, returns the
-- program, behind the version and size bytes where these are asked for, and the checksum of the
-- address is 1 for version 0 and the constant of Bech32m for the others. The program is given on its
-- own where it has 20, 32 or 40 bytes, with the version as another argument, and else behind its
-- version and size bytes where these do not make it 20, 32 or 40 bytes long, with 0 as the other
-- version if the version is 0. What is given must not be the text of hexadecimal digits.
pub addr_bech32_to_pubkeyhash-pubkeyhash_to_addr_bech32 :
    (pubkeyhash program hrp prefix : List ℕ) (witver version : ℕ) (include_witver : Bool)
    → Carries pubkeyhash witver version program
    → to_bytes pubkeyhash ≡ pubkeyhash
    → IsBytes program
    → version ≤ 16
    → IsProgramSize version (length program)
    → All IsPlain hrp
    → 0 < length hrp
    → length hrp ≤ 18
    → prefix_fits prefix hrp ≡ true
    → (s : List ℕ) × (pubkeyhash_to_addr_bech32 pubkeyhash hrp witver (49 ∷ []) 1
        ≡ ok (hrp ++ (49 ∷ s)))
      × (addr_bech32_to_pubkeyhash (hrp ++ (49 ∷ s)) prefix include_witver
          ≡ ok (version_bytes include_witver version (length program) ++ program))
      × (addr_bech32_checksum (hrp ++ (49 ∷ s)) ≡ ok (constant_of version))
unfolding pubkeyhash_to_addr_bech32
addr_bech32_to_pubkeyhash-pubkeyhash_to_addr_bech32 pubkeyhash program hrp prefix witver version
      include_witver carried no_text bytes small size plain some_prefix short fits =
    let (s, e, decoded, sum) =
      addr_bech32_to_pubkeyhash-encode_program program hrp prefix version include_witver bytes small
        size plain some_prefix short fits in
    (s, rw (no_text, read_program-Carries carried) e, decoded, sum)
