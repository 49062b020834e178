-- ===== src/Keys/Derivation.antt =====
-- bitcoinlib/keys.py, the child key derivation of `class HDKey`: `_key_derivation`,
-- `child_private`, `child_public`, `public`, `fingerprint` and `key_for_path`, with the coordinates
-- of a public key (`Key.x`, `Key.y`, `mod_sqrt`). The curve belongs to fastecdsa or ecdsa and the
-- hashes to hashlib, so these are an interface. Keys are compressed, as HDKey makes them.
pub mod Text
pub mod Public
pub mod Paths
mod Tests
use bitcoinlib.Common.{
  ℕ, zero, suc, ◌+◌, ◌-◌, ◌*◌, ◌/◌, ◌%◌, ◌^◌, List, [], ◌∷◌, ◌++◌, reverse, Bool, true, false,
  Option, none, some, Result, ok, err, bkey_error, index_error, ◌>>=◌, ◌>>◌, guard, ltb, leb, ◌==◌,
  if◌then◌else◌, bytes_eq, take, drop, bit_and, bit_or,
}
use bitcoinlib.Encoding.Bytes.{little_digits, from_big, to_big}
use bitcoinlib.Keys.Derivation.Text.{read_index}

abbrev pub Bytes : Type 0
Bytes = List ℕ

abbrev pub Point : Type 0
Point = ℕ × ℕ

-- The order of the generator, and the prime of the field.
abbrev pub secp256k1_n : ℕ
secp256k1_n = 0xffff_ffff_ffff_ffff_ffff_ffff_ffff_fffe_baae_dce6_af48_a03b_bfd2_5e8c_d036_4141

abbrev pub secp256k1_p : ℕ
secp256k1_p = 0xffff_ffff_ffff_ffff_ffff_ffff_ffff_ffff_ffff_ffff_ffff_ffff_ffff_fffe_ffff_fc2f

-- `ec_point` multiplies the generator, `add` adds two points, `hmac_sha512` takes the key first.
pub record Curve : Type 0 where
  pub ec_point : ℕ → Point
  pub add : Point → Point → Point
  pub hmac_sha512 : Bytes → Bytes → Bytes
  pub hash160 : Bytes → Bytes

-- `secret` is `none` for a public key; `point` holds the coordinates where they are computed.
pub record HdKey : Type 0 where
  pub secret : Option ℕ
  pub public_byte : Bytes
  pub point : Option Point
  pub chain : Bytes
  pub depth : ℕ
  pub parent_fingerprint : Bytes
  pub child_index : ℕ

-- Python's `pow(a, e, m)`, where `fuel` is at least the number of bits of `e`.
unfoldable pub pow_mod : ℕ → ℕ → ℕ → ℕ → ℕ
pow_mod zero a e m = 1 % m
pow_mod (suc fuel) a e m =
    let half = pow_mod fuel (a * a % m) (e / 2) m in
    if e == 0 then 1 % m else if e % 2 == 1 then half * a % m else half

unfoldable pub mod_sqrt : ℕ → ℕ
unfolding pow_mod
mod_sqrt a =
    pow_mod 256 a
      (28948022309329048855892746252171976963317496166410141009864396001977208667915 + 1)
      secp256k1_p

-- A compressed public key: the parity of y, and x in 32 bytes.
unfoldable pub compress : Point → Bytes
compress (x, y) = (if y % 2 == 1 then 3 else 2) ∷ reverse (little_digits 32 x)

-- `Key.x` and `Key.y` of a compressed key.
unfoldable pub decompress : Bytes → Point
unfolding mod_sqrt
decompress public_byte =
    let x = from_big (drop 1 public_byte) in
    let sign = if from_big (take 1 public_byte) == 3 then 1 else 0 in
    let y = mod_sqrt (x ^ 3 % secp256k1_p + 7 % secp256k1_p) in
    (x, if bit_and y 1 == sign then y else secp256k1_p - y)

-- `index.to_bytes(4, 'big')`
abbrev index_bytes : ℕ → Result Bytes
index_bytes = to_big 4

-- "Bitcoin seed"
abbrev bitcoin_seed : Bytes
bitcoin_seed = 66 ∷ 105 ∷ 116 ∷ 99 ∷ 111 ∷ 105 ∷ 110 ∷ 32 ∷ 115 ∷ 101 ∷ 101 ∷ 100 ∷ []

-- `self.chain or b"Bitcoin seed"`
abbrev pub derivation_chain : Bytes → Bytes
derivation_chain [] = bitcoin_seed
derivation_chain (b ∷ bs) = b ∷ bs

abbrev pub public_point : HdKey → Point
public_point k = elim (k.point) [ none ↦ decompress (k.public_byte) | some p ↦ p ]

-- The bytes that are hashed, and the child index with the hardened bit.
unfoldable pub derivation_data : HdKey → ℕ → ℕ → Bool → Result (ℕ × Bytes)
derivation_data k secret index true = do
  let hardened_index = bit_or index 0x8000_0000
  bs ← index_bytes hardened_index
  ok (hardened_index, 0 ∷ (reverse (little_digits 32 secret) ++ bs))
derivation_data k secret index false = do bs ← index_bytes index; ok (index, k.public_byte ++ bs)

module _ (c : Curve) where
  unfoldable pub key_derivation : Bytes → Bytes → Result (ℕ × Bytes)
  key_derivation chain seed =
      let i = c.hmac_sha512 (derivation_chain chain) seed in
      let key = from_big (take 32 i) in
      if leb secp256k1_n key then err bkey_error else ok (key, drop 32 i)

  unfoldable pub fingerprint : HdKey → Bytes
  fingerprint k = take 4 (c.hash160 k.public_byte)

  -- `HDKey(key=newkey, …)` of a private key: the constructor computes the public key.
  unfoldable pub private_key : ℕ → Bytes → HdKey → ℕ → HdKey
  unfolding fingerprint
  private_key newkey chain k index = record {
    secret = some newkey;
    public_byte = compress (c.ec_point newkey);
    point = some (c.ec_point newkey);
    chain = chain;
    depth = k.depth + 1;
    parent_fingerprint = fingerprint k;
    child_index = index;
  }

  -- `HDKey(key=secret, is_private=False, …)` of a compressed public key
  unfoldable pub public_key : Bytes → Bytes → HdKey → ℕ → HdKey
  unfolding fingerprint
  public_key public_byte chain k index = record {
    secret = none;
    public_byte = public_byte;
    point = none;
    chain = chain;
    depth = k.depth + 1;
    parent_fingerprint = fingerprint k;
    child_index = index;
  }

  unfoldable pub child_of_secret : HdKey → ℕ → ℕ → Bool → Result HdKey
  unfolding key_derivation derivation_data private_key
  child_of_secret k secret index hardened = do
    (child_index, data_) ← derivation_data k secret index hardened
    (key, chain) ← key_derivation k.chain data_
    guard (ltb key secp256k1_n) bkey_error
    let newkey = (key + secret) % secp256k1_n
    if newkey == 0 then err bkey_error else ok (private_key newkey chain k child_index)

  unfoldable pub child_private : ℕ → Bool → HdKey → Result HdKey
  unfolding child_of_secret
  child_private index hardened k = elim (k.secret) [
    | none ↦ err bkey_error
    | some secret ↦ child_of_secret k secret index hardened
  ]

  unfoldable pub child_public : ℕ → HdKey → Result HdKey
  unfolding key_derivation public_key compress
  child_public index k = do
    guard (leb index 0x8000_0000) bkey_error
    bs ← index_bytes index
    (key, chain) ← key_derivation k.chain (k.public_byte ++ bs)
    guard (ltb key secp256k1_n) bkey_error
    let ki = c.add (c.ec_point key) (public_point k)
    ok (public_key (compress ki) chain k index)

  -- The choice between the two derivations: `secret` is that of `k`.
  unfoldable pub derive_with : Bool → ℕ → Bool → HdKey → Option ℕ → Result HdKey
  derive_with first_public index hardened k none = child_public index k
  derive_with first_public index hardened k (some secret) =
      if first_public then child_public index k else child_private index hardened k

  -- One item of the loop of `key_for_path`.
  unfoldable pub derive_item : Bool → Bytes → HdKey → Result HdKey
  unfolding derive_with
  derive_item first_public item k = do
    (index, hardened) ← read_index item
    derive_with first_public index hardened k k.secret

  unfoldable pub derive_items : Bool → List Bytes → HdKey → Result HdKey
  unfolding derive_item
  derive_items first_public [] k = ok k
  derive_items first_public (item ∷ path) k =
      derive_item first_public item k >>= derive_items false path

  -- `path[0]` may be `m` or `M`; the key type is not 'single'.
  unfoldable pub key_for_path : List Bytes → HdKey → Result HdKey
  unfolding derive_items
  key_for_path [] k = err index_error
  key_for_path (item ∷ path) k =
      if bytes_eq item (109 ∷ [])
      then derive_items false path k
      else if bytes_eq item (77 ∷ [])
      then derive_items true path k
      else derive_items false (item ∷ path) k

-- The private parts are removed, and the coordinates stay where they are computed.
unfoldable pub public : HdKey → HdKey
public k = record k { secret = none }
