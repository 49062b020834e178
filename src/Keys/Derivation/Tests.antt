-- ===== src/Keys/Derivation/Tests.antt =====
-- Runs of the child key derivation of bitcoinlib/keys.py. The curve of the tests has one point, the
-- generator of secp256k1, and a constant in place of the hash.
use bitcoinlib.Common.{
  ℕ, ◌+◌, ◌≡◌, refl, List, [], ◌∷◌, false, some, ok, err, bkey_error, replicate, take, arith,
}
use bitcoinlib.Encoding.Bytes.{little_digits}
use bitcoinlib.Keys.Derivation.{
  Point, Curve, HdKey, compress, decompress, private_key, child_private, child_public, key_for_path,
  public,
}
use bitcoinlib.Keys.Derivation.Text.{read_index}
use bitcoinlib.Keys.Derivation.Public.{IsPublicOf, IsCurve}
use bitcoinlib.Keys.Derivation.Paths.{key_for_path-public}

abbrev base_point : Point
base_point = (
  0x79be_667e_f9dc_bbac_55a0_6295_ce87_0b07_029b_fcdb_2dce_28d9_59f2_815b_16f8_1798,
  0x483a_da77_26a3_c465_5da4_fbfc_0e11_08a8_fd17_b448_a685_5419_9c47_d08f_fb10_d4b8,
)

-- The y of the generator is found from its compressed form.
base_point_coordinates : decompress (compress base_point) ≡ base_point
unfolding decompress compress little_digits
base_point_coordinates = refl

abbrev curve : Curve
curve = record {
  ec_point = λ m. base_point;
  add = λ p q. base_point;
  hmac_sha512 = λ key message. replicate 64 1;
  hash160 = λ message. take 20 message;
}

curve-IsCurve : IsCurve curve
curve-IsCurve = record { sum = λ a b p q r. refl; lift = λ m p q. base_point_coordinates }

abbrev master : HdKey
master = record {
  secret = some 5;
  public_byte = compress base_point;
  point = some base_point;
  chain = replicate 32 7;
  depth = 0;
  parent_fingerprint = 0 ∷ 0 ∷ 0 ∷ 0 ∷ [];
  child_index = 0;
}

-- m/3
abbrev item : List ℕ
item = 51 ∷ []

abbrev child : HdKey
child =
    private_key curve
      (0x0101_0101_0101_0101_0101_0101_0101_0101_0101_0101_0101_0101_0101_0101_0101_0101 + 5)
      (replicate 32 1) master 3

derive_child : key_for_path curve ((109 ∷ []) ∷ item ∷ []) master ≡ ok child
unfolding key_for_path private_key compress little_digits read_index child_private
derive_child = refl

hardened_public : child_public curve 0x8000_0001 (public master) ≡ err bkey_error
unfolding child_public
hardened_public = refl

private_of_public : child_private curve 0 false (public master) ≡ err bkey_error
unfolding child_private public
private_of_public = refl

-- A hardened item of a path is derived as if it were not, on a public key: m/3' and m/3 agree.
hardened_item_of_public :
    key_for_path curve ((109 ∷ []) ∷ (51 ∷ 39 ∷ []) ∷ []) (public master)
    ≡ key_for_path curve ((109 ∷ []) ∷ item ∷ []) (public master)
unfolding key_for_path public compress little_digits read_index
hardened_item_of_public = refl

read_item : read_index item ≡ ok (3, false)
unfolding read_index
read_item = refl

key_for_path-public_example :
    (child' : HdKey) × (key_for_path curve ((109 ∷ []) ∷ item ∷ []) (public master) ≡ ok child')
    × (key_for_path curve ((77 ∷ []) ∷ item ∷ []) master ≡ ok child')
    × IsPublicOf child child'
key_for_path-public_example =
    key_for_path-public curve curve-IsCurve item [] master child 5
      (record { secret = refl; bound = omega arith; public_byte = refl; point = refl })
      ((3, read_item, omega arith), tt) derive_child
