-- ===== src/Keys/Derivation/Public.antt =====
-- Public derivation in bitcoinlib/keys.py follows private derivation: the public keys of a wallet
-- can be derived without its private keys.
use bitcoinlib.Common.{
  ℕ, ◌+◌, ◌%◌, ◌≤◌, ◌<◌, ◌≡◌, ◌≢◌, refl, sym, ap, ◌∙◌, ◌++◌, Bool, true, false, none, some,
  Exception, ok, err, ltb, leb, if◌then◌else◌, arith, take, bind_ok, guard_ok, ltb→lt,
}
use mathlib.Core.Path.{ap₂}
use bitcoinlib.Encoding.Bytes.{to_big}
use bitcoinlib.Keys.Derivation.{
  Bytes, Point, Curve, HdKey, secp256k1_n, compress, decompress, public_point, derivation_data,
  key_derivation, fingerprint, private_key, public_key, child_of_secret, child_private,
  child_public, public,
}

-- The keys have the same public part, and the second one has no private part.
pub record IsPublicOf (k k' : HdKey) : Type 0 where
  pub secret : k'.secret ≡ none
  pub public_byte : k'.public_byte ≡ k.public_byte
  pub point : public_point k' ≡ public_point k
  pub chain : k'.chain ≡ k.chain
  pub depth : k'.depth ≡ k.depth
  pub parent_fingerprint : k'.parent_fingerprint ≡ k.parent_fingerprint
  pub child_index : k'.child_index ≡ k.child_index

-- The secret is a number below the order that the public part belongs to.
pub record IsPrivate (c : Curve) (k : HdKey) (s : ℕ) : Type 0 where
  pub secret : k.secret ≡ some s
  pub bound : s < secp256k1_n
  pub public_byte : k.public_byte ≡ compress (c.ec_point s)
  pub point : public_point k ≡ c.ec_point s

-- What the derivation relies on: multiples of the generator add up, and the y of a multiple is
-- found again from its x and its parity.
pub record IsCurve (c : Curve) : Type 0 where
  pub sum :
      (a b : ℕ)
      → a < secp256k1_n
      → b < secp256k1_n
      → (a + b) % secp256k1_n ≢ 0
      → c.add (c.ec_point a) (c.ec_point b) ≡ c.ec_point ((a + b) % secp256k1_n)
  pub lift : (m : ℕ) → m < secp256k1_n → m ≢ 0 → decompress (compress (c.ec_point m)) ≡ c.ec_point m

pub public-IsPublicOf : (k : HdKey) → IsPublicOf k (public k)
unfolding public
public-IsPublicOf k = record {
  secret = refl;
  public_byte = refl;
  point = refl;
  chain = refl;
  depth = refl;
  parent_fingerprint = refl;
  child_index = refl;
}

-- The parts of a derivation that returns.
record IsDerived (c : Curve) (k : HdKey) (s index : ℕ) (child : HdKey) : Type 0 where
  pub bs : Bytes
  pub key : ℕ
  pub chain : Bytes
  pub written : to_big 4 index ≡ ok bs
  pub derived : key_derivation c (k.chain) (k.public_byte ++ bs) ≡ ok (key, chain)
  pub bound : key < secp256k1_n
  pub nonzero : (key + s) % secp256k1_n ≢ 0
  pub result : child ≡ private_key c ((key + s) % secp256k1_n) chain k index

unless_ok :
    (test : Bool) (e : Exception) (k child : HdKey)
    → (if test then err e else ok k) ≡ ok child
    → (test ≡ false) × (child ≡ k)
unless_ok true e k child h = cc
unless_ok false e k child h = (refl, cc)

module _ (c : Curve) where
  child_private-some :
      (k : HdKey) (s index : ℕ) (hardened : Bool)
      → k.secret ≡ some s
      → child_private c index hardened k ≡ child_of_secret c k s index hardened
  unfolding child_private child_of_secret
  child_private-some k s index hardened e = rw e refl

  child_of_secret-IsDerived :
      (k child : HdKey) (s index : ℕ)
      → child_of_secret c k s index false ≡ ok child
      → IsDerived c k s index child
  unfolding child_of_secret derivation_data
  child_of_secret-IsDerived k child s index h =
      let (d, e, h') = bind_ok (derivation_data k s index false) _ child h in
      let (bs, w, e') = bind_ok (to_big 4 index) _ d e in
      let (kc, f, h'') = bind_ok (key_derivation c (k.chain) (d.1)) _ child h' in
      let (bound, last) = guard_ok (ltb (kc.0) secp256k1_n) _ _ child h'' in
      let same : ◌≡◌ {A = ℕ × Bytes} (index, k.public_byte ++ bs) d = cc in
      let (nonzero, result) = unless_ok _ _ _ child last in
      record {
        bs = bs;
        key = kc.0;
        chain = kc.1;
        written = w;
        derived = rw (ap (λ x. x.1) same) f;
        bound = ltb→lt _ _ bound;
        nonzero = ground (arith, nonzero);
        result = rw (ap (λ x. x.0) same) result;
      }

  child_public-ok :
      (k : HdKey) (index key : ℕ) (bs chain : Bytes)
      → leb index 0x8000_0000 ≡ true
      → to_big 4 index ≡ ok bs
      → key_derivation c (k.chain) (k.public_byte ++ bs) ≡ ok (key, chain)
      → ltb key secp256k1_n ≡ true
      → child_public c index k
        ≡ ok (public_key c (compress (c.add (c.ec_point key) (public_point k))) chain k index)
  unfolding child_public
  child_public-ok k index key bs chain small written derived bound =
      rw (small, written, derived, bound) refl

  private_key-IsPrivate :
      (k : HdKey) (m index : ℕ) (chain : Bytes)
      → m < secp256k1_n
      → IsPrivate c (private_key c m chain k index) m
  unfolding private_key
  private_key-IsPrivate k m index chain h = record {
    secret = refl;
    bound = h;
    public_byte = refl;
    point = refl;
  }

module _ (c : Curve) (laws : IsCurve c) where
  public_key-IsPublicOf :
      (k k' : HdKey) (q : Point) (m index : ℕ) (chain : Bytes)
      → IsPublicOf k k'
      → q ≡ c.ec_point m
      → m < secp256k1_n
      → m ≢ 0
      → IsPublicOf (private_key c m chain k index) (public_key c (compress q) chain k' index)
  unfolding private_key public_key fingerprint
  public_key-IsPublicOf k k' q m index chain p e bound nonzero = record {
    secret = refl;
    public_byte = ap compress e;
    point = ap (λ t. decompress (compress t)) e ∙ laws.lift m bound nonzero;
    chain = refl;
    depth = ap (λ t. t + 1) (p.depth);
    parent_fingerprint = ap (λ t. take 4 (c.hash160 t)) (p.public_byte);
    child_index = refl;
  }

  -- One step, on any pair of a private key and its public key.
  pub child_public-child_private :
      (k k' child : HdKey) (s index : ℕ)
      → IsPrivate c k s
      → IsPublicOf k k'
      → index ≤ 0x8000_0000
      → child_private c index false k ≡ ok child
      → ((m : ℕ) × IsPrivate c child m)
        × ((child' : HdKey) × (child_public c index k' ≡ ok child') × IsPublicOf child child')
  child_public-child_private k k' child s index priv p small h =
      let d =
        child_of_secret-IsDerived c k child s index
          (sym (child_private-some c k s index false (priv.secret)) ∙ h) in
      let m = (d.key + s) % secp256k1_n in
      let bound : m < secp256k1_n = omega arith in
      let sum : c.add (c.ec_point d.key) (public_point k') ≡ c.ec_point m =
        ap (c.add (c.ec_point d.key)) (p.point ∙ priv.point)
        ∙ laws.sum (d.key) s (d.bound) (priv.bound) (d.nonzero) in
      let derived =
        ap₂ (λ x y. key_derivation c x (y ++ d.bs)) (p.chain) (p.public_byte) ∙ d.derived in
      (
        (m, rw d.result (private_key-IsPrivate c k m index (d.chain) bound)),
        (
          public_key c (compress (c.add (c.ec_point d.key) (public_point k'))) (d.chain) k' index,
          child_public-ok c k' index (d.key) (d.bs) (d.chain) (ground (arith, small)) (d.written)
              derived (ground (arith, d.bound)),
          rw d.result (public_key-IsPublicOf k k' _ m index (d.chain) p sum bound (d.nonzero)),
        ),
      )
