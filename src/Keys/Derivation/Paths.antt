-- ===== src/Keys/Derivation/Paths.antt =====
-- `key_for_path` of bitcoinlib/keys.py on a private key and on its public key.
use bitcoinlib.Common.{
  ℕ, ◌<◌, ◌≡◌, refl, sym, ap, ◌∙◌, List, [], ◌∷◌, true, false, none, some, ok, arith, ◌>>=◌, All,
  bind_ok,
}
use bitcoinlib.Keys.Derivation.{
  Bytes, Curve, HdKey, public_key, fingerprint, derive_with, child_private, child_public,
  derive_item, derive_items, key_for_path, public,
}
use bitcoinlib.Keys.Derivation.Text.{read_index}
use bitcoinlib.Keys.Derivation.Public.{
  IsPublicOf, IsPrivate, IsCurve, public-IsPublicOf, child_public-child_private,
}

-- An item that stands for an index below 2 ^ 31, which is not hardened.
abbrev pub IsPlainItem : Bytes → Type 0
IsPlainItem item = (i : ℕ) × (read_index item ≡ ok (i, false)) × (i < 0x8000_0000)

module _ (c : Curve) where
  derive_item-private :
      (item : Bytes) (k : HdKey) (s i : ℕ)
      → read_index item ≡ ok (i, false)
      → k.secret ≡ some s
      → derive_item c false item k ≡ child_private c i false k
  unfolding derive_item derive_with
  derive_item-private item k s i r e = rw r (ap (derive_with c false i false k) e)

  derive_item-public :
      (item : Bytes) (k : HdKey) (i : ℕ)
      → read_index item ≡ ok (i, false)
      → k.secret ≡ none
      → derive_item c false item k ≡ child_public c i k
  unfolding derive_item derive_with
  derive_item-public item k i r e = rw r (ap (derive_with c false i false k) e)

  -- The public master key of a private key: the secret is not looked at.
  derive_item-master :
      (item : Bytes) (k : HdKey) (s i : ℕ)
      → read_index item ≡ ok (i, false)
      → k.secret ≡ some s
      → derive_item c true item k ≡ child_public c i (public k)
  unfolding derive_item derive_with child_public public public_key fingerprint
  derive_item-master item k s i r e = rw r (ap (derive_with c true i false k) e)

module _ (c : Curve) (laws : IsCurve c) where
  derive_items-IsPublicOf :
      (path : List Bytes) (k k' child : HdKey) (s : ℕ)
      → IsPrivate c k s
      → IsPublicOf k k'
      → All IsPlainItem path
      → derive_items c false path k ≡ ok child
      → (child' : HdKey) × (derive_items c false path k' ≡ ok child') × IsPublicOf child child'
  unfolding derive_items
  derive_items-IsPublicOf [] k k' child s priv p h e =
      let same : k ≡ child = cc in (k', refl, rw (← same) p)
  derive_items-IsPublicOf (item ∷ path) k k' child s priv p h e =
      let (i, r, small) = h.0 in
      let (next, f, g) = bind_ok (derive_item c false item k) _ child e in
      let ((m, priv'), (next', f', p')) =
        child_public-child_private c laws k k' next s i priv p (omega (arith, small))
          (sym (derive_item-private c item k s i r (priv.secret)) ∙ f) in
      let (child', g', q) = derive_items-IsPublicOf path next next' child m priv' p' h.1 g in
      (child', rw (derive_item-public c item k' i r (p.secret) ∙ f') g', q)

  -- Where a path of indices below 2 ^ 31, none of them hardened, derives a private key, the same path
  -- derives its public key from the public key alone, and so does the path that begins with M from the
  -- private key. The condition is that the curve has its laws.
  pub key_for_path-public :
      (item : Bytes) (path : List Bytes) (k child : HdKey) (s : ℕ)
      → IsPrivate c k s
      → All IsPlainItem (item ∷ path)
      → key_for_path c ((109 ∷ []) ∷ item ∷ path) k ≡ ok child
      → (child' : HdKey) × (key_for_path c ((109 ∷ []) ∷ item ∷ path) (public k) ≡ ok child')
        × (key_for_path c ((77 ∷ []) ∷ item ∷ path) k ≡ ok child')
        × IsPublicOf child child'
  unfolding key_for_path derive_items
  key_for_path-public item path k child s priv h e =
      let (child', f, p) =
        derive_items-IsPublicOf (item ∷ path) k (public k) child s priv (public-IsPublicOf k) h e in
      let (i, r, small) = h.0 in
      let same : derive_item c true item k ≡ derive_item c false item (public k) =
        derive_item-master c item k s i r (priv.secret)
        ∙ sym (derive_item-public c item (public k) i r refl_secret) in
      (child', f, ap (λ x. x >>= derive_items c false path) same ∙ f, p)
    where
      refl_secret : (public k).secret ≡ none
      refl_secret = unfold public in refl
