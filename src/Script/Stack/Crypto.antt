-- ===== src/Script/Stack/Crypto.antt =====
-- bitcoinlib/scripts.py, `class Stack`: hashes and signature checks, with `hash160` of
-- bitcoinlib/encoding.py. The hash functions belong to hashlib and pycryptodome, and the curve
-- arithmetic under `Signature.verify` to fastecdsa or ecdsa, so both enter as an interface.
pub mod Matching
pub mod Multisig
use bitcoinlib.Common.{
  ℕ, zero, suc, List, [], ◌∷◌, Bool, true, false, Option, none, some, Result, ok, err, index_error,
  if◌then◌else◌,
}
use bitcoinlib.Common.Integer.{ℤ, pos, negsuc}
use bitcoinlib.Script.Stack.{
  Bytes, Stack, Method, ◌>>=◌, ◌>>◌, return, pop, push, pop_as_number, op_verify, truth,
}

-- `parse_bytes` is `Signature.parse_bytes`, with the public key that it may be given; `verify` is
-- `Signature.verify` on a message and a public key.
pub record Crypto (Signature : Type 0) : Type 0 where
  pub ripemd160 : Bytes → Bytes
  pub sha1 : Bytes → Bytes
  pub sha256 : Bytes → Bytes
  pub parse_bytes : Bytes → Option Bytes → Result Signature
  pub verify : Signature → Bytes → Bytes → Result Bool

-- `range(n)` makes no round for a negative n.
abbrev rounds : ℤ → ℕ
rounds (pos n) = n
rounds (negsuc n) = 0

-- `n` items, the top of the stack first
pub pop_many : ℕ → Method (List Bytes)
pop_many zero = return []
pop_many (suc n) = do x ← pop; xs ← pop_many n; return (x ∷ xs)

-- `if len(self): self.pop()`
abbrev pop_extra : Method (Unit {0})
pop_extra [] = ok (tt, [])
pop_extra (x ∷ s) = ok (tt, s)

abbrev is_nil : List Bytes → Bool
is_nil [] = true
is_nil (x ∷ xs) = false

module _ {Signature : Type 0} (c : Crypto Signature) where
  unfoldable pub hash160 : Bytes → Bytes
  hash160 x = c.ripemd160 (c.sha256 x)

  unfoldable pub op_ripemd160 : Method Bool
  op_ripemd160 = do x ← pop; push (c.ripemd160 x); return true

  unfoldable pub op_sha1 : Method Bool
  op_sha1 = do x ← pop; push (c.sha1 x); return true

  unfoldable pub op_sha256 : Method Bool
  op_sha256 = do x ← pop; push (c.sha256 x); return true

  unfoldable pub op_hash160 : Method Bool
  op_hash160 = do x ← pop; push (hash160 x); return true

  unfoldable pub op_hash256 : Method Bool
  unfolding op_sha256
  op_hash256 = do op_sha256; op_sha256; return true

  -- Whether a signature is one of the message by the key.
  unfoldable pub check : Bytes → Option Bytes → Bytes → Bytes → Result Bool
  check signature public_key message key = elim (c.parse_bytes signature public_key) [
    | err e ↦ err e
    | ok s ↦ c.verify s message key
  ]

  abbrev pub push_check : Result Bool → Method Bool
  push_check (err e) s = err e
  push_check (ok b) s = ok (true, truth b ∷ s)

  unfoldable pub op_checksig : Bytes → Method Bool
  unfolding check
  op_checksig message = do
    public_key ← pop
    signature ← pop
    push_check (check signature (some public_key) message public_key)

  unfoldable pub op_checksigverify : Bytes → Method Bool
  unfolding op_checksig op_verify
  op_checksigverify message = do
    done ← op_checksig message
    if done then op_verify else return false

  -- The loop over the public keys. The list of signatures is what `sigcount` has not passed; it is
  -- empty at the end exactly when all of them were counted.
  unfoldable pub count_signatures : Bytes → List Bytes → List Bytes → Result (List Bytes)
  count_signatures message [] signatures = ok signatures
  count_signatures message (key ∷ keys) [] = err index_error
  count_signatures message (key ∷ keys) (signature ∷ signatures) =
      elim (check signature none message key) [
        | err e ↦ err e
        | ok false ↦ count_signatures message keys (signature ∷ signatures)
        | ok true ↦ elim (is_nil signatures) [
          | true ↦ ok []
          | false ↦ count_signatures message keys signatures
        ]
      ]

  abbrev push_count : Result (List Bytes) → Method Bool
  push_count (err e) s = err e
  push_count (ok rest) s = ok (true, truth (is_nil rest) ∷ s)

  unfoldable pub op_checkmultisig : Bytes → Method Bool
  unfolding pop_as_number pop_many
  op_checkmultisig message = do
    n ← pop_as_number
    pubkeys ← pop_many (rounds n)
    m ← pop_as_number
    signatures ← pop_many (rounds m)
    pop_extra
    push_count (count_signatures message pubkeys signatures)

  unfoldable pub op_checkmultisigverify : Bytes → Method Bool
  unfolding op_checkmultisig op_verify
  op_checkmultisigverify message = do
    done ← op_checkmultisig message
    if done then op_verify else return false
