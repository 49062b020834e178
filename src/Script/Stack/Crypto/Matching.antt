-- ===== src/Script/Stack/Crypto/Matching.antt =====
-- Signatures that match keys in order, and the loop of `op_checkmultisig` of bitcoinlib/scripts.py.
use bitcoinlib.Common.{
  ◌≡◌, refl, inl, inr, List, [], ◌∷◌, Bool, true, false, none, ok, err, Exception, sym, ◌∙◌, All,
  Result-cases, if◌then◌else◌,
}
use bitcoinlib.Script.Stack.{Bytes}
use bitcoinlib.Script.Stack.Crypto.{Crypto, is_nil, check, count_signatures}

module _ {Signature : Type 0} (c : Crypto Signature) (message : Bytes) where
  -- The signatures stand for distinct keys in the order of the keys.
  pub data Matches : List Bytes → List Bytes → Type 0 where
    finished : {keys : List Bytes} → Matches keys []
    use_key :
        {key signature : Bytes} {keys signatures : List Bytes}
        → check c signature none message key ≡ ok true
        → Matches keys signatures
        → Matches (key ∷ keys) (signature ∷ signatures)
    skip_key :
        {key : Bytes} {keys signatures : List Bytes}
        → Matches keys signatures
        → Matches (key ∷ keys) signatures

  -- Every one of the signatures can be checked against every key without an exception.
  abbrev pub Answers : List Bytes → List Bytes → Type 0
  Answers keys signatures =
      All
        (λ key.
          All (λ signature. (b : Bool) × (check c signature none message key ≡ ok b)) signatures)
        keys

  Answers-tail :
      (keys signatures : List Bytes) (signature : Bytes)
      → Answers keys (signature ∷ signatures)
      → Answers keys signatures
  Answers-tail [] signatures signature h = tt
  Answers-tail (key ∷ keys) signatures signature h =
      (h.0.1, Answers-tail keys signatures signature h.1)

  -- Signatures that match still match with the first one left out.
  Matches-tail :
      {keys signatures : List Bytes} {signature : Bytes}
      → Matches keys (signature ∷ signatures)
      → Matches keys signatures
  Matches-tail (use_key valid rest) = skip_key rest
  Matches-tail (skip_key rest) = skip_key (Matches-tail rest)

  -- One round of the loop.
  count_valid :
      (key signature : Bytes) (keys signatures : List Bytes)
      → check c signature none message key ≡ ok true
      → count_signatures c message (key ∷ keys) (signature ∷ signatures)
        ≡ (if is_nil signatures then ok [] else count_signatures c message keys signatures)
  unfolding count_signatures
  count_valid key signature keys [] h = rw (h, count_signatures)
  count_valid key signature keys (g ∷ gs) h = rw (h, count_signatures)

  count_invalid :
      (key signature : Bytes) (keys signatures : List Bytes)
      → check c signature none message key ≡ ok false
      → count_signatures c message (key ∷ keys) (signature ∷ signatures)
        ≡ count_signatures c message keys (signature ∷ signatures)
  unfolding count_signatures
  count_invalid key signature keys signatures h = rw (h, count_signatures)

  count_raises :
      (key signature : Bytes) (keys signatures : List Bytes) (e : Exception)
      → check c signature none message key ≡ err e
      → count_signatures c message (key ∷ keys) (signature ∷ signatures) ≡ err e
  unfolding count_signatures
  count_raises key signature keys signatures e h = rw (h, count_signatures)

  -- The loop counts every signature only where they match.
  pub count_signatures-Matches :
      (keys signatures : List Bytes)
      → count_signatures c message keys signatures ≡ ok []
      → Matches keys signatures
  count_signatures-Matches keys [] h = finished
  count_signatures-Matches [] (g ∷ gs) h = unfold count_signatures in cc
  count_signatures-Matches (key ∷ keys) (g ∷ gs) h =
      elim (Result-cases (check c g none message key)) [
        | inr (e, raised) ↦ cc (count_raises key g keys gs e raised)
        | inl (false, e) ↦
            skip_key
              (count_signatures-Matches keys (g ∷ gs) (sym (count_invalid key g keys gs e) ∙ h))
        | inl (true, e) ↦ use_key e (
            rest gs (sym (count_valid key g keys gs e) ∙ h)
              (λ more. count_signatures-Matches keys gs more))
      ]
    where
      rest :
          (gs : List Bytes)
          → (if is_nil gs then ok [] else count_signatures c message keys gs) ≡ ok []
          → (count_signatures c message keys gs ≡ ok [] → Matches keys gs)
          → Matches keys gs
      rest [] h ih = finished
      rest (x ∷ xs) h ih = ih h

  Matches-rest :
      {key signature : Bytes} {keys signatures : List Bytes}
      → Matches (key ∷ keys) (signature ∷ signatures)
      → Matches keys signatures
  Matches-rest (use_key valid rest) = rest
  Matches-rest (skip_key rest) = Matches-tail rest

  Matches-skip :
      {key signature : Bytes} {keys signatures : List Bytes}
      → check c signature none message key ≡ ok false
      → Matches (key ∷ keys) (signature ∷ signatures)
      → Matches keys (signature ∷ signatures)
  Matches-skip e (use_key valid rest) = cc
  Matches-skip e (skip_key rest) = rest

  Matches-none :
      {signature : Bytes} {signatures : List Bytes} → ¬ (Matches [] (signature ∷ signatures))
  Matches-none m = elim m [ ]

  -- Where they match and no check raises, the loop counts them all.
  pub Matches-count_signatures :
      (keys : List Bytes) (g : Bytes) (gs : List Bytes)
      → Answers keys (g ∷ gs)
      → Matches keys (g ∷ gs)
      → count_signatures c message keys (g ∷ gs) ≡ ok []
  Matches-count_signatures [] g gs a m = absurd (Matches-none m)
  Matches-count_signatures (key ∷ keys) g gs a m =
      by_answer a.0.0.0 a.0.0.1 (Matches-count_signatures keys)
    where
      IH : Type 0
      IH =
          (x : Bytes) (xs : List Bytes)
          → Answers keys (x ∷ xs)
          → Matches keys (x ∷ xs)
          → count_signatures c message keys (x ∷ xs) ≡ ok []

      stop_or_go :
          (gs : List Bytes)
          → Answers keys gs
          → Matches keys gs
          → IH
          → (if is_nil gs then ok [] else count_signatures c message keys gs) ≡ ok []
      stop_or_go [] a m ih = refl
      stop_or_go (x ∷ xs) a m ih = ih x xs a m

      by_answer :
          (b : Bool)
          → check c g none message key ≡ ok b
          → IH
          → count_signatures c message (key ∷ keys) (g ∷ gs) ≡ ok []
      by_answer true e ih =
          count_valid key g keys gs e
          ∙ stop_or_go gs (Answers-tail keys gs g a.1) (Matches-rest m) ih
      by_answer false e ih = count_invalid key g keys gs e ∙ ih g gs a.1 (Matches-skip e m)

  -- With no exception the loop ends with some signatures left over.
  pub count_signatures_total :
      (keys : List Bytes) (g : Bytes) (gs : List Bytes)
      → Answers keys (g ∷ gs)
      → (rest : List Bytes) × (count_signatures c message keys (g ∷ gs) ≡ ok rest)
  count_signatures_total [] g gs a = (g ∷ gs, unfold count_signatures in refl)
  count_signatures_total (key ∷ keys) g gs a =
      by_answer a.0.0.0 a.0.0.1 (count_signatures_total keys)
    where
      IH : Type 0
      IH =
          (x : Bytes) (xs : List Bytes)
          → Answers keys (x ∷ xs)
          → (rest : List Bytes) × (count_signatures c message keys (x ∷ xs) ≡ ok rest)

      stop_or_go :
          (gs : List Bytes)
          → Answers keys gs
          → IH
          → (rest : List Bytes) × ((if is_nil gs then ok [] else count_signatures c message keys gs)
              ≡ ok rest)
      stop_or_go [] a ih = ([], refl)
      stop_or_go (x ∷ xs) a ih = ih x xs a

      by_answer :
          (b : Bool)
          → check c g none message key ≡ ok b
          → IH
          → (rest : List Bytes) × (count_signatures c message (key ∷ keys) (g ∷ gs) ≡ ok rest)
      by_answer true e ih =
          let (rest, h) = stop_or_go gs (Answers-tail keys gs g a.1) ih in
          (rest, count_valid key g keys gs e ∙ h)
      by_answer false e ih =
          let (rest, h) = ih g gs a.1 in (rest, count_invalid key g keys gs e ∙ h)
