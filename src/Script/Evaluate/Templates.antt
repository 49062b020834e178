-- ===== src/Script/Evaluate/Templates.antt =====
-- What `evaluate` answers on the standard scripts: an unlocking script followed by its locking
-- script.
use bitcoinlib.Common.{
  ◌≡◌, refl, ◌∙◌, inl, inr, List, [], ◌∷◌, Bool, true, false, ◌&&◌, some, Result, ok, err, arith,
  bytes_eq, Bool-cases, Result-cases, if◌then◌else◌,
}
use bitcoinlib.Script.Stack.{Bytes, Stack}
use bitcoinlib.Script.Stack.Moves.{op_dup, op_equalverify}
use bitcoinlib.Script.Stack.Crypto.{Crypto, check, hash160, op_hash160, op_checksig, push_check}
use bitcoinlib.Script.Command.{Command, code, item, Entry, single, flatten}
use bitcoinlib.Script.Evaluate.{
  Environment, next, stop, settle, returned, methods, step, run, verdict, evaluate,
}
use bitcoinlib.Script.Evaluate.Total.{run_next, run_stop}

-- A check that raises is not passed.
abbrev pub passes : Result Bool → Bool
passes (ok b) = b
passes (err e) = false

abbrev pub p2pkh : Bytes → Bytes → Bytes → List Entry
p2pkh signature key hash =
    single (item signature)
    ∷ single (item key)
    ∷ single (code 118)
    ∷ single (code 169)
    ∷ single (item hash)
    ∷ single (code 136)
    ∷ single (code 172)
    ∷ []

abbrev pub p2pk : Bytes → Bytes → List Entry
p2pk signature key = single (item signature) ∷ single (item key) ∷ single (code 172) ∷ []

module _ {Signature : Type 0} (c : Crypto Signature) (message : Bytes) (env : Environment) where
  step_equalverify :
      (x y : Bytes) (s : Stack) (cs : List Command) (b : Bool)
      → bytes_eq x y ≡ b
      → step c message env (code 136) cs (x ∷ y ∷ s) ≡ (if b then next s cs else stop false)
  unfolding step methods op_equalverify
  step_equalverify x y s cs true e = ground (arith, e)
  step_equalverify x y s cs false e = ground (arith, e)

  step_checksig :
      (key signature : Bytes) (s : Stack) (cs : List Command) (r : Result Bool)
      → check c signature (some key) message key ≡ r
      → step c message env (code 172) cs (key ∷ signature ∷ s) ≡ settle cs (push_check c r s)
  unfolding step methods op_checksig
  step_checksig key signature s cs r e = ground (arith, e)

  -- The last OP_CHECKSIG decides.
  run_checksig :
      (key signature : Bytes)
      → run c message env 1 (code 172 ∷ []) (key ∷ signature ∷ [])
        ≡ returned (passes (check c signature (some key) message key))
  run_checksig key signature = elim (Result-cases (check c signature (some key) message key)) [
    | inr (x, f) ↦ rw f (
        run_stop c message env 0 (code 172) [] (key ∷ signature ∷ []) false
          (step_checksig key signature [] [] (err x) f))
    | inl (true, f) ↦ rw f (
        run_next c message env 0 (code 172) [] [] (key ∷ signature ∷ []) ((1 ∷ []) ∷ [])
          (step_checksig key signature [] [] (ok true) f)
        ∙ unfold run verdict in refl)
    | inl (false, f) ↦ rw f (
        run_next c message env 0 (code 172) [] [] (key ∷ signature ∷ []) ([] ∷ [])
          (step_checksig key signature [] [] (ok false) f)
        ∙ unfold run verdict in refl)
  ]

  -- Evaluating a pay-to-public-key spend returns whether the signature passes the check by the key
  -- of the output on the message; a check that raises counts as not passed.
  pub evaluate-p2pk :
      (signature key : Bytes)
      → evaluate c message env (p2pk signature key)
        ≡ returned (passes (check c signature (some key) message key))
  evaluate-p2pk signature key = start ∙ run_checksig key signature
    where
      start :
          evaluate c message env (p2pk signature key)
          ≡ run c message env 1 (code 172 ∷ []) (key ∷ signature ∷ [])
      start = unfold evaluate flatten run step in refl

  -- Evaluating a pay-to-public-key-hash spend returns whether the hash of the key is the hash of the
  -- output and the signature passes the check by that key on the message; a check that raises counts
  -- as not passed.
  pub evaluate-p2pkh :
      (signature key hash : Bytes)
      → evaluate c message env (p2pkh signature key hash)
        ≡ returned
            (bytes_eq hash (hash160 c key) && passes (check c signature (some key) message key))
  evaluate-p2pkh signature key hash = start ∙ elim (Bool-cases (bytes_eq hash (hash160 c key))) [
    | inl e ↦ rw e (
        run_next c message env 1 (code 136) (code 172 ∷ []) (code 172 ∷ []) before after
          (step_equalverify hash (hash160 c key) after (code 172 ∷ []) true e)
        ∙ run_checksig key signature)
    | inr e ↦ rw e (
        run_stop c message env 1 (code 136) (code 172 ∷ []) before false
          (step_equalverify hash (hash160 c key) after (code 172 ∷ []) false e))
  ]
    where
      after : Stack
      after = key ∷ signature ∷ []

      before : Stack
      before = hash ∷ hash160 c key ∷ after

      start :
          evaluate c message env (p2pkh signature key hash)
          ≡ run c message env 2 (code 136 ∷ code 172 ∷ []) before
      start = unfold evaluate flatten run step methods op_dup op_hash160 in refl
