-- ===== src/Script/Evaluate/Total.antt =====
-- The loop of `evaluate` ends: no command leaves more to run than there was.
use bitcoinlib.Common.{
  ℕ, zero, suc, ◌≤◌, ◌≡◌, ◌≢◌, refl, List, [], ◌∷◌, Bool, Option, none, some, Exception, ok, err,
  arith, length,
}
use bitcoinlib.Script.Stack.{Bytes, Stack, Method}
use bitcoinlib.Script.Stack.Crypto.{Crypto}
use bitcoinlib.Script.Command.{Command, code, item, Entry, flatten, Branching, op_if, op_notif}
use bitcoinlib.Script.Command.Balance.{op_if-length, op_notif-length}
use bitcoinlib.Script.Evaluate.{
  Environment, Step, next, stop, throw, returned, raised, exhausted, settle_branch, call, lookup,
  methods, step, run, evaluate,
}

-- A method changes no commands.
call-length :
    (m : Option (Method Bool)) (cs ds : List Command) (s t : Stack)
    → call m cs s ≡ next t ds
    → ds ≡ cs
call-length none cs ds s t h = cc
call-length (some m) cs ds s t h = ground arith

settle_branch-length :
    (b : Branching) (t : Stack) (ds : List Command)
    → settle_branch b ≡ next t ds
    → b ≡ ok (some (t, ds))
settle_branch-length (err e) t ds h = cc
settle_branch-length (ok none) t ds h = cc
settle_branch-length (ok (some (s, cs))) t ds h = ground arith

module _ {Signature : Type 0} (c : Crypto Signature) (message : Bytes) (env : Environment) where
  step-length :
      (x : Command) (cs ds : List Command) (s t : Stack)
      → step c message env x cs s ≡ next t ds
      → length ds ≤ length cs
  unfolding step
  step-length (item d) cs ds s t h = ground arith
  step-length (code n) cs ds s t h = ground (
    arith,
    settle_branch-length (op_if cs s) t ds,
    op_if-length cs ds s t,
    settle_branch-length (op_notif cs s) t ds,
    op_notif-length cs ds s t,
    call-length (lookup n (methods c message env)) cs ds s t,
  )

  -- One round, by what the command does.
  pub run_next :
      (fuel : ℕ) (x : Command) (cs ds : List Command) (s t : Stack)
      → step c message env x cs s ≡ next t ds
      → run c message env (suc fuel) (x ∷ cs) s ≡ run c message env fuel ds t
  unfolding run
  run_next fuel x cs ds s t e = rw (e, run)

  pub run_stop :
      (fuel : ℕ) (x : Command) (cs : List Command) (s : Stack) (b : Bool)
      → step c message env x cs s ≡ stop b
      → run c message env (suc fuel) (x ∷ cs) s ≡ returned b
  unfolding run
  run_stop fuel x cs s b e = rw (e, run)

  run_throw :
      (fuel : ℕ) (x : Command) (cs : List Command) (s : Stack) (e : Exception)
      → step c message env x cs s ≡ throw e
      → run c message env (suc fuel) (x ∷ cs) s ≡ raised e
  unfolding run
  run_throw fuel x cs s e h = rw (h, run)

  run-ne-exhausted :
      (fuel : ℕ) (cs : List Command) (s : Stack)
      → length cs ≤ fuel
      → run c message env fuel cs s ≢ exhausted
  run-ne-exhausted zero [] s h = unfold run in λ e. cc
  run-ne-exhausted zero (x ∷ cs) s h = absurd (omega arith)
  run-ne-exhausted (suc fuel) [] s h = unfold run in λ e. cc
  run-ne-exhausted (suc fuel) (x ∷ cs) s h =
      by_step (step c message env x cs s) refl (run-ne-exhausted fuel)
    where
      by_step :
          (r : Step)
          → step c message env x cs s ≡ r
          → ((ds : List Command) (t : Stack)
              → length ds ≤ fuel
              → run c message env fuel ds t ≢ exhausted)
          → run c message env (suc fuel) (x ∷ cs) s ≢ exhausted
      by_step (next t ds) e ih =
          rw (run_next fuel x cs ds s t e) (ih ds t (omega (arith, step-length x cs ds s t e)))
      by_step (stop b) e ih = rw (run_stop fuel x cs s b e) (λ p. cc)
      by_step (throw x') e ih = rw (run_throw fuel x cs s x' e) (λ p. cc)

  -- On every script the loop of `evaluate` ends, with a result or with an exception.
  pub evaluate-ne-exhausted : (script : List Entry) → evaluate c message env script ≢ exhausted
  unfolding evaluate
  evaluate-ne-exhausted script =
      run-ne-exhausted (length (flatten script)) (flatten script) [] (omega arith)
