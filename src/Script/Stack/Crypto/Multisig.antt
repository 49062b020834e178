-- ===== src/Script/Stack/Crypto/Multisig.antt =====
-- `op_checkmultisig` accepts exactly the signatures that can be given, in order, to distinct keys.
use bitcoinlib.Common.{
  ℕ, zero, suc, ◌≡◌, refl, ◌↔◌, List, [], ◌∷◌, ◌++◌, Bool, true, Result, ok, arith, length, sym, ap,
  ◌∙◌,
}
use bitcoinlib.Common.Integer.{pos}
use bitcoinlib.Script.Num.{encode_num}
use bitcoinlib.Script.Num.Laws.{decode_num-encode_num}
use bitcoinlib.Script.Stack.{Bytes, Stack, truth}
use bitcoinlib.Script.Stack.Crypto.{Crypto, is_nil, count_signatures, op_checkmultisig, pop_many}
use bitcoinlib.Script.Stack.Crypto.Matching.{
  Matches, Answers, count_signatures-Matches, Matches-count_signatures, count_signatures_total,
}

pop_many-append :
    (n : ℕ) (xs : List Bytes) (s : Stack) → length xs ≡ n → pop_many n (xs ++ s) ≡ ok (xs, s)
unfolding pop_many
pop_many-append zero [] s h = refl
pop_many-append zero (x ∷ xs) s h = absurd (omega arith)
pop_many-append (suc n) [] s h = absurd (omega arith)
pop_many-append (suc n) (x ∷ xs) s h = ground (arith, pop_many-append n xs s (omega arith))

-- The operation reads the two counts and the two lists, and hands them to the loop.
op_checkmultisig_reads :
    {Signature : Type 0} (c : Crypto Signature) (message : Bytes)
    (keys signatures rest : List Bytes) (extra : Bytes) (s : Stack)
    → count_signatures c message keys signatures ≡ ok rest
    → op_checkmultisig c message (
        encode_num (pos (length keys))
        ∷ (keys ++ (encode_num (pos (length signatures)) ∷ (signatures ++ (extra ∷ s)))))
      ≡ ok (true, truth (is_nil rest) ∷ s)
unfolding op_checkmultisig
op_checkmultisig_reads c message keys signatures rest extra s h = ground (
  arith,
  decode_num-encode_num (pos (length keys)),
  decode_num-encode_num (pos (length signatures)),
  pop_many-append (length keys) keys
      (encode_num (pos (length signatures)) ∷ (signatures ++ (extra ∷ s))) refl,
  pop_many-append (length signatures) signatures (extra ∷ s) refl,
  h,
)

-- On a stack that holds the number of keys, the keys, the number of signatures, the signatures and
-- one more item, `op_checkmultisig` replaces all of these by a truth value, which is true exactly
-- when the signatures are valid for distinct keys in the order of the keys. There is at least one
-- signature, and no check raises.
pub op_checkmultisig-Matches :
    {Signature : Type 0} (c : Crypto Signature) (message : Bytes) (keys : List Bytes) (g : Bytes)
    (gs : List Bytes) (extra : Bytes) (s : Stack)
    → Answers c message keys (g ∷ gs)
    → (b : Bool) × (op_checkmultisig c message (
          encode_num (pos (length keys))
          ∷ (keys ++ (encode_num (pos (length (g ∷ gs))) ∷ ((g ∷ gs) ++ (extra ∷ s)))))
        ≡ ok (true, truth b ∷ s))
      × ((b ≡ true) ↔ Matches c message keys (g ∷ gs))
op_checkmultisig-Matches c message keys g gs extra s a =
    let (rest, e) = count_signatures_total c message keys g gs a in
    (
      is_nil rest,
      op_checkmultisig_reads c message keys (g ∷ gs) rest extra s e,
      (
        λ h. count_signatures-Matches c message keys (g ∷ gs) (e ∙ ap ok (is_nil→eq rest h)),
        λ m. left_over rest (sym e ∙ Matches-count_signatures c message keys g gs a m),
      ),
    )
  where
    is_nil→eq : (xs : List Bytes) → is_nil xs ≡ true → xs ≡ []
    is_nil→eq [] h = refl
    is_nil→eq (x ∷ xs) h = cc

    left_over : (xs : List Bytes) → ◌≡◌ {A = Result (List Bytes)} (ok xs) (ok []) → is_nil xs ≡ true
    left_over [] h = refl
    left_over (x ∷ xs) h = cc
