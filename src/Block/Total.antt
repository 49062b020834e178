-- ===== src/Block/Total.antt =====
-- The loop of `Block.parse_bytesio` of bitcoinlib/blocks.py ends on any bytes.
use bitcoinlib.Common.{
  reverse, ℕ, zero, suc, ◌+◌, ◌≤◌, ◌<◌, ◌≡◌, ◌≢◌, refl, sym, ap, ◌∙◌, List, [], inl, inr, Bool,
  true, false, ◌&&◌, Option, none, some, Result, ok, ok_value, ltb, Bool-cases, ltb→lt, length,
  arith,
}
use bitcoinlib.Encoding.Stream.{Stream}
use bitcoinlib.Transaction.Parse.{Parsed, parse_bytesio}
use bitcoinlib.Transaction.Reader.{Reader, ◌>>=◌, ◌>>◌, return}
use bitcoinlib.Transaction.Moves.{bind_reads}
use bitcoinlib.Transaction.Advance.{parse_bytesio_progress}
use bitcoinlib.Block.{Bytes, Block}
use bitcoinlib.Block.Header.{new_block}
use bitcoinlib.Block.Parse.{
  goes_on, cons_found, finish_block, parse_one, parse_loop, parse_found, parse_all, parse_fields,
  parse_block,
}

-- A reader that does not return `none`.
record Answers {A : Type 0} (m : Reader (Option A)) : Type 0 where
  never : (s u : Stream) → m s ≢ ok (none, u)

Answers-bind :
    {A B : Type 0} (m : Reader A) (f : A → Reader (Option B))
    → ((a : A) → Answers (f a))
    → Answers (m >>= f)
Answers-bind m f each = record {
  never = λ s u h. let (a, t, e, h') = bind_reads m f none s u h in (each a).never t u h';
}

Answers-then : {A B : Type 0} (m : Reader A) (k : Reader (Option B)) → Answers k → Answers (m >> k)
unfolding ◌>>◌
Answers-then m k answer = Answers-bind m (λ _. k) (λ _. answer)

Answers-some : {A : Type 0} (a : A) → Answers (return (some a))
unfolding return
Answers-some a = record { never = λ s u h. cc }

after_value :
    {A B : Type 0} (m : Reader (Option A)) (f : Option A → Reader (Option B)) (a : Option A)
    (s t u : Stream)
    → Answers m
    → ((a : A) → Answers (f (some a)))
    → m s ≡ ok (a, t)
    → f a t ≢ ok (none, u)
after_value m f none s t u first each e = absurd (first.never s t e)
after_value m f (some a) s t u first each e = (each a).never t u

Answers-after :
    {A B : Type 0} (m : Reader (Option A)) (f : Option A → Reader (Option B))
    → Answers m
    → ((a : A) → Answers (f (some a)))
    → Answers (m >>= f)
Answers-after m f first each = record {
  never = λ s u h.
      let (a, t, e, h') = bind_reads m f none s u h in after_value m f a s t u first each e h';
}

cons_found-none : {A : Type 0} (t : A) (ts : Option (List A)) → cons_found t ts ≡ none → ts ≡ none
cons_found-none t none h = refl
cons_found-none t (some ts) h = cc

left_true : (a b : Bool) → (a && b) ≡ true → a ≡ true
left_true true b h = refl
left_true false b h = h

finish_block-Answers :
    (parse_transactions : Bool) (limit tx_count : ℕ) (ts : List Parsed)
    (make : List Parsed → Result (Block Parsed))
    → Answers (finish_block parse_transactions limit tx_count (some ts) make)
unfolding finish_block
finish_block-Answers parse_transactions limit tx_count ts make =
    Answers-then _ _ (Answers-bind _ _ (λ b. Answers-some b))

module _ (sha256 : Bytes → Bytes) where
  parse_one_progress :
      (s u : Stream) (t : Parsed)
      → s.position < length s.buffer
      → parse_one sha256 s ≡ ok (t, u)
      → (u.buffer ≡ s.buffer) × (s.position < u.position)
  unfolding parse_one return
  parse_one_progress s u t more h =
      let (p, v, e, h') = bind_reads (parse_bytesio sha256 false []) _ t s u h in
      let (b, far) = parse_bytesio_progress sha256 s v p more e in
      let same = ap (λ x. x.1) (ok_value h') in
      (
        sym (ap (λ (x : Stream). x.buffer) same) ∙ b,
        omega (arith, far, ap (λ (x : Stream). x.position) same),
      )

  -- One round: the others begin behind a transaction that was read.
  parse_loop_round :
      (fuel limit found : ℕ) (s u : Stream)
      → ((v w : Stream)
          → s.position < length s.buffer
          → v.buffer ≡ s.buffer
          → s.position < v.position
          → parse_loop sha256 fuel limit (found + 1) v ≢ ok (none, w))
      → parse_loop sha256 (suc fuel) limit found s ≢ ok (none, u)
  unfolding parse_loop return
  parse_loop_round fuel limit found s u others h = elim (Bool-cases (goes_on limit found s)) [
    | inl e ↦
        let more = ltb→lt _ _ (left_true (ltb s.position (length s.buffer)) _ e) in
        let (t, v, e1, h1) = bind_reads (parse_one sha256) _ none s u (rw e at h) in
        let (ts, w, e2, h2) = bind_reads (parse_loop sha256 fuel limit (found + 1)) _ none v u h1 in
        let (b, far) = parse_one_progress s v t more e1 in
        let spent = cons_found-none t ts (ap (λ x. x.0) (ok_value h2)) in
        others v w more b far (e2 ∙ ap (λ x. ok (x, w)) spent)
    | inr e ↦ let done = rw e at h in cc
  ]

  parse_loop_total :
      (fuel limit found : ℕ) (s u : Stream)
      → length s.buffer ≤ s.position + fuel
      → parse_loop sha256 (suc fuel) limit found s ≢ ok (none, u)
  parse_loop_total zero limit found s u enough =
      parse_loop_round zero limit found s u (λ v w more b far. absurd (omega arith))
  parse_loop_total (suc fuel) limit found s u enough =
      parse_loop_round (suc fuel) limit found s u
        (λ v w more b far. parse_loop_total fuel limit (found + 1) v w (omega (arith, ap length b)))

  parse_all-Answers :
      (parse_transactions : Bool) (limit : ℕ) → Answers (parse_all sha256 parse_transactions limit)
  unfolding parse_all parse_found return
  parse_all-Answers false limit = record { never = λ s u h. cc }
  parse_all-Answers true limit = record {
    never = λ s u. parse_loop_total (length s.buffer) limit 0 s u (omega arith);
  }

  parse_fields-Answers :
      (hash : Bytes) (height : Option ℕ) (parse_transactions : Bool) (limit : ℕ)
      → Answers (parse_fields sha256 hash height parse_transactions limit)
  unfolding parse_fields
  parse_fields-Answers hash height parse_transactions limit = Answers-bind _ _ (λ version.
      Answers-bind _ _ (λ prev_block. Answers-bind _ _ (λ merkle_root. Answers-bind _ _ (λ time.
        Answers-bind _ _ (λ bits. Answers-bind _ _ (λ nonce. Answers-bind _ _ (λ tx_count.
          Answers-after _ _ (parse_all-Answers parse_transactions limit) (λ ts.
            finish_block-Answers parse_transactions limit tx_count ts (λ xs.
              new_block hash (reverse version) (reverse prev_block) (reverse merkle_root)
                (reverse time) (reverse bits) (reverse nonce) xs height tx_count)))))))))

  -- Parsing a block ends on every stream, with every hash, height and limit that is given: it
  -- returns a block or raises, and its loop over the transactions does not run out of rounds.
  pub parse_block-ne-none :
      (block_hash : Bytes) (height : Option ℕ) (parse_transactions : Bool) (limit : ℕ)
      (s u : Stream)
      → parse_block sha256 block_hash height parse_transactions limit s ≢ ok (none, u)
  unfolding parse_block
  parse_block-ne-none block_hash height parse_transactions limit =
      (Answers-bind _ _ (λ hash. parse_fields-Answers hash height parse_transactions limit)).never
