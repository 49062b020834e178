-- ===== src/Transaction/Reader.antt =====
-- Code that reads a byte stream and may raise: a function of the stream, with `do` blocks.
use bitcoinlib.Common.{
  ℕ, ◌≡◌, refl, ◌∙◌, ap, List, [], ◌++◌, append_assoc, Bool, true, Exception, Result, ok, err,
  length, take, if◌then◌else◌, take-append, length-append, ◌+◌, arith, drop-append, drop-drop, sym,
}
use bitcoinlib.Encoding.Stream.{Stream, remaining, read, seek}
use bitcoinlib.Encoding.VarInt.{read_varbyteint, int_to_varbyteint}
use bitcoinlib.Encoding.VarInt.RoundTrip.{read_varbyteint-seek}

abbrev pub Reader {ℓ} : Type ℓ → Type ℓ
Reader A = Stream → Result (A × Stream)

infixl 5 ◌>>=◌ ◌>>◌
unfoldable pub ◌>>=◌ {ℓ κ} : {A : Type ℓ} {B : Type κ} → Reader A → (A → Reader B) → Reader B
◌>>=◌ m f s = elim (m s) [ err e ↦ err e | ok (a, t) ↦ f a t ]

unfoldable pub ◌>>◌ {ℓ κ} : {A : Type ℓ} {B : Type κ} → Reader A → Reader B → Reader B
unfolding ◌>>=◌
m >> k = m >>= λ _. k

unfoldable pub return {ℓ} : {A : Type ℓ} → A → Reader A
return a s = ok (a, s)

-- `if not test: raise e`
unfoldable pub require : Bool → Exception → Reader (Unit {0})
require test e s = if test then ok (tt, s) else err e

unfoldable pub read_bytes : ℕ → Reader (List ℕ)
read_bytes n s = ok (read n s)

unfoldable pub read_count : Reader ℕ
read_count s = ok (read_varbyteint s)

-- Where the stream goes on with `code`, the reader returns `value` and moves behind it.
pub record Reads {ℓ} {A : Type ℓ} (reader : Reader A) (code : List ℕ) (value : A) : Type ℓ where
  pub run :
      (s : Stream) (rest : List ℕ)
      → remaining s ≡ code ++ rest
      → reader s ≡ ok (value, seek (s.position + length code) s)

pub remaining-seek :
    (code rest : List ℕ) (s : Stream)
    → remaining s ≡ code ++ rest
    → remaining (seek (s.position + length code) s) ≡ rest
remaining-seek code rest s h =
    sym (drop-drop s.position (length code) s.buffer)
    ∙ rw h (drop-append code rest (length code) refl)

stay : (s : Stream) → s ≡ seek (s.position + 0) s
stay s = let same : s.position ≡ s.position + 0 = omega arith in ap (λ p. seek p s) same

pub Reads-return {ℓ} : {A : Type ℓ} {a : A} → Reads (return a) [] a
unfolding return
Reads-return {a = a} = record { run = λ s rest h. ap (λ t. ok (a, t)) (stay s) }

pub Reads-require : (e : Exception) {test : Bool} → test ≡ true → Reads (require test e) [] tt
unfolding require
Reads-require e h = record { run = λ s rest q. rw h (ap (λ t. ok (tt, t)) (stay s)) }

pub Reads-bind {ℓ κ} :
    {A : Type ℓ} {B : Type κ} {m : Reader A} (f : A → Reader B) {a : A} {b : B}
    {code after : List ℕ}
    → Reads m code a
    → Reads (f a) after b
    → Reads (m >>= f) (code ++ after) b
unfolding ◌>>=◌
Reads-bind {m = m} f {a = a} {b = b} {code = code} {after = after} first second = record {
  run = λ s rest h.
      let h' = h ∙ append_assoc code after rest in
      let s' = seek (s.position + length code) s in
      let e = first.run s (after ++ rest) h' in
      let e' = second.run s' rest (remaining-seek code (after ++ rest) s h') in
      let far : s.position + length code + length after ≡ s.position + length (code ++ after) =
        omega (arith, length-append code after) in
      rw (◌>>=◌, e) (e' ∙ ap (λ p. ok (b, seek p s)) far);
}

pub Reads-read_bytes : {n : ℕ} {code : List ℕ} → length code ≡ n → Reads (read_bytes n) code code
unfolding read_bytes
Reads-read_bytes {n = n} {code = code} h = record {
  run = λ s rest e.
      let out : take n (remaining s) ≡ code = rw e (take-append code rest n h) in
      ap (λ xs. ok (xs, seek (s.position + length xs) s)) out;
}

pub Reads-read_count :
    {n : ℕ} {code : List ℕ} → int_to_varbyteint n ≡ ok code → Reads read_count code n
unfolding read_count
Reads-read_count {n = n} {code = code} h = record {
  run = λ s rest e. ap ok (read_varbyteint-seek n code rest s h e);
}

pub Reads-then {ℓ κ} :
    {A : Type ℓ} {B : Type κ} {m : Reader A} {k : Reader B} {a : A} {b : B} {code after : List ℕ}
    → Reads m code a
    → Reads k after b
    → Reads (m >> k) (code ++ after) b
unfolding ◌>>◌
Reads-then {k = k} first second = Reads-bind (λ _. k) first second

-- The code may be written in any equal way.
pub Reads-code {ℓ} :
    {A : Type ℓ} {m : Reader A} {a : A} {code code' : List ℕ}
    → code' ≡ code
    → Reads m code a
    → Reads m code' a
Reads-code e r = rw e r

pub Reads-value {ℓ} :
    {A : Type ℓ} {m : Reader A} {a a' : A} {code : List ℕ}
    → a' ≡ a
    → Reads m code a
    → Reads m code a'
Reads-value e r = rw e r

pub Reads-reader {ℓ} :
    {A : Type ℓ} {m m' : Reader A} {a : A} {code : List ℕ}
    → m' ≡ m
    → Reads m code a
    → Reads m' code a
Reads-reader e r = rw e r

-- Where the stream ends with `code`, the reader returns `value` and stops at the end.
pub record ReadsAll {ℓ} {A : Type ℓ} (reader : Reader A) (code : List ℕ) (value : A) : Type ℓ where
  pub run_all :
      (s : Stream)
      → remaining s ≡ code
      → s.position + length code ≡ length s.buffer
      → reader s ≡ ok (value, seek (s.position + length code) s)

pub ReadsAll-bind {ℓ κ} :
    {A : Type ℓ} {B : Type κ} {m : Reader A} (f : A → Reader B) {a : A} {b : B}
    {code after : List ℕ}
    → Reads m code a
    → ReadsAll (f a) after b
    → ReadsAll (m >>= f) (code ++ after) b
unfolding ◌>>=◌
ReadsAll-bind {m = m} f {a = a} {b = b} {code = code} {after = after} first second = record {
  run_all = λ s h n.
      let s' = seek (s.position + length code) s in
      let far : s.position + length code + length after ≡ s.position + length (code ++ after) =
        omega (arith, length-append code after) in
      let e = first.run s after h in
      let e' = second.run_all s' (remaining-seek code after s h) (far ∙ n) in
      rw (◌>>=◌, e) (e' ∙ ap (λ p. ok (b, seek p s)) far);
}

-- What follows at the end reads nothing.
pub ReadsAll-end {ℓ κ} :
    {A : Type ℓ} {B : Type κ} {m : Reader A} (f : A → Reader B) {a : A} {b : B} {code : List ℕ}
    → ReadsAll m code a
    → Reads (f a) [] b
    → ReadsAll (m >>= f) code b
unfolding ◌>>=◌
ReadsAll-end {m = m} f {a = a} {b = b} {code = code} first second = record {
  run_all = λ s h n.
      let s' = seek (s.position + length code) s in
      let same : s.position + length code + 0 ≡ s.position + length code = omega arith in
      let e = first.run_all s h n in
      let e' = second.run s' (remaining s') refl in
      rw (◌>>=◌, e) (e' ∙ ap (λ p. ok (b, seek p s)) same);
}

-- A stream at its start that holds nothing but the code is read to its end.
pub ReadsAll-start {ℓ} :
    {A : Type ℓ} {m : Reader A} {a : A} {code code' : List ℕ}
    → code' ≡ code
    → ReadsAll m code a
    → m (record { buffer = code'; position = 0 })
      ≡ ok (a, record { buffer = code'; position = length code' })
ReadsAll-start {m = m} {a = a} {code = code} {code' = code'} e r =
    let from_zero : 0 + length code ≡ length code' = omega (arith, ap length e) in
    r.run_all (record { buffer = code'; position = 0 }) e (omega (arith, ap length e))
    ∙ ap (λ p. ok (a, record { buffer = code'; position = p })) from_zero
