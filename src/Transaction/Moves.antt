-- ===== src/Transaction/Moves.antt =====
-- Readers keep the buffer of a stream and do not go back, whatever they read.
use bitcoinlib.Common.{
  ℕ, ◌+◌, ◌≤◌, ◌<◌, ◌≡◌, refl, sym, ap, ◌∙◌, List, [], ◌∷◌, Bool, true, false, Exception, Result,
  ok, err, ok_value, length, take, arith,
}
use bitcoinlib.Encoding.Stream.{Stream, remaining, read, seek}
use bitcoinlib.Encoding.VarInt.{varbyteint_to_int, read_varbyteint}
use bitcoinlib.Transaction.Reader.{Reader, ◌>>=◌, ◌>>◌, return, require, read_bytes, read_count}

-- A step from `s` to `t`.
pub record Forward (s t : Stream) : Type 0 where
  pub buffer : t.buffer ≡ s.buffer
  pub position : s.position ≤ t.position

pub Forward-trans : {s t u : Stream} → Forward s t → Forward t u → Forward s u
Forward-trans f g = record {
  buffer = g.buffer ∙ f.buffer;
  position = omega (arith, f.position, g.position);
}

pub record Moves {A : Type 0} (m : Reader A) : Type 0 where
  pub forward : (s t : Stream) (a : A) → m s ≡ ok (a, t) → Forward s t

bound :
    {A B : Type 0} (r : Result (A × Stream)) (f : A → Reader B) (b : B) (u : Stream)
    → (elim r [ err e ↦ err e | ok (a, t) ↦ f a t ]) ≡ ok (b, u)
    → (a : A) × (t : Stream) × (r ≡ ok (a, t)) × (f a t ≡ ok (b, u))
bound (err e) f b u h = cc
bound (ok (a, t)) f b u h = (a, t, refl, h)

-- A reader in two parts that returns was in both of them.
pub bind_reads :
    {A B : Type 0} (m : Reader A) (f : A → Reader B) (b : B) (s u : Stream)
    → (m >>= f) s ≡ ok (b, u)
    → (a : A) × (t : Stream) × (m s ≡ ok (a, t)) × (f a t ≡ ok (b, u))
unfolding ◌>>=◌
bind_reads m f b s u h = bound (m s) f b u h

pub Moves-bind :
    {A B : Type 0} (m : Reader A) (f : A → Reader B)
    → Moves m
    → ((a : A) → Moves (f a))
    → Moves (m >>= f)
Moves-bind m f first second = record {
  forward = λ s u b h.
      let (a, t, e, e') = bind_reads m f b s u h in
      Forward-trans (first.forward s t a e) ((second a).forward t u b e');
}

pub Moves-then : {A B : Type 0} (m : Reader A) (k : Reader B) → Moves m → Moves k → Moves (m >> k)
unfolding ◌>>◌
Moves-then m k first second = Moves-bind m (λ _. k) first (λ _. second)

pub Moves-return : {A : Type 0} (a : A) → Moves (return a)
unfolding return
Moves-return a = record {
  forward = λ s t b h.
      let same : s ≡ t = ap (λ x. x.1) (ok_value h) in
      record {
        buffer = sym (ap (λ (x : Stream). x.buffer) same);
        position = omega (arith, ap (λ (x : Stream). x.position) same);
      };
}

pub Moves-require : (test : Bool) (e : Exception) → Moves (require test e)
unfolding require
Moves-require true e = record {
  forward = λ s t b h.
      let same : s ≡ t = ap (λ x. x.1) (ok_value h) in
      record {
        buffer = sym (ap (λ (x : Stream). x.buffer) same);
        position = omega (arith, ap (λ (x : Stream). x.position) same);
      };
}
Moves-require false e = record { forward = λ s t b h. cc }

-- Where a reader stops is known.
pub read_bytes-position :
    (n : ℕ) (s t : Stream) (xs : List ℕ)
    → read_bytes n s ≡ ok (xs, t)
    → (xs ≡ take n (remaining s)) × (t.buffer ≡ s.buffer) × (t.position ≡ s.position + length xs)
unfolding read_bytes
read_bytes-position n s t xs h =
    let both = ok_value h in
    let first : take n (remaining s) ≡ xs = ap (λ x. x.0) both in
    let second : (read n s).1 ≡ t = ap (λ x. x.1) both in
    (
      sym first,
      sym (ap (λ (x : Stream). x.buffer) second),
      sym (ap (λ (x : Stream). x.position) second)
          ∙ ap (λ (x : List ℕ). s.position + length x) first,
    )

pub Moves-read_bytes : (n : ℕ) → Moves (read_bytes n)
Moves-read_bytes n = record {
  forward = λ s t xs h.
      let (e, b, p) = read_bytes-position n s t xs h in
      record { buffer = b; position = omega (arith, p) };
}

-- A count that is not 0 was there to be read.
nonzero_moves : (xs : List ℕ) → 0 < (varbyteint_to_int xs).0 → 0 < (varbyteint_to_int xs).1
unfolding varbyteint_to_int
nonzero_moves [] h = h
nonzero_moves (x ∷ xs) h = ground arith

pub read_count-position :
    (s t : Stream) (n : ℕ)
    → read_count s ≡ ok (n, t)
    → Forward s t × (0 < n → s.position < t.position)
unfolding read_count read_varbyteint
read_count-position s t n h =
    let both = ok_value h in
    let parts = varbyteint_to_int (read 9 s).0 in
    let first : parts.0 ≡ n = ap (λ x. x.0) both in
    let second : seek (s.position + parts.1) (read 9 s).1 ≡ t = ap (λ x. x.1) both in
    let far = ap (λ (x : Stream). x.position) second in
    (
      record { buffer = sym (ap (λ (x : Stream). x.buffer) second); position = omega (arith, far) },
      λ counted. omega (arith, far, nonzero_moves (read 9 s).0 (omega (arith, first, counted))),
    )

pub Moves-read_count : Moves read_count
Moves-read_count = record { forward = λ s t n h. (read_count-position s t n h).0 }
