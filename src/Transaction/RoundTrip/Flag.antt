-- ===== src/Transaction/RoundTrip/Flag.antt =====
-- The flag of bitcoinlib/transactions.py, `Transaction.parse_bytesio`: it is read where it is
-- written, and the first byte of the count of the inputs is put back.
use bitcoinlib.Common.{
  ℕ, suc, ◌+◌, ◌-◌, ◌<◌, ◌≡◌, refl, ap, ◌∙◌, [], ◌∷◌, ◌++◌, false, Option, none, some, ok, ◌==◌,
  arith,
}
use bitcoinlib.Encoding.Bytes.{little_digits}
use bitcoinlib.Encoding.Stream.{Stream, remaining, seek}
use bitcoinlib.Encoding.VarInt.{extra_size, int_to_varbyteint}
use bitcoinlib.Encoding.VarInt.RoundTrip.{int_to_varbyteint-Encodes, short, long}
use bitcoinlib.Transaction.{Bytes}
use bitcoinlib.Transaction.Parse.{parse_flag, put_back}
use bitcoinlib.Transaction.Reader.{
  Reader, ◌>>=◌, read_bytes, Reads, Reads-return, Reads-bind, Reads-read_bytes,
}

pub parse_flag-segwit : Reads parse_flag (0 ∷ 1 ∷ []) (some (1 ∷ []))
unfolding parse_flag
parse_flag-segwit =
    Reads-bind _ (Reads-read_bytes {n = 1} {code = 0 ∷ []} refl)
      (Reads-bind _ (Reads-read_bytes {n = 1} {code = 1 ∷ []} refl) Reads-return)

-- A byte that is not 0 is put back.
parse_flag-none :
    (b : ℕ) (s : Stream) (rest : Bytes) → remaining s ≡ suc b ∷ rest → parse_flag s ≡ ok (none, s)
unfolding parse_flag put_back ◌>>=◌ read_bytes
parse_flag-none b s rest h =
    let same : s.position + 1 - 1 ≡ s.position = omega arith in
    let differs : (suc b == 0) ≡ false = ground arith in
    rw (h, differs) (ap (λ p. ok (none, seek p s)) same)

pub parse_flag-put_back :
    {A : Type 0} (f : Option Bytes → Reader A) (b : ℕ) (code : Bytes) (a : A)
    → Reads (f none) (suc b ∷ code) a
    → Reads (parse_flag >>= f) (suc b ∷ code) a
unfolding ◌>>=◌
parse_flag-put_back f b code a r = record {
  run = λ s rest h. rw (◌>>=◌, parse_flag-none b s (code ++ rest) h) (r.run s rest h);
}

-- The count of some inputs does not begin with the byte 0.
pub count_head :
    (n : ℕ) (code : Bytes)
    → 0 < n
    → int_to_varbyteint n ≡ ok code
    → (b : ℕ) × (bs : Bytes) × (code ≡ suc b ∷ bs)
count_head n code h e = elim ((int_to_varbyteint-Encodes n code e).0) [
  | short small q ↦ (n - 1, [], q ∙ ap (λ x. x ∷ []) (omega arith))
  | long marker lo hi fits q ↦ (
    marker - 1,
    little_digits (extra_size marker) n,
    q ∙ ap (λ x. x ∷ little_digits (extra_size marker) n) (omega arith),
  )
]
