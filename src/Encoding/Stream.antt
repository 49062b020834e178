-- ===== src/Encoding/Stream.antt =====
-- Python's `io.BytesIO`, as bitcoinlib/encoding.py and its callers use it: a buffer with a position.
use bitcoinlib.Common.{ℕ, ◌+◌, List, length, take, drop}

pub record Stream : Type 0 where
  pub buffer : List ℕ
  pub position : ℕ

-- What a read would still return.
abbrev pub remaining : Stream → List ℕ
remaining s = drop s.position s.buffer

abbrev pub read : ℕ → Stream → List ℕ × Stream
read n s = let out = take n (remaining s) in (out, record s { position = s.position + length out })

abbrev pub seek : ℕ → Stream → Stream
seek p s = record s { position = p }
