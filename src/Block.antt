-- ===== src/Block.antt =====
-- bitcoinlib/blocks.py, `class Block`: the fields that parsing, serialization, the proof of work and
-- the signalled BIPs depend on.
pub mod Header
pub mod Target
pub mod Parse
pub mod Serialize
pub mod RoundTrip
pub mod Total
mod Tests
use bitcoinlib.Common.{ℕ, List, Option}

abbrev pub Bytes : Type 0
Bytes = List ℕ

-- `A` is the type of the transactions: what is parsed, or what is written.
pub record Block (A : Type 0) : Type 0 where
  pub block_hash : Bytes
  pub version : Bytes
  pub version_int : ℕ
  pub prev_block : Bytes
  pub merkle_root : Bytes
  pub time : ℕ
  pub bits : Bytes
  pub nonce : Bytes
  pub transactions : List A
  pub tx_count : ℕ
  pub height : Option ℕ
