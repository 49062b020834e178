-- ===== src/Block/RoundTrip.antt =====
-- `Block.serialize` and then `Block.parse_bytesio` of bitcoinlib/blocks.py.
pub mod Transactions
pub mod Whole
pub mod Serialized
use bitcoinlib.Common.{ℕ}
