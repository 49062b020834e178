-- ===== src/Transaction/RoundTrip.antt =====
-- `Transaction.raw` and `Transaction.parse_bytesio` of bitcoinlib/transactions.py: what is written
-- is read back.
pub mod Inputs
mod Outputs
mod Flag
mod Witnesses
pub mod Whole
pub mod Serialized
pub mod Analysed
use bitcoinlib.Common.{ℕ}
