-- ===== src/Keys.antt =====
-- bitcoinlib/keys.py.
pub mod Signature
pub mod Path
pub mod Derivation
