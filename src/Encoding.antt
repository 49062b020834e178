-- ===== src/Encoding.antt =====
-- bitcoinlib/encoding.py: conversions between numbers, byte strings and addresses.
pub mod Bytes
pub mod Stream
pub mod VarInt
pub mod Der
pub mod Hex
pub mod Base58
pub mod Bech32
pub mod ConvertBits
pub mod Address
