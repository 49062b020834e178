-- ===== src/Script.antt =====
-- bitcoinlib/scripts.py: the script language.
pub mod Num
pub mod Stack
pub mod Command
pub mod Evaluate
pub mod Wire
pub mod Template
