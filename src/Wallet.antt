-- ===== src/Wallet.antt =====
-- bitcoinlib/wallets.py, `class Wallet`: the choice of the outputs that a transaction spends, the fee
-- and the change of the transaction, and both together in a payment.
pub mod Select
pub mod Change
pub mod Payment
