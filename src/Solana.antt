-- ===== src/Solana.antt =====
-- The Solana side of proxy/common_neon: transactions and the sender of a list of them.
pub mod Tx
pub mod ListSender
pub mod Examples
