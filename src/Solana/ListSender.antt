-- ===== src/Solana/ListSender.antt =====
-- `SolTxListSender` of proxy/common_neon/solana_tx_list_sender.py.
pub mod Status
pub mod State
pub mod Receipts
pub mod Sending
pub mod Calls
pub mod Leaves
pub mod Settled
pub mod Sent
pub mod Tracking
pub mod Resending
pub mod Given
pub mod GivenStates
pub mod Rounds
pub mod Signing
pub mod Filling
pub mod Accepting
pub mod Liveness
