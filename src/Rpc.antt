-- ===== src/Rpc.antt =====
-- What proxy/neon_rpc_api_model checks before a transaction is given to the mempool.
pub mod NeonTx
pub mod Estimate
pub mod Validator
pub mod Conditions
pub mod Admission
pub mod GasBounds
pub mod Examples
