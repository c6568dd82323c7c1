-- ===== src/Mempool.antt =====
-- proxy/mempool: the pool of transactions that wait for execution.
pub mod NeonTxInfo
pub mod TxRequest
pub mod RequestDict
pub mod SenderPool
pub mod Schedule
pub mod CompletedTxDict
pub mod StuckTxDict
pub mod ExecutorMng
pub mod FreeAltQueue
pub mod MemPool
pub mod Examples
