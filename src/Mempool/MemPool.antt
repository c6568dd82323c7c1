-- ===== src/Mempool/MemPool.antt =====
-- `MemPool` of proxy/mempool/mempool.py: the mempool over its schedule, its dicts of completed and
-- stuck transactions, the resources and the executors.
pub mod State
pub mod Acquire
pub mod Results
pub mod PutOff
pub mod Release
pub mod Termination
pub mod Known
pub mod Calls
