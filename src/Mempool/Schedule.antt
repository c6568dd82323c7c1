-- ===== src/Mempool/Schedule.antt =====
-- `MPTxSchedule` of proxy/mempool/mempool_schedule.py. A sender's pool is one object, which
-- `_sender_pool_dict` and `_sender_pool_queue` share: the dict holds its value here, the queue its
-- address, and a method that changes a pool writes it back to the dict.
pub mod State
pub mod Sync
pub mod Calls
pub mod Transfer
pub mod Refusal
pub mod Peek
pub mod Done
pub mod Counts
pub mod DropLast
pub mod DropBelow
pub mod Stuck
