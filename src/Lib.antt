-- ===== src/Lib.antt =====
-- Verification of the core of the Neon EVM proxy (proxy/).
--
-- The proxy takes Ethereum transactions over JSON-RPC, keeps them in a mempool and executes them on
-- Solana. This development models the checks before a transaction is taken in, the mempool, which
-- decides what is kept and what runs next, the sender of the Solana transactions that execute it, and
-- the decoder of the logs that they leave.
--
-- Parts and files:
--   * Base: names, numbers, lists and results that the other files share. `Result` is what Python code
--     returns or raises; what a call that raises leaves behind is not modelled.
--   * Dict: Python's dict, an association list in insertion order.
--   * SortedQueue (proxy/mempool/sorted_queue.py): the list kept in order by bisection. Order states the
--     order, Bisect compares the bisection with a scan, Find and Calls say what the methods do.
--   * Mempool.TxRequest (proxy/mempool/mempool_api.py): the requests, as far as the schedule reads them.
--   * Mempool.RequestDict (`MPTxRequestDict` of proxy/mempool/mempool_schedule.py): the requests by
--     signature, by sender and nonce, and in the order of prices.
--   * Mempool.SenderPool (`MPSenderTxPool` of the same file): the requests of one sender and its state.
--   * Mempool.CompletedTxDict (`MPTxDict` of proxy/mempool/mempool_neon_tx_dict.py), with Mempool.NeonTxInfo:
--     the outcomes of the last transactions. Consistency and Expiry hold proofs.
--   * Mempool.StuckTxDict (`MPStuckTxDict` of proxy/mempool/mempool_stuck_tx_dict.py): transactions that
--     some executor left unfinished. Lookup and Listing hold proofs.
--   * Mempool.ExecutorMng (`MPExecutorMng` of proxy/mempool/executor_mng.py): the processes that execute.
--     Soundness and Counts hold proofs.
--   * Mempool.FreeAltQueue (`MPFreeALTQueueTaskLoop` of
--     proxy/mempool/mempool_periodic_task_free_alt_queue.py): the address lookup tables to be freed, in
--     two sorted queues. Freeing holds the proof.
--   * Resources (`OpResMng` of proxy/common_neon/operator_resource_mng.py): the operator's resources, one
--     for each transaction that executes. Places counts where a resource stands; Keeping, Steps, Runs, Twice
--     and Relist hold proofs.
--   * Mempool.Schedule (`MPTxSchedule` of the same file): State has the pools and dicts, Sync the moves
--     of a pool between the queues, Calls the public calls, Transfer the hand-over to another mempool.
--     The other children hold proofs.
--   * Mempool.MemPool (`MemPool` of proxy/mempool/mempool.py): the mempool over these parts. State has
--     the calls that take transactions in, Acquire takes the next one to an executor, Results takes back
--     what the executors did; the other children hold proofs.
--   * Rpc (proxy/neon_rpc_api_model): NeonTx has the transaction (proxy/common_neon/utils/eth_proto.py)
--     and what a check does, Estimate the estimate of gas (estimate.py), Validator the checks
--     (transaction_validator.py, nonce_validator.py). Conditions and Admission say what passes them,
--     GasBounds bounds the gas of what passes.
--   * Solana.Tx (`SolTx`, `SolCommit` of proxy/common_neon/solana_tx.py): the Solana transactions.
--   * Solana.ListSender (`SolTxListSender` of proxy/common_neon/solana_tx_list_sender.py): the sender of a
--     list of them, which retries by the status of each. Status, State, Receipts, Sending and Calls are the
--     model: the state holds a heap of transaction objects, and a method is a function to a `Run`, which
--     raises or returns with the state it leaves. Leaves, Settled and Sent prove what holds when `send`
--     returns, Tracking, Given, GivenStates, Resending and Rounds that no transaction is lost on the way; Signing,
--     Filling, Accepting and Liveness that `send` returns with a reliable node.
--   * EvmLog (`_NeonLogDecoder` of proxy/common_neon/utils/evm_log_decoder.py): the decoders of the
--     words of a line, Lines the match and the split of a line, Decoding the loop over the lines. Splitting
--     joins words to lines and splits them, RoundTrip decodes the lines of logs.
--   * Mempool.Examples and the other modules of this name: concrete inputs, runs and the theorems at them.
--
-- Correspondence: a class is a record, a method a function from the record to a `Result` of the new
-- record; names are the source's. A pool object is shared by a dict and a queue in the source; here the
-- dict holds its value and the queue its address. `t is p` for requests of one pool compares signatures,
-- since the dict of requests holds one object for a signature.
--
-- Fuel: `bisect_loop` has one unit more than the queue's length, of which each round halves the range,
-- and `drop_below` one more than the pool's requests, of which each round drops one; the theorems on
-- both show that this is enough. `stuck_loop` has one unit more than stuck transactions that wait, of
-- which each round but the last skips one. `send_rounds` has the number of rounds that the configuration
-- allows, as in the source.
--
-- Time is an argument of the functions that read the clock in the source.
--
-- Not modelled: logging, sockets and processes, SQL, the HTTP server (a copy of the project proxy.py),
-- the Solana client, whose answers are functions of the calls before, the emulator, base64 and regular
-- expressions, which are parameters, the strategies of execution, the gas price, the indexer and its
-- database, and the worker of the RPC API. A Python set is walked in the order of insertion.
pub mod Base
pub mod Dict
pub mod SortedQueue
pub mod Mempool
pub mod Resources
pub mod Solana
pub mod Rpc
pub mod EvmLog
