-- ===== src/Lib.antt =====
-- residctl keeps a model file larger than memory in a region backed by userfaultfd, under a fixed budget.
-- The pager answers faults: it looks up the chunk of the address, reserves the chunk's bytes within the
-- budget, evicting others by a policy, fetches the chunk and marks it resident; a pool of workers
-- prefetches what the policy predicts, and a queue pins what was prefetched until it is used.
--
-- Files and the code that they model:
--   State              src/region.h: `region_t`, `chunk_t` and the policies' private state of src/policy.c
--   Kernel             the answers of memory.stat, fallocate, clock_gettime and the like, as parameters
--   Result             the outcome of a call: a value, or the `abort()` that ended the process
--   Table              src/region.c: `build_chunk_table`, `build_chunk_table_explicit`
--   Lookup             src/pager.c: `pager_lookup`
--   Policy             src/policy.c: `policy_lru_create`, `policy_layer_order_learned_create` and
--                      `policy_layer_order_declared_create` with their functions, in Policy/Learned and
--                      Policy/Declared; the `struct policy` of src/policy.h is the data type `Policy`
--   Retain             src/budget.c: `prefetch_retain_on_resident`, `prefetch_retain_release`,
--                      `pin_break_select_victim`
--   Budget             src/budget.c: `reconcile`, `evict_chunk`, `ensure_budget`,
--                      `ensure_budget_prefetch`, `commit_reserved` and the pins
--   Fetch              src/fetch.c: `fetch_chunk` with its two read loops
--   Pool               src/prefetch_pool.c: `struct prefetch_pool`, `prefetch_pool_enqueue_demand`,
--                      `prefetch_pool_top_up` and the choice of a job in `worker_main`
--   Worker             src/prefetch_pool.c: `do_one_demand`; src/pager.c: `pager_abandon_fetch`
--   Prefetch           src/prefetch_pool.c: `do_one_prefetch`; src/prefetch.c: `maybe_prefetch`
--   Pager              src/pager.c: `handle_fault` and `handle_absent_dispatch` in the asynchronous mode,
--                      `pager_fetching_watchdog`, `pager_notify_access`
--   Sync               src/pager.c: `handle_absent` and `handle_fault` in the synchronous mode
--   Startup            src/region.c: `region_startup` with `compute_budget`, with the outcome of its
--                      system calls as an argument
--   System             the threads of the asynchronous mode together: the dispatcher, any number of
--                      workers and the workload as a step relation on one state
--   Trace              src/trace.c: `trace_open`, `trace_record` and `trace_read_header`; src/belady_main.c:
--                      `load_reference_string`
--   Replay             src/replay.c: `replay_cyclic`, and `replay_cyclic_mt` with `replay_thread_main` and the
--                      lookahead window as steps of the threads
--   Belady             src/belady.c: the heap and `belady_simulate`; in Belady/Naive and Belady/Floor, of
--                      src/belady_main.c, `naive_belady` and `check_cyclic_floor_or_abort`
--   Prelude            shared operators, Boolean tests, lists over native numbers and machine words
--   Tests              runs at concrete inputs and the theorems applied at them
--
-- A pointer to a chunk is its index; a `uint32_t` or `uint64_t` operation that may wrap is `add32`,
-- `sub64` and so on, written out modulo 2^32 or 2^64. In Worker, Prefetch and Pager mutexes are not modelled:
-- each function is one critical section of `budget_lock`, or a chain of them run without interference. The
-- kernel is a record of functions that give the answer of the n-th call; the region counts the calls made. Of the
-- answers nothing is assumed but what a result names as its condition. Where the source calls `abort()` the
-- model returns `abort` with a reason.
--
-- Loops run on fuel where they are not structural: the binary search on one more than the number of
-- chunks, since each step shrinks its range; the eviction loops on one more than the number of chunks,
-- since each round evicts a resident chunk; a read loop on the bytes that it has to read, since each read
-- brings one at least; the trace's writer on the bytes that it has to write; the heap's loops on its
-- length, as the index moves to a parent or a child each time; the search for a victim on the heap's
-- length, as each pop shortens it. The results show that the fuel does not run out.
-- Byte counts in the budget are bounded by 2^62, so that no sum of three of them wraps.
--
-- What other threads do while `do_one_demand` sleeps between two tries is an argument of it, with the
-- condition that they do no more to the region than evictions do: it stays sound, and the chunks that are in
-- flight or absent, or pinned outside the retention queue, the policy, the count of faults and the readings
-- of the clock stay as they are.
-- The condition in Sync is weaker: the region stays sound, the handler's own chunk stays as it is, the
-- chunks stay in the file and the absent ones have no pin, so that other fetches may end during the sleep.
--
-- In System the same functions are cut where a thread gives up a lock that others wait for: a step of a
-- worker is the take of a job, the lock of a prefetch's chunk, one call of `ensure_budget` or
-- `ensure_budget_prefetch`, a fetch with the commit of its bytes and the change of the chunk's state, or the
-- end of the fetch; a step of the dispatcher is one fault or one pass of the watchdog, a step of the workload
-- one consumption signal. The steps of all threads come in any order. The lock of a chunk is the place of the
-- worker that holds it; a worker that has taken a prefetch waits until no worker holds the chunk.
--
-- The pass of the watchdog, which `pager_run` makes in each round of its loop, is a step only when it finds
-- no orphaned fetch, so the results on System hold as long as none is found. A pass that finds one can make
-- a chunk absent whose demand still waits, and the worker that takes the demand then ends the process: that
-- is shown apart, in Pager.
--
-- These things are coarser in System than in the source. The take of a demand, the lock of its chunk and the
-- test of its state are one step, and so are the commit of the bytes and the change of the chunk's state, the
-- unpinning, the top-up and the unlock behind a fetch, the retention of a prefetched chunk with its unlock,
-- and a fault with the enqueueing of its demand. So an eviction that waits for the lock of a chunk in the
-- short time between its unpinning and its unlock has no state of its own. A fault does not wait for a
-- worker that holds the chunk's lock, which gives more runs than the source has.
--
-- In Replay a step is one wait that is over with the start of its step, one critical section of the
-- lookahead's lock, one consumption signal, or the account of a full step. A thread's own reading of its
-- pages touches nothing that the others see and is part of the step behind it.
--
-- In Belady the references behind the one at hand are the rest of the string, where the source has an index
-- into it; `occ_count` is the length of a chunk's row of `occurrence`, and the entries of the heap behind its
-- `size` are left out. The slots and distances of `naive_belady` are numbers without a bound, where the
-- source casts them to `int`: they differ only beyond 2^31 slots.
--
-- Not modelled: the message loop of `pager_run` and the stop of the pool; the system calls of the start and
-- the text of memory.stat, which are calls of the operating system; diagnostic records and metrics, which
-- decide nothing; the timed computation of the replay driver and its options; the byte-based offline
-- simulation of src/wp2_opt.c, and the glue to llama.cpp.
pub mod Prelude
pub mod State
pub mod Result
pub mod Table
pub mod Lookup
pub mod Policy
pub mod Kernel
pub mod Retain
pub mod Budget
pub mod Fetch
pub mod Pool
pub mod Worker
pub mod Prefetch
pub mod Pager
pub mod Startup
pub mod Sync
pub mod Trace
pub mod Replay
pub mod Belady
pub mod System
pub mod Tests
