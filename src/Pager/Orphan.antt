-- ===== src/Pager/Orphan.antt =====
-- The watchdog and a demand that still waits, src/pager.c and src/prefetch_pool.c.
use residctl.Prelude.{ℕ, ◌≤◌, ◌≡◌, ◌≢◌, refl, Bool, true, false, some, arith, get_elem?, sub64}
use residctl.Result.{Result, abort, ok}
use residctl.Result
use residctl.State.{Chunk, ChunkState, Region}
use residctl.Kernel.{Kernel}
use residctl.Pool.{Pool}
use residctl.Worker.{is_fetching, do_one_demand}
use residctl.Pager.{fetching_watchdog, timeout_ns}
use residctl.Pager.Watchdog.{timeout_ns-Limit, fetching_watchdog_reclaims}

-- If a chunk whose demand still waits in the pool has been in flight for the timeout, so that no worker
-- holds its lock, the watchdog makes it absent although its demand is still queued; the worker that then
-- takes the demand ends the process.
pub watchdog-do_one_demand :
    (k : Kernel) (locked : ℕ → Bool) (sleep_others : ℕ → Region → Region) (r : Region) (p : Pool)
    (idx : ℕ) (c : Chunk)
    → get_elem? r.chunks idx ≡ some c
    → is_fetching c.state ≡ true
    → c.fetching_since_ns ≢ 0
    → timeout_ns r ≤ sub64 (k.clock r.clock_reads) c.fetching_since_ns
    → locked idx ≡ false
    → do_one_demand k sleep_others idx (fetching_watchdog k locked r, p) ≡ abort Result.not_fetching
unfolding do_one_demand
watchdog-do_one_demand k locked sleep_others r p idx c got flying noted long free =
    let (reclaim, _) =
      fetching_watchdog_reclaims k locked r idx c (timeout_ns r) got (timeout_ns-Limit r) in
    let gone = reclaim (in_flight c.state flying) noted long free in rw gone refl
  where
    in_flight : (x : ChunkState) → is_fetching x ≡ true → x ≡ ChunkState.fetching
    in_flight ChunkState.absent e = absurd (ground arith)
    in_flight ChunkState.fetching e = refl
    in_flight ChunkState.resident e = absurd (ground arith)
