-- ===== src/System.antt =====
-- The pager as a whole in its asynchronous mode: the dispatcher of src/pager.c, the workers of
-- src/prefetch_pool.c and the workload, interleaved in any order. A step is one critical section of
-- `budget_lock` or of the pool's lock, or what a thread does while it alone holds the chunk's lock.
pub mod Owners
pub mod Moving
pub mod Invariant
pub mod Demands
pub mod Landings
pub mod Prefetches
pub mod Stores
pub mod Sending
pub mod Watching
pub mod Dispatch
pub mod Reaching
pub mod Safety
pub mod Turns
pub mod Progress
pub mod Faults
use residctl.Prelude.{
  ℕ, zero, suc, ◌+◌, ◌≡◌, Bool, true, false, List, [], ◌∷◌, Option, none, some, get_elem?, set,
  replicate,
}
use residctl.Result.{Result, ok}
use residctl.State.{Chunk, Region}
use residctl.Kernel.{Kernel}
use residctl.Budget.{ensure_budget, ensure_budget_prefetch}
use residctl.Pool.{Pool, Job, demand_job, prefetch_job, take_job, finish_prefetch, is_absent, start}
use residctl.Worker.{abandon_fetch, fetch_and_settle, complete_demand}
use residctl.Prefetch.{start_prefetch, fetch_and_retain, drop_prefetch}
use residctl.Pager.{handle_fault, notify_access, is_orphan, timeout_ns, fetching_watchdog}

-- Where a worker stands in `do_one_demand` or `do_one_prefetch`, with its chunk, whose lock it holds.
pub data Pc : Type 0 where
  idle : Pc  -- waits in `worker_main`
  asking : (idx left : ℕ) → Pc  -- before a call of `ensure_budget`, with the retries left
  granted : (idx : ℕ) → Pc  -- before `fetch_chunk` of a demand
  landed : (idx : ℕ) → Pc  -- after the commit: resident, with the pin of `commit_reserved_and_pin`
  wanting : (idx : ℕ) → Pc  -- has taken a prefetch, before or in the wait for the chunk's lock
  departing : (idx : ℕ) → Pc  -- before `ensure_budget_prefetch`
  admitted : (idx : ℕ) → Pc  -- before `fetch_chunk` of a prefetch

-- The chunk that the worker holds.
abbrev pub target : Pc → Option ℕ
target idle = none
target (asking i left) = some i
target (granted i) = some i
target (landed i) = some i
target (wanting i) = none
target (departing i) = some i
target (admitted i) = some i

-- No worker holds the lock of the chunk.
abbrev pub IsUnlocked : List Pc → ℕ → Type 0
IsUnlocked ws idx = (w : ℕ) (pc : Pc) → get_elem? ws w ≡ some pc → target pc ≡ some idx → ⊥

pub record System : Type 0 where
  pub region : Region
  pub pool : Pool
  pub workers : List Pc

abbrev pub with_worker : System → Region → Pool → ℕ → Pc → System
with_worker s r p w pc = record { region = r; pool = p; workers = set s.workers w pc }

pub data Step (k : Kernel) (s : System) : System → Type 0 where
  -- the dispatcher handles a fault
  fault :
      (rel_off : ℕ) (was_minor : Bool) (r : Region) (p : Pool)
      → handle_fault k rel_off was_minor (s.region, s.pool) ≡ ok (r, p)
      → Step k s (record s { region = r; pool = p })
  -- the dispatcher runs the watchdog, which finds no orphan; `locked` tells whose trylock fails
  watch :
      (locked : ℕ → Bool)
      → ((i : ℕ) (c : Chunk)
          → get_elem? s.region.chunks i ≡ some c
          → is_orphan (k.clock s.region.clock_reads) (timeout_ns s.region) (locked i) c ≡ false)
      → Step k s (record s { region = fetching_watchdog k locked s.region })
  -- the workload says that it has consumed a chunk
  access : (idx : ℕ) → Step k s (record s { region = notify_access s.region idx })
  -- a worker takes a demand
  take :
      (w idx : ℕ) (p : Pool)
      → get_elem? s.workers w ≡ some idle
      → take_job s.pool ≡ some (demand_job idx, p)
      → Step k s (with_worker s s.region p w (asking idx 200))
  -- a worker takes a prefetch
  pick :
      (w idx : ℕ) (p : Pool)
      → get_elem? s.workers w ≡ some idle
      → take_job s.pool ≡ some (prefetch_job idx, p)
      → Step k s (with_worker s s.region p w (wanting idx))
  -- it has the lock of the chunk, which is absent
  depart :
      (w idx : ℕ) (c : Chunk)
      → get_elem? s.workers w ≡ some (wanting idx)
      → IsUnlocked s.workers idx
      → get_elem? s.region.chunks idx ≡ some c
      → is_absent c.state ≡ true
      → Step k s (with_worker s (start_prefetch k idx s.region) s.pool w (departing idx))
  -- it has the lock of the chunk, which is absent no longer, and drops the prefetch
  skip :
      (w idx : ℕ) (c : Chunk)
      → get_elem? s.workers w ≡ some (wanting idx)
      → IsUnlocked s.workers idx
      → get_elem? s.region.chunks idx ≡ some c
      → is_absent c.state ≡ false
      → Step k s (with_worker s s.region (finish_prefetch s.pool idx) w idle)
  -- a demand's bytes are reserved
  grant :
      (w idx left : ℕ) (c : Chunk) (r : Region)
      → get_elem? s.workers w ≡ some (asking idx left)
      → get_elem? s.region.chunks idx ≡ some c
      → ensure_budget k s.region c.len ≡ ok (true, r)
      → Step k s (with_worker s r s.pool w (granted idx))
  -- they are not, and the worker will try again
  retry :
      (w idx left : ℕ) (c : Chunk) (r : Region)
      → get_elem? s.workers w ≡ some (asking idx (suc left))
      → get_elem? s.region.chunks idx ≡ some c
      → ensure_budget k s.region c.len ≡ ok (false, r)
      → Step k s (with_worker s r s.pool w (asking idx left))
  -- they are not, and the worker gives up
  abandon :
      (w idx : ℕ) (c : Chunk) (r : Region)
      → get_elem? s.workers w ≡ some (asking idx zero)
      → get_elem? s.region.chunks idx ≡ some c
      → ensure_budget k s.region c.len ≡ ok (false, r)
      → Step k s (with_worker s (abandon_fetch r idx) s.pool w idle)
  -- the chunk is fetched and committed
  land :
      (w idx : ℕ) (c : Chunk) (r : Region)
      → get_elem? s.workers w ≡ some (granted idx)
      → get_elem? s.region.chunks idx ≡ some c
      → fetch_and_settle k idx c s.region ≡ ok r
      → Step k s (with_worker s r s.pool w (landed idx))
  -- prefetches are asked for, and the pin ends
  complete :
      (w idx : ℕ)
      → get_elem? s.workers w ≡ some (landed idx)
      → Step k s (
          with_worker s
            (complete_demand k idx (s.region, s.pool)).0
            (complete_demand k idx (s.region, s.pool)).1
            w
            idle)
  -- a prefetch's bytes are reserved
  admit :
      (w idx : ℕ) (r : Region)
      → get_elem? s.workers w ≡ some (departing idx)
      → ensure_budget_prefetch k s.region idx ≡ ok (true, r)
      → Step k s (with_worker s r s.pool w (admitted idx))
  -- they are not, and the prefetch is dropped
  decline :
      (w idx : ℕ) (r : Region)
      → get_elem? s.workers w ≡ some (departing idx)
      → ensure_budget_prefetch k s.region idx ≡ ok (false, r)
      → Step k s (with_worker s (drop_prefetch k r idx) (finish_prefetch s.pool idx) w idle)
  -- the chunk is fetched, committed and retained
  store :
      (w idx : ℕ) (c : Chunk) (r : Region)
      → get_elem? s.workers w ≡ some (admitted idx)
      → get_elem? s.region.chunks idx ≡ some c
      → fetch_and_retain k idx c s.region ≡ ok r
      → Step k s (with_worker s r (finish_prefetch s.pool idx) w idle)

-- What `pager_run` starts from: the region as it was set up, a new pool, and its workers at rest.
abbrev pub initial : Region → System
initial r =
    let pool = start r r.fetch_workers in
    record { region = r; pool = pool; workers = replicate pool.n_workers idle }

pub data Reach (k : Kernel) (r : Region) : System → Type 0 where
  here : Reach k r (initial r)
  later : {s t : System} → Reach k r s → Step k s t → Reach k r t
