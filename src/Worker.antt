-- ===== src/Worker.antt =====
-- The fetches that the pool's workers run, src/prefetch_pool.c, and the part of src/pager.c that abandons
-- one. Each of `sleep_others` stands for what other threads do during a nanosleep.
pub mod Demand
pub mod Settle
pub mod Landing
use residctl.Prelude.{
  ℕ, zero, suc, ◌+◌, Bool, true, false, not, List, Option, none, some, ltb, ◌==◌, if◌then◌else◌,
  add64, add32, get_elem?, set,
}
use residctl.Result.{Result, ok, abort, ◌>>=◌, ◌>>◌, guard, or_abort}
use residctl.Result
use residctl.State.{Chunk, ChunkState, Region, Stats}
use residctl.Kernel.{Kernel}
use residctl.Retain.{prefetch_retain_on_resident}
use residctl.Budget.{
  ensure_budget, ensure_budget_prefetch, commit_reserved, commit_reserved_and_pin, pin_chunk,
  unpin_chunk,
}
use residctl.Fetch.{fetch_chunk}
use residctl.Pool.{Pool, top_up, is_absent}

abbrev pub is_fetching : ChunkState → Bool
is_fetching ChunkState.fetching = true
is_fetching _ = false

-- The state of a chunk and the clock of its fetch.
abbrev pub enter : ChunkState → ℕ → Chunk → Chunk
enter state since c = record c { state = state; fetching_since_ns = since }

abbrev pub update : Region → ℕ → (Chunk → Chunk) → Region
update r idx f = elim (get_elem? r.chunks idx) [
  | none ↦ r
  | some c ↦ record r { chunks = set r.chunks idx (f c) }
]

-- `now_ns` with its count.
abbrev pub tick : Region → Region
tick r = record r { clock_reads = r.clock_reads + 1 }

-- The chunk is in flight from `since` on, stamped with the next fault number.
abbrev pub take_off : Region → ℕ → ℕ → Region
take_off r idx since =
    let seq = add64 r.fault_seq 1 in
    update (record r { fault_seq = seq }) idx
      (λ c. record c {
        state = ChunkState.fetching;
        fetching_since_ns = since;
        last_fault_seq = seq;
      })

-- `pager_abandon_fetch`; its UFFDIO_WAKE changes no state.
unfoldable pub abandon_fetch : Region → ℕ → Region
abandon_fetch r idx = update r idx (enter ChunkState.absent 0)

-- Up to `attempts` further calls of `ensure_budget`, with a sleep before each.
unfoldable pub retry : Kernel → (ℕ → Region → Region) → ℕ → ℕ → Region → Result (Bool × Region)
unfolding ensure_budget
retry k sleep_others need zero r = ok (false, r)
retry k sleep_others need (suc attempts) r = do
  (granted, r') ← ensure_budget k (sleep_others attempts r) need
  let rest = retry k sleep_others need attempts r'
  if granted then ok (true, r') else rest

unfoldable pub reserve_demand : Kernel → (ℕ → Region → Region) → ℕ → Region → Result (Bool × Region)
unfolding ensure_budget retry
reserve_demand k sleep_others need r = do
  (granted, r') ← ensure_budget k r need
  let rest = retry k sleep_others need 200 r'
  if granted then ok (true, r') else rest

abbrev pub count_fetched : Region → ℕ → Region
count_fetched r n = record r {
  stats = record (r.stats) { bytes_fetched = add64 r.stats.bytes_fetched n };
}

abbrev pub count_handled : Region → Region
count_handled r = record r {
  stats = record (r.stats) { absent_handled = add64 r.stats.absent_handled 1 };
}

-- The chunk becomes resident, pinned for the rest of the fetch.
unfoldable pub settle_demand : Region → ℕ → Chunk → Region
unfolding commit_reserved_and_pin
settle_demand r idx c =
    let r' = commit_reserved_and_pin r idx c.len in
    count_fetched (update r' idx (enter ChunkState.resident 0)) c.len

-- The fetch, and the commit of its bytes.
unfoldable pub fetch_and_settle : Kernel → ℕ → Chunk → Region → Result Region
fetch_and_settle k idx c r = do (segments, r') ← fetch_chunk k r c; ok (settle_demand r' idx c)

-- The prefetches that a completed fetch asks for, and the end of its pin.
unfoldable pub complete_demand : Kernel → ℕ → Region × Pool → Region × Pool
complete_demand k idx (r, p) =
    let (r', p') = if r.prefetch_enabled then top_up k idx (r, p) else (r, p) in
    (count_handled (unpin_chunk r' idx), p')

-- The rest of a demand fetch once its bytes are reserved.
unfoldable pub finish_demand : Kernel → ℕ → Chunk → Region × Pool → Result (Region × Pool)
unfolding fetch_and_settle complete_demand
finish_demand k idx c (r, p) = do
  r' ← fetch_and_settle k idx c r
  ok (complete_demand k idx (r', p))

-- `do_one_demand`: its last test, that the chunk has left CHUNK_FETCHING, included.
unfoldable pub do_one_demand :
    Kernel → (ℕ → Region → Region) → ℕ → Region × Pool → Result (Region × Pool)
unfolding reserve_demand finish_demand abandon_fetch
do_one_demand k sleep_others idx (r, p) = do
  c ← or_abort (get_elem? r.chunks idx) Result.out_of_bounds
  guard (is_fetching c.state) Result.not_fetching
  (granted, r') ← reserve_demand k sleep_others c.len r
  let finished : Result (Region × Pool) = do
    (r'', p') ← finish_demand k idx c (r', p)
    c' ← or_abort (get_elem? r''.chunks idx) Result.out_of_bounds
    guard (not (is_fetching c'.state)) Result.left_fetching
    ok (r'', p')
  if granted then finished else ok (abandon_fetch r' idx, p)
