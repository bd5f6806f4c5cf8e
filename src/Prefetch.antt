-- ===== src/Prefetch.antt =====
-- The fetch of a predicted chunk: `do_one_prefetch` of src/prefetch_pool.c, run by a worker, and
-- `maybe_prefetch` of src/prefetch.c, run inside the synchronous handler.
pub mod Edits
pub mod Landing
use residctl.Prelude.{
  ℕ, ◌+◌, Bool, true, false, not, Option, none, some, ◌==◌, if◌then◌else◌, add64, get_elem?,
}
use residctl.Result.{Result, ok, abort, ◌>>=◌, ◌>>◌, guard, or_abort}
use residctl.Result
use residctl.State.{Chunk, ChunkState, Region, Stats}
use residctl.Kernel.{Kernel}
use residctl.Policy.{predict_next}
use residctl.Retain.{prefetch_retain_on_resident}
use residctl.Budget.{ensure_budget_prefetch, commit_reserved, pin_chunk, unpin_chunk}
use residctl.Fetch.{fetch_chunk}
use residctl.Pool.{is_absent}
use residctl.Worker.{is_fetching, enter, update, abandon_fetch, count_fetched, tick, take_off}

abbrev pub count_prefetch : Region → Region
count_prefetch r = record r { stats = record (r.stats) { prefetches = add64 r.stats.prefetches 1 } }

abbrev pub count_prefetch_infeasible : Region → Region
count_prefetch_infeasible r = record r {
  stats = record (r.stats) { prefetch_infeasible = add64 r.stats.prefetch_infeasible 1 };
}

-- A prefetch that is not granted: 100 ms of backoff.
unfoldable pub drop_prefetch : Kernel → Region → ℕ → Region
unfolding unpin_chunk abandon_fetch
drop_prefetch k r idx =
    let until = add64 (k.clock r.clock_reads) 100000000 in
    count_prefetch_infeasible (
      update (tick (abandon_fetch (unpin_chunk r idx) idx)) idx
        (λ c. record c { decline_until_ns = until }))

unfoldable pub settle_prefetch : Region → ℕ → Chunk → Region
unfolding commit_reserved prefetch_retain_on_resident unpin_chunk
settle_prefetch r idx c =
    let r' = update (commit_reserved r c.len) idx (enter ChunkState.resident 0) in
    let r'' = count_fetched r' c.len in
    count_prefetch (
      if r.prefetch_retention_pinned
      then prefetch_retain_on_resident r'' idx
      else unpin_chunk r'' idx)

-- A prefetch takes off: its chunk is pinned and in flight.
unfoldable pub start_prefetch : Kernel → ℕ → Region → Region
unfolding pin_chunk
start_prefetch k idx r = take_off (pin_chunk (tick r) idx) idx (k.clock r.clock_reads)

unfoldable pub fetch_and_retain : Kernel → ℕ → Chunk → Region → Result Region
fetch_and_retain k idx c r = do (segments, r') ← fetch_chunk k r c; ok (settle_prefetch r' idx c)

-- `do_one_prefetch`: a chunk that is absent no longer is dropped.
unfoldable pub do_one_prefetch : Kernel → ℕ → Region → Result Region
unfolding start_prefetch ensure_budget_prefetch fetch_and_retain drop_prefetch
do_one_prefetch k idx r = do
  c ← or_abort (get_elem? r.chunks idx) Result.out_of_bounds
  let run : Result Region = do
    (granted, r') ← ensure_budget_prefetch k (start_prefetch k idx r) idx
    let finished : Result Region = do
      r'' ← fetch_and_retain k idx c r'
      c' ← or_abort (get_elem? r''.chunks idx) Result.out_of_bounds
      guard (not (is_fetching c'.state)) Result.left_fetching
      ok r''
    if granted then finished else ok (drop_prefetch k r' idx)
  if is_absent c.state then run else ok r

-- A prefetch of `maybe_prefetch` that is not granted: there is no backoff.
unfoldable pub drop_inline : Region → ℕ → Region
unfolding unpin_chunk abandon_fetch
drop_inline r idx = count_prefetch_infeasible (abandon_fetch (unpin_chunk r idx) idx)

-- The body of `maybe_prefetch` for a target: the chunk `just` is pinned while the budget is asked.
unfoldable pub prefetch_inline : Kernel → ℕ → ℕ → Chunk → Region → Result Region
unfolding start_prefetch ensure_budget_prefetch fetch_and_retain drop_inline pin_chunk unpin_chunk
prefetch_inline k just idx c r = do
  (granted, r') ← ensure_budget_prefetch k (pin_chunk (start_prefetch k idx r) just) idx
  let unpinned = unpin_chunk r' just
  if granted then fetch_and_retain k idx c unpinned else ok (drop_inline unpinned idx)

-- `maybe_prefetch` of src/prefetch.c, after the fetch of the chunk `just`.
unfoldable pub maybe_prefetch : Kernel → ℕ → Region → Result Region
unfolding predict_next prefetch_inline
maybe_prefetch k just r = elim r.policy [
  | none ↦ ok r
  | some policy ↦ elim (predict_next policy just) [
    | none ↦ ok r
    | some idx ↦ elim (get_elem? r.chunks idx) [
      | none ↦ abort Result.predicted_out_of_range
      | some c ↦
          if idx == just
          then ok r
          else if is_absent c.state
          then prefetch_inline k just idx c r
          else ok r
    ]
  ]
]
