-- ===== src/Sync.antt =====
-- The fault handler of src/pager.c in its synchronous mode: `handle_absent`, which fetches in the handler
-- itself. The pool is there only if the caller started one.
pub mod Besides
pub mod Inline
pub mod Waits
pub mod Landing
pub mod Flights
pub mod Answers
use residctl.Prelude.{
  ℕ, ◌+◌, Bool, true, false, not, ◌||◌, Option, none, some, ltb, leb, if◌then◌else◌, get_elem?,
}
use residctl.Result.{Result, ok, abort, ◌>>=◌, or_abort}
use residctl.Result
use residctl.State.{Chunk, Region}
use residctl.Kernel.{Kernel}
use residctl.Budget.{ensure_budget, unpin_chunk}
use residctl.Pool.{Pool, top_up}
use residctl.Worker.{retry, tick, take_off, abandon_fetch, fetch_and_settle, count_handled}
use residctl.Prefetch.{maybe_prefetch}
use residctl.Pager.{tell_policy, handle_fault_by}

-- The reservation of `handle_absent`: it tries again only if workers may hold reservations.
unfoldable pub reserve_fault : Kernel → (ℕ → Region → Region) → ℕ → Region → Result (Bool × Region)
unfolding ensure_budget retry
reserve_fault k sleep_others need r = do
  (granted, r') ← ensure_budget k r need
  let rest = retry k sleep_others need 200 r'
  if granted || not (ltb 1 r.prefetch_depth) then ok (granted, r') else rest

-- `prefetch_pool_top_up` for a pool that may be missing.
unfoldable pub top_up_if_started : Kernel → ℕ → Region × Option Pool → Region × Option Pool
unfolding top_up
top_up_if_started k idx (r, none) = (r, none)
top_up_if_started k idx (r, some p) = let (r', p') = top_up k idx (r, p) in (r', some p')

-- The prefetch that a fetched chunk asks for: in the handler at depth 1, by the pool beyond it.
unfoldable pub prefetch_after : Kernel → ℕ → Region × Option Pool → Result (Region × Option Pool)
unfolding maybe_prefetch top_up_if_started
prefetch_after k idx (r, p) =
    let inline = maybe_prefetch k idx r >>= λ r'. ok (r', p) in
    if r.prefetch_enabled
    then (if leb r.prefetch_depth 1 then inline else ok (top_up_if_started k idx (r, p)))
    else ok (r, p)

-- The rest of `handle_absent` once the bytes are reserved.
unfoldable pub finish_fault :
    Kernel → ℕ → Chunk → Region × Option Pool → Result (Region × Option Pool)
unfolding fetch_and_settle prefetch_after
finish_fault k idx c (r, p) = do
  r' ← fetch_and_settle k idx c r
  (r'', p') ← prefetch_after k idx (r', p)
  ok (count_handled (unpin_chunk r'' idx), p')

-- `handle_absent`
unfoldable pub handle_absent :
    Kernel → (ℕ → Region → Region) → ℕ → Region × Option Pool → Result (Region × Option Pool)
unfolding reserve_fault finish_fault abandon_fetch
handle_absent k sleep_others idx (r, p) = do
  c ← or_abort (get_elem? r.chunks idx) Result.out_of_bounds
  let dispatched = tell_policy (take_off (tick r) idx (k.clock r.clock_reads)) idx
  (granted, r') ← reserve_fault k sleep_others c.len dispatched
  let finished = finish_fault k idx c (r', p)
  if granted then finished else ok (abandon_fetch r' idx, p)

-- `handle_fault` with `async_handler` cleared.
unfoldable pub handle_fault_sync :
    Kernel → (ℕ → Region → Region) → ℕ → Bool → Region × Option Pool → Result (Region × Option Pool)
unfolding handle_fault_by handle_absent
handle_fault_sync k sleep_others = handle_fault_by (handle_absent k sleep_others)
