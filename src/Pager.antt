-- ===== src/Pager.antt =====
-- The fault handler of src/pager.c in its asynchronous mode (the default): what the dispatcher does with a
-- fault, the watchdog for orphaned fetches, and the consumption signal.  Trace records and UFFDIO_WAKE change no state and are left out.
pub mod Watchdog
pub mod Orphan
use residctl.Prelude.{
  ℕ, zero, suc, ◌+◌, ◌*◌, Bool, true, false, not, ◌&&◌, List, [], ◌∷◌, Option, none, some, ltb, leb,
  ◌==◌, if◌then◌else◌, add64, sub64, get_elem?, set,
}
use residctl.Result.{Result, ok, abort, ◌>>=◌, ◌>>◌, guard, or_abort}
use residctl.Result
use residctl.State.{Chunk, ChunkState, Region, Stats}
use residctl.Kernel.{Kernel}
use residctl.Lookup.{pager_lookup}
use residctl.Policy.{on_fault, on_access}
use residctl.Retain.{prefetch_retain_on_resident, prefetch_retain_release}
use residctl.Budget.{ensure_budget_prefetch, commit_reserved, pin_chunk, unpin_chunk}
use residctl.Fetch.{fetch_chunk}
use residctl.Pool.{Pool, enqueue_demand, is_absent}
use residctl.Worker.{take_off, tick, is_fetching, enter, update, abandon_fetch, count_fetched}

abbrev pub tell_policy : Region → ℕ → Region
tell_policy r idx = record r {
  policy = elim r.policy [ none ↦ none | some policy ↦ some (on_fault policy idx) ];
}

abbrev pub stamp : ℕ → ℕ → Chunk → Chunk
stamp entry enqueue c = record c {
  diag_dispatch_entry_ns = entry;
  diag_dispatch_enqueue_ns = enqueue;
}

-- `handle_absent_dispatch`
unfoldable pub handle_absent_dispatch : Kernel → ℕ → Region × Pool → Result (Region × Pool)
unfolding enqueue_demand
handle_absent_dispatch k idx (r, p) = do
  let entry = k.clock r.clock_reads
  let r' = tell_policy (take_off (tick r) idx entry) idx
  p' ← enqueue_demand p idx
  ok (update (tick r') idx (stamp entry (k.clock r'.clock_reads)), p')

abbrev pub count_fault : Bool → Region → Region
count_fault was_minor r = record r {
  stats =
      if was_minor
      then record (r.stats) { fault_minor = add64 r.stats.fault_minor 1 }
      else record (r.stats) { fault_missing = add64 r.stats.fault_missing 1 };
}

abbrev pub count_dedup_resident : Region → Region
count_dedup_resident r = record r {
  stats = record (r.stats) { dedup_resident = add64 r.stats.dedup_resident 1 };
}

abbrev pub count_dedup_fetching : Region → Region
count_dedup_fetching r = record r {
  stats = record (r.stats) { dedup_fetching = add64 r.stats.dedup_fetching 1 };
}

-- The switch of `handle_fault` on the chunk's state, over the handler of an absent chunk.
abbrev pub by_state {ℓ} :
    {P : Type ℓ}
    → (Region × P → Result (Region × P))
    → ChunkState
    → Region × P
    → Result (Region × P)
by_state absent_case ChunkState.resident (r, p) = ok (count_dedup_resident r, p)
by_state absent_case ChunkState.fetching (r, p) = ok (count_dedup_fetching r, p)
by_state absent_case ChunkState.absent (r, p) = absent_case (r, p)

-- `handle_fault` over the handler of an absent chunk, by the fault's offset in the region.
unfoldable pub handle_fault_by {ℓ} :
    {P : Type ℓ}
    → (ℕ → Region × P → Result (Region × P))
    → ℕ
    → Bool
    → Region × P
    → Result (Region × P)
unfolding pager_lookup
handle_fault_by absent_case rel_off was_minor (r, p) = do
  found ← pager_lookup r.chunks rel_off
  idx ← or_abort found Result.no_covering_chunk
  c ← or_abort (get_elem? r.chunks idx) Result.out_of_bounds
  by_state (absent_case idx) c.state (count_fault was_minor r, p)

-- `handle_fault` with `async_handler` set.
unfoldable pub handle_fault : Kernel → ℕ → Bool → Region × Pool → Result (Region × Pool)
unfolding handle_fault_by handle_absent_dispatch
handle_fault k = handle_fault_by (handle_absent_dispatch k)

-- Whether the watchdog reclaims the chunk: in flight for the timeout, with nobody who holds its lock.
abbrev pub is_orphan : ℕ → ℕ → Bool → Chunk → Bool
is_orphan now timeout_ns locked c =
    is_fetching c.state
    && (not (c.fetching_since_ns == 0)
        && (leb timeout_ns (sub64 now c.fetching_since_ns) && not locked))

abbrev pub timeout_ns : Region → ℕ
timeout_ns r = (if r.fetching_timeout_ms == 0 then 30000 else r.fetching_timeout_ms) * 1000000

abbrev pub count_timeout : Region → Region
count_timeout r = record r {
  stats = record (r.stats) { fetching_timeout = add64 r.stats.fetching_timeout 1 };
}

-- The loop of `pager_fetching_watchdog` over the chunks from `i` on; `locked` tells whose trylock fails.
unfoldable pub watchdog_from : ℕ → (ℕ → Bool) → List Chunk → ℕ → Region → Region
unfolding abandon_fetch
watchdog_from now locked [] i r = r
watchdog_from now locked (c ∷ cs) i r =
    watchdog_from now locked cs (i + 1)
      (if is_orphan now (timeout_ns r) (locked i) c then count_timeout (abandon_fetch r i) else r)

unfoldable pub fetching_watchdog : Kernel → (ℕ → Bool) → Region → Region
unfolding watchdog_from
fetching_watchdog k locked r = watchdog_from (k.clock r.clock_reads) locked r.chunks 0 (tick r)

-- `pager_notify_access`
unfoldable pub notify_access : Region → ℕ → Region
unfolding prefetch_retain_release
notify_access r idx =
    let r' = record r {
      policy = elim r.policy [ none ↦ none | some policy ↦ some (on_access policy idx) ];
    } in
    if r.prefetch_retention_pinned then prefetch_retain_release r' idx else r'
