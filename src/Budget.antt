-- ===== src/Budget.antt =====
-- The budget: `reconcile`, eviction, reservation and commitment, src/budget.c. Each function runs in
-- one critical section of `budget_lock`. The diagnostic `record_policy_trace` is left out.
pub mod Accounts
pub mod Rounds
pub mod Frame
pub mod Steps
pub mod Breaks
pub mod Retains
pub mod Ensure
pub mod Admit
use residctl.Prelude.{
  ℕ, zero, suc, ◌+◌, ◌≤◌, Bool, true, false, not, ◌&&◌, List, [], ◌∷◌, Option, none, some, ltb, leb,
  ◌==◌, if◌then◌else◌, add64, sub64, get_elem?, set, length,
}
use residctl.Result.{Result, ok, abort, ◌>>=◌, ◌>>◌, guard, or_abort}
use residctl.Result
use residctl.State.{Chunk, ChunkState, Region, Stats, Policy}
use residctl.Kernel.{Kernel}
use residctl.Table.{page}
use residctl.Policy.Scan.{is_resident}
use residctl.Policy.{choose_victim, next_use_distance}
use residctl.Retain.{unpin_at, pin_at, prefetch_retain_release, pin_break_select_victim}

-- r->n_chunks > 0 ? r->chunks[0].len : RESIDCTL_ALIGN
abbrev pub slack : List Chunk → ℕ
slack [] = page
slack (c ∷ cs) = c.len

-- The value read must lie within one chunk of [resident, resident + reserved].
unfoldable pub reconcile : Kernel → Region → Result Region
reconcile k r = do
  shmem ← or_abort (k.shmem r.stat_reads) Result.stat_unreadable
  let threshold = slack r.chunks
  let lower = add64 r.resident_bytes r.known_overhead_bytes
  let upper = add64 lower r.reserved_bytes
  guard (not (ltb (add64 shmem threshold) lower)) Result.shmem_below
  guard (not (ltb (add64 upper threshold) shmem)) Result.shmem_above
  ok (record r { stat_reads = r.stat_reads + 1 })

-- What `evict_chunk` does once the hole is punched.
abbrev pub evicted : Region → ℕ → Chunk → Region
evicted r idx c = record r {
  chunks = set r.chunks idx (record c { state = ChunkState.absent });
  resident_bytes = sub64 r.resident_bytes c.len;
  stats = record (r.stats) {
    evictions = add64 r.stats.evictions 1;
    bytes_punched = add64 r.stats.bytes_punched c.len;
  };
  punches = r.punches + 1;
}

unfoldable pub evict_chunk : Kernel → Region → ℕ → Result Region
evict_chunk k r idx = do
  c ← or_abort (get_elem? r.chunks idx) Result.out_of_bounds
  guard (is_resident c.state) Result.evict_not_resident
  guard (c.pin == 0) Result.evict_pinned
  guard (k.punch r.punches) Result.punch_failed
  ok (evicted r idx c)

-- Reconciles on the A-3 schedule: at once if the interval is at most 1, else every so many fetches.
unfoldable pub scheduled_reconcile : Kernel → Region → Result Region
unfolding reconcile
scheduled_reconcile k r =
    let fetches = add64 r.fetches_since_reconcile 1 in
    let counted = record r { fetches_since_reconcile = fetches } in
    let due : Result Region = do
      r' ← reconcile k counted
      ok (record r' { fetches_since_reconcile = 0 })
    in if (if leb r.reconcile_interval 1 then true else leb r.reconcile_interval fetches)
      then due
      else ok counted

-- An eviction, the check that follows every one, and the reset of the schedule.
unfoldable pub evict_and_reconcile : Kernel → Region → ℕ → Result Region
unfolding evict_chunk reconcile
evict_and_reconcile k r idx = do
  r₁ ← evict_chunk k r idx
  r₂ ← reconcile k r₁
  ok (record r₂ { fetches_since_reconcile = 0 })

-- r->resident_bytes + r->reserved_bytes + need > r->budget_bytes
abbrev pub over : Region → ℕ → Bool
over r need = ltb r.budget_bytes (add64 (add64 r.resident_bytes r.reserved_bytes) need)

abbrev pub reserve : Region → ℕ → Region
reserve r need = record r { reserved_bytes = add64 r.reserved_bytes need }

abbrev pub count_infeasible : Region → Region
count_infeasible r = record r {
  stats = record (r.stats) { infeasible = add64 r.stats.infeasible 1 };
}

abbrev pub count_declined : Region → Region
count_declined r = record r {
  stats = record (r.stats) { prefetch_declined = add64 r.stats.prefetch_declined 1 };
}

-- `prefetch_retain_release` of the victim, and its count.
unfoldable pub break_pin : Region → ℕ → Region
break_pin r idx =
    let r' = prefetch_retain_release r idx in
    record r' { stats = record (r'.stats) { pin_broken = add64 r'.stats.pin_broken 1 } }

-- The victim of one round: the policy's, or a pinned prefetch target whose pin is broken.
pub data Round : Type 0 where
  evicts : ℕ → Round
  breaks : ℕ → Round
  stuck : Round

unfoldable pub demand_round : Region → Round
unfolding choose_victim pin_break_select_victim
demand_round r = elim (choose_victim r.modes r.policy r.chunks) [
  | some victim ↦ evicts victim
  | none ↦
      if r.prefetch_retention_pinned
      then (elim (pin_break_select_victim r) [ some victim ↦ breaks victim | none ↦ stuck ])
      else stuck
]

-- The loop of `ensure_budget`, with fuel: 0 is returned as true and -1 as false.
unfoldable pub ensure_loop : Kernel → ℕ → ℕ → Region → Result (Bool × Region)
unfolding evict_and_reconcile break_pin demand_round
ensure_loop k need zero r = abort Result.out_of_fuel
ensure_loop k need (suc fuel) r =
    let again : Result (Bool × Region) = elim (demand_round r) [
      | evicts victim ↦ evict_and_reconcile k r victim >>= ensure_loop k need fuel
      | breaks victim ↦
          evict_and_reconcile k (break_pin r victim) victim >>= ensure_loop k need fuel
      | stuck ↦ ok (false, count_infeasible r)
    ] in
    if over r need then again else ok (true, reserve r need)

-- `ensure_budget`. Each round evicts a resident chunk, so the fuel is one more than the chunks.
unfoldable pub ensure_budget : Kernel → Region → ℕ → Result (Bool × Region)
unfolding scheduled_reconcile ensure_loop
ensure_budget k r need = do
  r' ← scheduled_reconcile k r
  ensure_loop k need (suc (length r'.chunks)) r'

-- The guard of `ensure_budget_prefetch`: the victim is not needed strictly later than the target.
abbrev pub declines : Region → ℕ → ℕ → Bool
declines r victim target = elim r.policy [
  | none ↦ false
  | some p ↦
      not r.prefetch_admission_always
      && not (ltb (next_use_distance r.modes p target) (next_use_distance r.modes p victim))
]

unfoldable pub prefetch_loop : Kernel → ℕ → ℕ → ℕ → Region → Result (Bool × Region)
unfolding evict_and_reconcile choose_victim
prefetch_loop k target need zero r = abort Result.out_of_fuel
prefetch_loop k target need (suc fuel) r =
    let again : Result (Bool × Region) = elim (choose_victim r.modes r.policy r.chunks) [
      | none ↦ ok (false, count_infeasible r)
      | some victim ↦
          let evict : Result (Bool × Region) =
            evict_and_reconcile k r victim >>= prefetch_loop k target need fuel in
          if declines r victim target then ok (false, count_declined r) else evict
    ] in
    if over r need then again else ok (true, reserve r need)

unfoldable pub ensure_budget_prefetch : Kernel → Region → ℕ → Result (Bool × Region)
unfolding scheduled_reconcile prefetch_loop
ensure_budget_prefetch k r target = do
  r' ← scheduled_reconcile k r
  c ← or_abort (get_elem? r'.chunks target) Result.out_of_bounds
  prefetch_loop k target c.len (suc (length r'.chunks)) r'

unfoldable pub commit_reserved : Region → ℕ → Region
commit_reserved r len = record r {
  reserved_bytes = sub64 r.reserved_bytes len;
  resident_bytes = add64 r.resident_bytes len;
}

unfoldable pub pin_chunk : Region → ℕ → Region
unfolding pin_at
pin_chunk r idx = record r { chunks = pin_at r.chunks idx }

unfoldable pub unpin_chunk : Region → ℕ → Region
unfolding unpin_at
unpin_chunk r idx = record r { chunks = unpin_at r.chunks idx }

unfoldable pub commit_reserved_and_pin : Region → ℕ → ℕ → Region
unfolding commit_reserved pin_chunk
commit_reserved_and_pin r idx len = pin_chunk (commit_reserved r len) idx
