-- ===== src/Pool.antt =====
-- The shared fetch pool, src/prefetch_pool.c: its demand queue, its prefetch queue, and what a completed
-- fetch adds to the latter. Threads, and the signals that wake them, are left out.
pub mod Fifo
pub mod TopUp
use residctl.Prelude.{
  ℕ, zero, suc, ◌+◌, ◌%◌, Bool, true, false, not, ◌&&◌, List, [], ◌∷◌, Option, none, some, ltb, leb,
  ◌==◌, if◌then◌else◌, add32, sub32, add64, get_elem?, get_or, set, length, replicate,
}
use residctl.Result.{Result, ok, abort, ◌>>=◌, ◌>>◌, guard}
use residctl.Result
use residctl.State.{Chunk, ChunkState, Region, PinnedQueue, Policy}
use residctl.Kernel.{Kernel}
use residctl.Policy.{predict_next}
use residctl.Retain.{slot, drop_oldest, append_entry}

-- `struct prefetch_pool`; each queue is its array, capacity, head and length.
pub record Pool : Type 0 where
  pub depth : ℕ
  pub n_workers : ℕ
  pub demand : PinnedQueue
  pub prefetch : PinnedQueue
  pub outstanding : ℕ
  pub tracked : List Bool

abbrev pub empty_queue : ℕ → PinnedQueue
empty_queue cap = record { buf = replicate cap 0; cap = cap; head = 0; len = 0 }

-- `prefetch_pool_start`
unfoldable pub start : Region → ℕ → Pool
start r n_workers = record {
  depth = r.prefetch_depth;
  n_workers = if ltb 0 n_workers then n_workers else 1;
  demand = empty_queue (add32 (length r.chunks) 1);
  prefetch = empty_queue (add32 (length r.chunks) 1);
  outstanding = 0;
  tracked = replicate (length r.chunks) false;
}

-- `prefetch_pool_enqueue_demand`
unfoldable pub enqueue_demand : Pool → ℕ → Result Pool
unfolding append_entry
enqueue_demand p idx = do
  guard (not (leb p.demand.cap p.demand.len)) Result.demand_queue_full
  ok (record p { demand = append_entry p.demand idx })

pub data Job : Type 0 where
  demand_job : ℕ → Job
  prefetch_job : ℕ → Job

-- What `worker_main` takes when it holds the lock: a demand if there is one.
unfoldable pub take_job : Pool → Option (Job × Pool)
unfolding drop_oldest
take_job p =
    if ltb 0 p.demand.len
    then some (
      demand_job (get_or p.demand.buf p.demand.head 0),
      record p { demand = drop_oldest p.demand },
    )
    else if ltb 0 p.prefetch.len
    then some (
      prefetch_job (get_or p.prefetch.buf p.prefetch.head 0),
      record p { prefetch = drop_oldest p.prefetch },
    )
    else none

-- What `worker_main` does after a prefetch.
unfoldable pub finish_prefetch : Pool → ℕ → Pool
finish_prefetch p idx = record p {
  outstanding = sub32 p.outstanding 1;
  tracked = set p.tracked idx false;
}

abbrev pub is_absent : ChunkState → Bool
is_absent ChunkState.absent = true
is_absent _ = false

-- Whether a predicted chunk is put into the queue: not tracked, absent, not backing off, and room is left.
abbrev pub wanted : Pool → ℕ → Chunk → ℕ → Bool
wanted p idx c now =
    not (get_or p.tracked idx false)
    && (is_absent c.state
        && (not (ltb now c.decline_until_ns) && ltb p.prefetch.len p.prefetch.cap))

unfoldable pub enqueue_prefetch : Pool → ℕ → Pool
unfolding append_entry
enqueue_prefetch p idx = record p {
  tracked = set p.tracked idx true;
  prefetch = append_entry p.prefetch idx;
  outstanding = add32 p.outstanding 1;
}

-- The loop of `prefetch_pool_top_up`, with the rounds left: the cursor goes along the predictions. Each
-- round reads the clock.
unfoldable pub top_up_loop : Kernel → Policy → ℕ → ℕ → ℕ → Region × Pool → Region × Pool
top_up_loop k policy just zero cursor w = w
top_up_loop k policy just (suc left) cursor (r, p) = elim (predict_next policy cursor) [
  | none ↦ (r, p)
  | some idx ↦ elim (get_elem? r.chunks idx) [
    | none ↦ (r, p)
    | some c ↦
        let r' = record r { clock_reads = r.clock_reads + 1 } in
        let p' = if wanted p idx c (k.clock r.clock_reads) then enqueue_prefetch p idx else p in
        let rest = top_up_loop k policy just left idx (r', p') in
        if idx == just then (r, p) else rest
  ]
]

-- `prefetch_pool_top_up`, for a pool that is there.
unfoldable pub top_up : Kernel → ℕ → Region × Pool → Region × Pool
top_up k just (r, p) = elim r.policy [
  | none ↦ (r, p)
  | some policy ↦
      let need = if ltb p.outstanding p.depth then sub32 p.depth p.outstanding else 0 in
      top_up_loop k policy just need just (r, p)
]
