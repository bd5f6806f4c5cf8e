-- ===== src/Pool/Fifo.antt =====
-- The pool's queues as lists: first in, first out, and demands before prefetches.
use residctl.Prelude.{
  ℕ, ◌<◌, ◌≡◌, refl, inl, inr, false, [], ◌∷◌, ◌++◌, Option, none, some, arith, ltb, leb, leb→le,
  ltb→lt, Bool-cases,
}
use residctl.Result.{Abort, Result, ok, abort}
use residctl.Result
use residctl.State.{PinnedQueue}
use residctl.Retain.{entries}
use residctl.Retain.Ring.{
  IsRing, entries-drop_oldest, entries-append_entry, drop_oldest-IsRing, append_entry-IsRing,
}
use residctl.Pool.{Pool, Job, demand_job, prefetch_job, enqueue_demand, take_job}

-- Both queues are sound.
pub record IsPool (p : Pool) : Type 0 where
  pub demand : IsRing p.demand
  pub prefetch : IsRing p.prefetch

abbrev pub Enqueued : Pool → ℕ → Result Pool → Type 0
Enqueued p idx (abort x) = (x ≡ Result.demand_queue_full) × (p.demand.len ≡ p.demand.cap)
Enqueued p idx (ok p') =
    IsPool p'
    × (entries p'.demand ≡ entries p.demand ++ (idx ∷ []))
    × (p'.prefetch ≡ p.prefetch)
    × (p'.demand.cap ≡ p.demand.cap)
    × (p.demand.len < p.demand.cap)

-- On sound queues `enqueue_demand` puts the chunk behind the demands that wait, and leaves the prefetch
-- queue and the demand queue's capacity alone;
-- it ends the process just if the queue is full.
pub enqueue_demand-Enqueued :
    (p : Pool) (idx : ℕ) → IsPool p → Enqueued p idx (enqueue_demand p idx)
unfolding enqueue_demand
enqueue_demand-Enqueued p idx v = elim (Bool-cases (leb p.demand.cap p.demand.len)) [
  | inl full ↦ rw full (refl, omega (arith, leb→le _ _ full, v.demand.len_in))
  | inr free ↦
      let room : p.demand.len < p.demand.cap = ground arith in
      rw free (
        record { demand = append_entry-IsRing p.demand idx v.demand room; prefetch = v.prefetch },
        entries-append_entry p.demand v.demand idx room,
        refl,
        refl,
        room,
      )
]

abbrev pub Taken : Pool → Option (Job × Pool) → Type 0
Taken p none = (entries p.demand ≡ []) × (entries p.prefetch ≡ [])
Taken p (some (demand_job idx, p')) =
    IsPool p'
    × (entries p.demand ≡ idx ∷ entries p'.demand)
    × (p'.prefetch ≡ p.prefetch)
    × (p'.demand.cap ≡ p.demand.cap)
Taken p (some (prefetch_job idx, p')) =
    IsPool p'
    × (entries p.demand ≡ [])
    × (entries p.prefetch ≡ idx ∷ entries p'.prefetch)
    × (p'.demand ≡ p.demand)

no_entries : (q : PinnedQueue) → ltb 0 q.len ≡ false → entries q ≡ []
no_entries q h = let none_left : q.len ≡ 0 = ground arith in rw none_left

-- On sound queues a worker takes the oldest demand; only if no demand waits, the oldest prefetch; and
-- nothing only if both queues are empty. What it leaves keeps its order, and the
-- other queue is as before, as is the demand queue's capacity.
pub take_job-Taken : (p : Pool) → IsPool p → Taken p (take_job p)
unfolding take_job
take_job-Taken p v = elim (Bool-cases (ltb 0 p.demand.len)) [
  | inl waits ↦
      let some_entry : 0 < p.demand.len = ltb→lt _ _ waits in
      rw waits (
        record { demand = drop_oldest-IsRing p.demand v.demand some_entry; prefetch = v.prefetch },
        entries-drop_oldest p.demand v.demand some_entry,
        refl,
        refl,
      )
  | inr idle ↦ elim (Bool-cases (ltb 0 p.prefetch.len)) [
    | inl waits ↦
        let some_entry : 0 < p.prefetch.len = ltb→lt _ _ waits in
        rw (idle, waits)
          (
            record {
              demand = v.demand;
              prefetch = drop_oldest-IsRing p.prefetch v.prefetch some_entry;
            },
            no_entries p.demand idle,
            entries-drop_oldest p.prefetch v.prefetch some_entry,
            refl,
          )
    | inr quiet ↦ rw (idle, quiet) (no_entries p.demand idle, no_entries p.prefetch quiet)
  ]
]
