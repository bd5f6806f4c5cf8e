-- ===== src/System/Safety.antt =====
-- What never happens in a state that the system reaches: src/prefetch_pool.c, src/budget.c, src/pager.c.
use residctl.Prelude.{ℕ, ◌+◌, ◌≤◌, ◌≡◌, ◌≢◌, refl, inl, some, true, arith, get_elem?}
use residctl.State.{Chunk, Region}
use residctl.Kernel.{Kernel}
use residctl.Retain.{entries}
use residctl.Fetch.Reads.{IsPread}
use residctl.Budget.{evicts, breaks, demand_round}
use residctl.Budget.Accounts.{NotIn, resident_sum}
use residctl.Budget.Rounds.{RoundOk, demand_round-RoundOk, EvictableAt}
use residctl.Pool.{Pool, take_job, demand_job}
use residctl.Pool.Fifo.{take_job-Taken}
use residctl.Worker.{is_fetching}
use residctl.System.{Pc, System, Reach}
use residctl.System.Owners.{Holds, In-NotIn, Stands-evictable}
use residctl.System.Invariant.{IsSystem, promised}
use residctl.System.Sending.{NotIn-of_not}
use residctl.System.Reaching.{IsStarted, len_at, Reach-IsSystem}

module _ (k : Kernel) (r : Region) (s : System) (reads : IsPread k) (v : IsStarted r)
    (path : Reach k r s) where
  sound : IsSystem (len_at r.chunks) r.settings s
  sound = Reach-IsSystem k r s reads v path

  -- In every state that the system reaches from a started region by steps in which no pass of the
  -- watchdog finds an orphaned fetch, the reserved bytes are the lengths of
  -- the chunks that workers are fetching with a granted reservation, the resident bytes are those of the
  -- resident chunks, and both together fit the budget of the start.
  pub Reach-accounts :
      (s.region.reserved_bytes ≡ promised (len_at r.chunks) s.workers)
      × (s.region.resident_bytes ≡ resident_sum s.region.chunks)
      × (s.region.resident_bytes + s.region.reserved_bytes ≤ r.budget_bytes)
  Reach-accounts =
      let within = sound.inv.accounted.within in
      (sound.reserved, sound.inv.accounted.resident, rw sound.configured at within)

  -- In every state that the system reaches from a started region by steps in which no pass of the
  -- watchdog finds an orphaned fetch, a chunk that a worker holds is held by no
  -- other worker, waits in no demand queue, and is neither evicted by the next round of the budget nor does
  -- that round break its pin.
  pub Reach-exclusive :
      (w i : ℕ) (pc : Pc)
      → Holds s.workers w pc i
      → ((x : ℕ) (qc : Pc) → Holds s.workers x qc i → x ≡ w)
        × NotIn i (entries s.pool.demand)
        × (demand_round s.region ≢ evicts i)
        × (demand_round s.region ≢ breaks i)
  Reach-exclusive w i pc holds =
      let (c, got, st, out) = sound.owned.held w pc i holds in
      let next = demand_round-RoundOk s.region sound.inv.retained in
      (
        λ x qc other. sound.owned.apart x w qc pc i other holds,
        NotIn-of_not i (entries s.pool.demand) (λ inside. sound.owned.waiting i inside w pc holds),
        λ e.
            let (d, at_d, fit) : EvictableAt s.region.chunks i = rw e at next in
            let same : d ≡ c = ground arith in
            absurd (ground (arith, Stands-evictable pc c i holds.1 st, rw same at fit)),
        λ e.
            let (inside, _) : RoundOk s.region (breaks i) = rw e at next in
            absurd (In-NotIn i (entries s.region.pinned) inside out),
      )

  -- In every state that the system reaches from a started region by steps in which no pass of the
  -- watchdog finds an orphaned fetch, the demand that a worker takes is for a
  -- chunk in flight with no pin, and the worker takes it alone: the first guard of `do_one_demand` holds.
  pub Reach-demand :
      (idx : ℕ) (p : Pool)
      → take_job s.pool ≡ some (demand_job idx, p)
      → ((c : Chunk) × (get_elem? s.region.chunks idx ≡ some c)
          × (is_fetching c.state ≡ true)
          × (c.pin ≡ 0))
        × ((w : ℕ) (pc : Pc) → Holds s.workers w pc idx → ⊥)
        × NotIn idx (entries p.demand)
  Reach-demand idx p taken =
      let (_, front, _, _) = rw taken at (take_job-Taken s.pool sound.pool) in
      let o = rw front at sound.owned in
      let (c, here, fly, _) = o.queued idx (inl refl) in
      ((c, here, fly.0, fly.1), o.waiting idx (inl refl), o.distinct.0)
