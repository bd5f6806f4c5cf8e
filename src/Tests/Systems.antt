-- ===== src/Tests/Systems.antt =====
-- The system from the start of a region to a fetch, and the theorems applied there.
use residctl.Prelude.{
  ◌⊎◌, ℕ, ◌+◌, ◌≤◌, ◌≡◌, ◌≢◌, refl, inl, true, false, List, [], ◌∷◌, none, some, arith, get_elem?,
}
use residctl.Result.{Result, abort}
use residctl.State.{Chunk, ChunkState, Region, PinnedQueue}
use residctl.Result
use residctl.Table.{fresh_chunk}
use residctl.Retain.{entries}
use residctl.Budget.{ensure_budget, scheduled_reconcile, ensure_loop, demand_round, evicts, breaks}
use residctl.System.Safety.{Reach-accounts, Reach-exclusive, Reach-demand}
use residctl.System.Progress.{Reach-progress}
use residctl.System.Turns.{Proceeds, Waits}
use residctl.Pager.{fetching_watchdog}
use residctl.Pager.Orphan.{watchdog-do_one_demand}
use residctl.Startup.{RegionConfig}
use residctl.Worker.{do_one_demand, is_fetching}
use residctl.Budget.Accounts.{NotIn, resident_sum}
use residctl.System.Owners.{Holds}
use residctl.Fetch.Reads.{IsPread}
use residctl.Pool.{Pool, start, enqueue_demand, take_job, demand_job}
use residctl.Pager.{handle_fault, handle_fault_by, handle_absent_dispatch}
use residctl.Lookup.{pager_lookup, search_from}
use residctl.Retain.{append_entry, drop_oldest}
use residctl.System.{Pc, idle, asking, granted, System, Step, Reach}
use residctl.System.Invariant.{IsSystem, promised}
use residctl.System.Reaching.{IsStarted, len_at, Reach-IsSystem}
use residctl.Tests.Data.{two_chunks, settings, no_stats, calm}

abbrev pub booted : Region
booted = record {
  settings = record settings { region_len = 10000; budget_bytes = 12288; reconcile_interval = 16 };
  chunks = two_chunks;
  resident_bytes = 0;
  reserved_bytes = 0;
  fault_seq = 0;
  fetches_since_reconcile = 0;
  policy = none;
  pinned = record { buf = 0 ∷ []; cap = 1; head = 0; len = 0 };
  stats = no_stats;
  stat_reads = 0;
  punches = 0;
  clock_reads = 0;
  preads = 0;
  continues = 0;
}

pub booted-IsStarted : IsStarted booted
booted-IsStarted = record {
  tiled = (refl, refl, omega arith, (refl, refl, omega arith, refl));
  fresh = (refl, refl, (refl, refl, tt));
  count = omega arith;
  len = omega arith;
  budget = omega arith;
  resident = refl;
  reserved = refl;
  ring = record {
    storage = omega arith;
    some_room = omega arith;
    small = omega arith;
    head_in = omega arith;
    len_in = omega arith;
  };
  unpinned = refl;
  file = inl refl;
}

pub calm-IsPread : IsPread calm
calm-IsPread i want n e = ground arith

-- A fault on the second chunk puts it in flight, and a demand into the queue.
abbrev flying : Chunk
flying = record (fresh_chunk 8192 8192 1808 1) {
  state = ChunkState.fetching;
  last_fault_seq = 1;
  diag_dispatch_enqueue_ns = 1;
}

abbrev faulted : Region
faulted = record booted {
  chunks = fresh_chunk 0 0 8192 0 ∷ flying ∷ [];
  fault_seq = 1;
  clock_reads = 2;
  stats = record no_stats { fault_missing = 1 };
}

abbrev queue_of : List ℕ → ℕ → ℕ → PinnedQueue
queue_of buf head len = record { buf = buf; cap = 3; head = head; len = len }

abbrev waiting : Pool
waiting = record {
  depth = 1;
  n_workers = 2;
  demand = queue_of (1 ∷ 0 ∷ 0 ∷ []) 0 1;
  prefetch = queue_of (0 ∷ 0 ∷ 0 ∷ []) 0 0;
  outstanding = 0;
  tracked = false ∷ false ∷ [];
}

abbrev queued : System
queued = record { region = faulted; pool = waiting; workers = idle ∷ idle ∷ [] }

queued-Reach : Reach calm booted queued
unfolding handle_fault handle_fault_by handle_absent_dispatch pager_lookup search_from start
    enqueue_demand append_entry
queued-Reach = Reach.later Reach.here (Step.fault 9000 false faulted waiting refl)

-- A worker takes the demand, its bytes are reserved, and the chunk is fetched.
abbrev taken : Pool
taken = record waiting { demand = queue_of (1 ∷ 0 ∷ 0 ∷ []) 1 0 }

abbrev busy : System
busy = record { region = faulted; pool = taken; workers = asking 1 200 ∷ idle ∷ [] }

busy-Reach : Reach calm booted busy
unfolding take_job drop_oldest
busy-Reach = Reach.later queued-Reach (Step.take 0 1 taken refl refl)

abbrev reserved : Region
reserved = record faulted { reserved_bytes = 1808; fetches_since_reconcile = 1 }

abbrev fetching : System
fetching = record { region = reserved; pool = taken; workers = granted 1 ∷ idle ∷ [] }

fetching-Reach : Reach calm booted fetching
unfolding ensure_budget scheduled_reconcile ensure_loop
fetching-Reach = Reach.later busy-Reach (Step.grant 0 1 200 flying reserved refl refl refl)

Reach-IsSystem_example : IsSystem (len_at two_chunks) (booted.settings) fetching
Reach-IsSystem_example =
    Reach-IsSystem calm booted fetching calm-IsPread booted-IsStarted fetching-Reach

Reach-accounts_example :
    (1808 ≡ promised (len_at two_chunks) (granted 1 ∷ idle ∷ []))
    × (0 ≡ resident_sum reserved.chunks)
    × (0 + 1808 ≤ 12288)
Reach-accounts_example =
    Reach-accounts calm booted fetching calm-IsPread booted-IsStarted fetching-Reach

Reach-exclusive_example :
    ((x : ℕ) (qc : Pc) → Holds (granted 1 ∷ idle ∷ []) x qc 1 → x ≡ 0)
    × NotIn 1 (entries taken.demand)
    × (demand_round reserved ≢ evicts 1)
    × (demand_round reserved ≢ breaks 1)
Reach-exclusive_example =
    Reach-exclusive calm booted fetching calm-IsPread booted-IsStarted fetching-Reach 0 1
      (granted 1) (refl, refl)

waiting-take : take_job waiting ≡ some (demand_job 1, taken)
unfolding take_job drop_oldest
waiting-take = refl

Reach-demand_example :
    ((c : Chunk) × (get_elem? faulted.chunks 1 ≡ some c)
      × (is_fetching c.state ≡ true)
      × (c.pin ≡ 0))
    × ((w : ℕ) (pc : Pc) → Holds (idle ∷ idle ∷ []) w pc 1 → ⊥)
    × NotIn 1 (entries taken.demand)
Reach-demand_example =
    Reach-demand calm booted queued calm-IsPread booted-IsStarted queued-Reach 1 taken waiting-take

Reach-progress_example : Proceeds calm fetching 0 (granted 1) ⊎ Waits calm fetching (granted 1)
Reach-progress_example =
    Reach-progress calm booted fetching calm-IsPread booted-IsStarted fetching-Reach 0 (granted 1)
      refl (λ e. ground (arith, e))

-- The demand for chunk 1 waits when the clock stands at 31 s.
abbrev late : Region
late = record faulted {
  chunks = fresh_chunk 0 0 8192 0 ∷ record flying { fetching_since_ns = 5 } ∷ [];
  clock_reads = 31000000000;
}

watchdog-do_one_demand_example :
    do_one_demand calm (λ n r. r) 1 (fetching_watchdog calm (λ i. false) late, taken)
    ≡ abort Result.not_fetching
watchdog-do_one_demand_example =
    watchdog-do_one_demand calm (λ i. false) (λ n r. r) late taken 1
      (record flying { fetching_since_ns = 5 }) refl refl (λ e. ground (arith, e)) (omega arith)
      refl

abbrev config : RegionConfig
config = record {
  region_len = 10000;
  chunk_size = 5000;
  budget_bytes = 12288;
  reconcile_interval = 0;
  prefetch_depth = 2;
  sync_handler = false;
  fetch_workers = 2;
  prefetch_admission_always = false;
  prefetch_retention_none = false;
  explicit_chunks = [];
  fetching_timeout_ms = 0;
  has_model_path = true;
  has_cgroup_path = true;
}
