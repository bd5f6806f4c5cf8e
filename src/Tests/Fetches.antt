-- ===== src/Tests/Fetches.antt =====
-- Fetches and the pool at concrete inputs, src/fetch.c and src/prefetch_pool.c.
use residctl.Prelude.{◌≡◌, refl, inl, true, false, [], ◌∷◌, arith, set}
use residctl.Result.{ok}
use residctl.State.{Chunk, ChunkState, Region}
use residctl.Fetch.{fetch_chunk, read_up_to, fetch_read, fetch_resolve}
use residctl.Fetch.Reads.{IsPread, IsInFile, Fetched, fetch_chunk-Fetched}
use residctl.Pool.{Pool, enqueue_demand, take_job}
use residctl.Pool.Fifo.{IsPool, Enqueued, Taken, enqueue_demand-Enqueued, take_job-Taken}
use residctl.Worker.{do_one_demand}
use residctl.Worker.Demand.{AreConsiderate}
use residctl.Worker.Settle.{Done}
use residctl.Worker.Landing.{do_one_demand-Done}
use residctl.Budget.Accounts.{Inv}
use residctl.Budget.Frame.{Frame-refl}
use residctl.Tests.Data.{crowded, calm, in_state, mixed}
use residctl.Prefetch.{do_one_prefetch}
use residctl.Prefetch.Landing.{Prefetched, do_one_prefetch-Prefetched}
use residctl.Tests.Budgets.{crowded-IsRing, crowded-Inv}

-- Chunk 3 is in flight.
abbrev faulted : Region
faulted = record crowded { chunks = set mixed 3 (in_state ChunkState.fetching 12288 0 10) }

abbrev target : Chunk
target = in_state ChunkState.fetching 12288 0 10

calm-IsPread : IsPread calm
calm-IsPread i want n e = ground arith

target-IsInFile : IsInFile faulted target
target-IsInFile = record {
  identity = refl;
  small = omega arith;
  some_bytes = omega arith;
  starts_inside = inl refl;
}

faulted-Inv : Inv faulted
faulted-Inv = record {
  accounted = record { resident = refl; within = omega arith; small = omega arith };
  retained = record { ring = crowded-IsRing; held = ((_, refl, refl, refl), tt, tt) };
}

fetch_target :
    fetch_chunk calm faulted target
    ≡ ok (record { from = 12288; bytes = 4096 } ∷ [], record faulted { preads = 1; continues = 1 })
unfolding fetch_chunk fetch_read fetch_resolve read_up_to
fetch_target = refl

fetch_chunk-Fetched_example : Fetched faulted target (fetch_chunk calm faulted target)
fetch_chunk-Fetched_example = fetch_chunk-Fetched calm faulted target calm-IsPread target-IsInFile

alone : AreConsiderate (λ n r. r)
alone n r v = (v, Frame-refl r)

abbrev pool : Pool
pool = record {
  depth = 1;
  n_workers = 2;
  demand = record { buf = 3 ∷ 0 ∷ 0 ∷ []; cap = 3; head = 0; len = 1 };
  prefetch = record { buf = 2 ∷ 0 ∷ 0 ∷ []; cap = 3; head = 0; len = 1 };
  outstanding = 1;
  tracked = false ∷ false ∷ true ∷ false ∷ [];
}

pool-IsPool : IsPool pool
pool-IsPool = record {
  demand = record {
    storage = omega arith;
    some_room = omega arith;
    small = omega arith;
    head_in = omega arith;
    len_in = omega arith;
  };
  prefetch = record {
    storage = omega arith;
    some_room = omega arith;
    small = omega arith;
    head_in = omega arith;
    len_in = omega arith;
  };
}

do_one_demand-Done_example : Done 3 target (do_one_demand calm (λ n r. r) 3 (faulted, pool))
do_one_demand-Done_example =
    do_one_demand-Done calm (λ n r. r) faulted pool 3 target alone calm-IsPread refl refl
      (omega arith) target-IsInFile faulted-Inv

enqueue_demand-Enqueued_example : Enqueued pool 1 (enqueue_demand pool 1)
enqueue_demand-Enqueued_example = enqueue_demand-Enqueued pool 1 pool-IsPool

take_job-Taken_example : Taken pool (take_job pool)
take_job-Taken_example = take_job-Taken pool pool-IsPool

abbrev waiting_chunk : Chunk
waiting_chunk = in_state ChunkState.absent 12288 0 9

do_one_prefetch-Prefetched_example : Prefetched crowded 3 (do_one_prefetch calm 3 crowded)
do_one_prefetch-Prefetched_example =
    do_one_prefetch-Prefetched calm crowded 3 waiting_chunk refl refl refl (omega arith)
      calm-IsPread
      (record {
        identity = refl;
        small = omega arith;
        some_bytes = omega arith;
        starts_inside = inl refl;
      })
      crowded-Inv
