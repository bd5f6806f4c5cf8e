-- ===== src/Tests/Syncs.antt =====
-- The synchronous handler at concrete inputs, src/pager.c and src/prefetch.c.
use residctl.Prelude.{ℕ, ◌+◌, add64, zero, suc, ◌≡◌, refl, inl, some, none, [], ◌∷◌, arith}
use residctl.State.{Chunk, ChunkState, Region, declared}
use residctl.Table.{fresh_chunk}
use residctl.Prefetch.{maybe_prefetch}
use residctl.Budget.Accounts.{Inv}
use residctl.System.Invariant.{small_chunk, in_file}
use residctl.System.Reaching.{initial-IsSystem}
use residctl.System.Prefetches.{absent_free}
use residctl.Sync.{handle_absent}
use residctl.Sync.Besides.{Spares}
use residctl.Sync.Inline.{maybe_prefetch-Spares}
use residctl.Sync.Landing.{Answered}
use residctl.Sync.Waits.{Fetchable, AreCalm}
use residctl.Sync.Answers.{handle_absent-Answered}
use residctl.Tests.Data.{calm, looped}
use residctl.Tests.Systems.{booted, booted-IsStarted, calm-IsPread}

booted-Fetchable : Fetchable booted
booted-Fetchable i c got =
    let v = initial-IsSystem booted booted-IsStarted in
    (small_chunk v i c got, in_file v i c got, λ away. (absent_free v i c got away).3)

-- While the handler sleeps, others count a fault and read the clock.
abbrev busy_others : ℕ → Region → Region
busy_others n r = record r { fault_seq = add64 r.fault_seq 1; clock_reads = r.clock_reads + 1 }

busy_others-AreCalm : AreCalm 1 busy_others
busy_others-AreCalm n r v = (
  record {
    accounted = record {
      resident = v.accounted.resident;
      within = v.accounted.within;
      small = v.accounted.small;
    };
    retained = record { ring = v.retained.ring; held = v.retained.held };
  },
  record {
    kept = λ c got flying out. (got, out);
    chunks = λ h i c got.
        let (small, inside, free) = h i c got in
        (
          small,
          record {
            identity = inside.identity;
            small = inside.small;
            some_bytes = inside.some_bytes;
            starts_inside = inside.starts_inside;
          },
          free,
        );
  },
)

handle_absent-Answered_example : Answered 1 (handle_absent calm busy_others 1 (booted, none))
handle_absent-Answered_example =
    handle_absent-Answered calm busy_others 1 booted none (fresh_chunk 8192 8192 1808 1)
      calm-IsPread busy_others-AreCalm refl refl booted-Fetchable
      (initial-IsSystem booted booted-IsStarted).inv

-- Chunk 0 was fetched and is pinned; the policy expects chunk 1.
abbrev fetched : Chunk
fetched = record (fresh_chunk 0 0 8192 0) { state = ChunkState.resident; pin = 1 }

abbrev served : Region
served = record booted {
  chunks = fetched ∷ fresh_chunk 8192 8192 1808 1 ∷ [];
  resident_bytes = 8192;
  policy = some (declared (record looped { n_chunks = 2; next_in_seq = some 1 ∷ none ∷ [] }));
}

served-Inv : Inv served
served-Inv = record {
  accounted = record { resident = refl; within = omega arith; small = omega arith };
  retained = record { ring = booted-IsStarted.ring; held = tt };
}

served-Fetchable : Fetchable served
served-Fetchable zero c got =
    let same : fetched ≡ c = ground arith in
    rw (← same) (
      omega arith,
      record {
        identity = refl;
        small = omega arith;
        some_bytes = omega arith;
        starts_inside = inl refl;
      },
      λ away. absurd (ground (arith, away)),
    )
served-Fetchable (suc i) c got =
    let (small, within, free) = booted-Fetchable (suc i) c got in
    (
      small,
      record {
        identity = within.identity;
        small = within.small;
        some_bytes = within.some_bytes;
        starts_inside = within.starts_inside;
      },
      free,
    )

maybe_prefetch-Spares_example : Spares 0 fetched served (maybe_prefetch calm 0 served)
maybe_prefetch-Spares_example =
    maybe_prefetch-Spares calm 0 fetched served calm-IsPread refl served-Fetchable
      (served-Inv, refl, tt)
