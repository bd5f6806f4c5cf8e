-- ===== src/Tests/Faults.antt =====
-- The fault handler and the watchdog at concrete inputs, src/pager.c.
use residctl.Prelude.{
  arith, true, ◌<◌, ◌⊎◌, sub64, ◌≤◌, ◌≢◌, ◌≡◌, refl, false, some, get_elem?, set,
}
use residctl.State.{Chunk, ChunkState, Region}
use residctl.Pager.{fetching_watchdog}
use residctl.Pager.Watchdog.{fetching_watchdog_reclaims}
use residctl.Tests.Data.{crowded, calm, in_state, mixed}

abbrev stuck_chunk : Chunk
stuck_chunk = record (in_state ChunkState.fetching 12288 0 10) { fetching_since_ns = 5 }

-- Chunk 3 is in flight since 5 ns; the clock stands at 31 s.
abbrev orphaned : Region
orphaned = record crowded { chunks = set mixed 3 stuck_chunk; clock_reads = 31000000000 }

fetching_watchdog_reclaims_example :
    let after = get_elem? (fetching_watchdog calm (λ i. false) orphaned).chunks 3 in
    (stuck_chunk.state ≡ ChunkState.fetching
      → stuck_chunk.fetching_since_ns ≢ 0
      → 30000000000 ≤ sub64 31000000000 5
      → false ≡ false
      → after ≡ some (record stuck_chunk { state = ChunkState.absent; fetching_since_ns = 0 }))
    × ((stuck_chunk.state ≢ ChunkState.fetching)
          ⊎ ((stuck_chunk.fetching_since_ns ≡ 0)
              ⊎ ((sub64 31000000000 5 < 30000000000) ⊎ (false ≡ true)))
        → after ≡ some stuck_chunk)
fetching_watchdog_reclaims_example =
    fetching_watchdog_reclaims calm (λ i. false) orphaned 3 stuck_chunk 30000000000 refl
      (λ unset. omega arith, λ given. absurd (given refl))
