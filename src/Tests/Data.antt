-- ===== src/Tests/Data.antt =====
-- The tables, regions and kernel answers that the tests run on.
use residctl.Prelude.{ℕ, ◌+◌, true, false, List, [], ◌∷◌, some, none}
use residctl.State.{Chunk, ChunkState, declared, DeclaredState, Modes, Stats, Settings, Region}
use residctl.Table.{fresh_chunk}
use residctl.Kernel.{Kernel}

abbrev pub two_chunks : List Chunk
two_chunks = fresh_chunk 0 0 8192 0 ∷ fresh_chunk 8192 8192 1808 1 ∷ []

abbrev pub in_state : ChunkState → ℕ → ℕ → ℕ → Chunk
in_state state i pin seq = record (fresh_chunk (i + 0) (i + 0) 4096 i) {
  state = state;
  pin = pin;
  last_fault_seq = seq;
}

-- Chunk 1 is pinned, 3 is absent: 0 and 2 can be evicted.
abbrev pub mixed : List Chunk
mixed =
    in_state ChunkState.resident 0 0 7
    ∷ in_state ChunkState.resident 4096 1 3
    ∷ in_state ChunkState.resident 8192 0 5
    ∷ in_state ChunkState.absent 12288 0 9
    ∷ []

abbrev pub modes : Modes
modes = record { protect_current = false; signal_pre = false }

-- The sequence 2 0 2 1, with slot 1 consumed last.
abbrev pub looped : DeclaredState
looped = record {
  n_chunks = 4;
  seq = 2 ∷ 0 ∷ 2 ∷ 1 ∷ [];
  seq_len = 4;
  pos = some 1;
  next_in_seq = some 2 ∷ none ∷ some 0 ∷ none ∷ [];
}

abbrev pub no_stats : Stats
no_stats = record {
  fault_missing = 0;
  fault_minor = 0;
  dedup_resident = 0;
  dedup_fetching = 0;
  absent_handled = 0;
  evictions = 0;
  bytes_punched = 0;
  infeasible = 0;
  prefetches = 0;
  prefetch_infeasible = 0;
  prefetch_declined = 0;
  bytes_fetched = 0;
  pin_broken = 0;
  fetching_timeout = 0;
}

abbrev pub settings : Settings
settings = record {
  region_len = 16384;
  budget_bytes = 12288;
  known_overhead_bytes = 0;
  prefetch_enabled = true;
  reconcile_interval = 1;
  prefetch_depth = 1;
  async_handler = true;
  fetch_workers = 2;
  prefetch_admission_always = false;
  prefetch_retention_pinned = true;
  fetching_timeout_ms = 0;
  model_file_size = 0;
  modes = modes;
}

-- Three resident chunks fill the budget; the queue, wrapped round, holds chunk 1.
abbrev pub crowded : Region
crowded = record {
  settings = settings;
  chunks = mixed;
  resident_bytes = 12288;
  reserved_bytes = 0;
  fault_seq = 9;
  fetches_since_reconcile = 0;
  policy = some (declared looped);
  pinned = record { buf = 0 ∷ 1 ∷ []; cap = 2; head = 1; len = 1 };
  stats = no_stats;
  stat_reads = 0;
  punches = 0;
  clock_reads = 0;
  preads = 0;
  continues = 0;
}

-- A kernel whose memory.stat follows each of the evictions, and that refuses nothing.
abbrev pub calm : Kernel
calm = record {
  shmem = λ n. some 8192;
  punch = λ n. true;
  clock = λ n. n;
  pread = λ n want. some want;
  continue = λ n. some 4096;
}
