-- ===== src/Startup.antt =====
-- The start of a region, src/region.c: the steps of `region_startup` that build the chunk table and the
-- budget. The system calls of steps 1 to 7 are an argument: the size of the model file, or what they abort for.
pub mod Sound
use residctl.Prelude.{
  ℕ, Bool, true, false, not, ◌||◌, List, [], ◌∷◌, Option, none, ltb, ◌==◌, if◌then◌else◌, length,
  replicate,
}
use residctl.Result.{Result, ok, abort, ◌>>=◌, ◌>>◌, guard}
use residctl.Result
use residctl.State.{Chunk, Region, Settings, Stats, Modes, Policy, PinnedQueue}
use residctl.Table.{ChunkSpec, is_empty, build_chunk_table, build_chunk_table_explicit}

-- `region_config_t`; of its two paths only whether they are given.
pub record RegionConfig : Type 0 where
  pub region_len : ℕ
  pub chunk_size : ℕ
  pub budget_bytes : ℕ
  pub reconcile_interval : ℕ
  pub prefetch_depth : ℕ
  pub sync_handler : Bool
  pub fetch_workers : ℕ
  pub prefetch_admission_always : Bool
  pub prefetch_retention_none : Bool
  pub explicit_chunks : List ChunkSpec
  pub fetching_timeout_ms : ℕ
  pub has_model_path : Bool
  pub has_cgroup_path : Bool

-- cfg->x ? cfg->x : other
abbrev pub or_default : ℕ → ℕ → ℕ
or_default x other = if x == 0 then other else x

abbrev pub no_stats : Stats
no_stats = record {
  fault_missing = 0;
  fault_minor = 0;
  dedup_resident = 0;
  dedup_fetching = 0;
  absent_handled = 0;
  evictions = 0;
  bytes_punched = 0;
  infeasible = 0;
  prefetches = 0;
  prefetch_infeasible = 0;
  prefetch_declined = 0;
  bytes_fetched = 0;
  pin_broken = 0;
  fetching_timeout = 0;
}

abbrev pub settings_of : RegionConfig → Modes → ℕ → Settings
settings_of cfg modes file_size = record {
  region_len = cfg.region_len;
  budget_bytes = cfg.budget_bytes;
  known_overhead_bytes = 0;
  prefetch_enabled = false;
  reconcile_interval = or_default cfg.reconcile_interval 16;
  prefetch_depth = or_default cfg.prefetch_depth 1;
  async_handler = not cfg.sync_handler;
  fetch_workers = or_default cfg.fetch_workers 4;
  prefetch_admission_always = cfg.prefetch_admission_always;
  prefetch_retention_pinned = not cfg.prefetch_retention_none;
  fetching_timeout_ms = or_default cfg.fetching_timeout_ms 30000;
  model_file_size = file_size;
  modes = modes;
}

-- `compute_budget`, over the zeros of `region_startup`'s memset.
unfoldable pub compute_budget : RegionConfig → Modes → ℕ → List Chunk → Result Region
compute_budget cfg modes file_size chunks = do
  guard (not (cfg.budget_bytes == 0)) Result.no_budget
  let settings = settings_of cfg modes file_size
  let cap = if ltb 0 settings.prefetch_depth then settings.prefetch_depth else 1
  ok (record {
    settings = settings;
    chunks = chunks;
    resident_bytes = 0;
    reserved_bytes = 0;
    fault_seq = 0;
    fetches_since_reconcile = 0;
    policy = none;
    pinned = record { buf = replicate cap 0; cap = cap; head = 0; len = 0 };
    stats = no_stats;
    stat_reads = 0;
    punches = 0;
    clock_reads = 0;
    preads = 0;
    continues = 0;
  })

unfoldable pub build_table : RegionConfig → Result (List Chunk)
unfolding build_chunk_table build_chunk_table_explicit
build_table cfg =
    if is_empty cfg.explicit_chunks
    then build_chunk_table cfg.region_len cfg.chunk_size
    else build_chunk_table_explicit cfg.region_len cfg.explicit_chunks

-- `region_startup`; `set_up` is the outcome of steps 1 to 7.
unfoldable pub region_startup : RegionConfig → Modes → Result ℕ → Result Region
unfolding build_table compute_budget
region_startup cfg modes set_up = do
  guard (not (cfg.region_len == 0)) Result.no_region
  guard (not (not cfg.has_model_path || not cfg.has_cgroup_path)) Result.no_paths
  file_size ← set_up
  chunks ← build_table cfg
  compute_budget cfg modes file_size chunks
