-- ===== src/State.antt =====
-- The shared state: src/region.h, with the policies' private state of src/policy.c. Locks are left out:
-- each function of the model is a critical section or a chain of them. An array is a list; a `chunk_t *`
-- is the chunk's index.
use residctl.Prelude.{ℕ, Bool, List, Option}

pub data ChunkState : Type 0 where
  absent fetching resident : ChunkState

-- `chunk_t`, without its mutex and condition variable.
pub record Chunk : Type 0 where
  pub file_off : ℕ
  pub region_off : ℕ
  pub len : ℕ
  pub layer_id : ℕ
  pub state : ChunkState
  pub last_fault_seq : ℕ
  pub pin : ℕ
  pub diag_dispatch_entry_ns : ℕ
  pub diag_dispatch_enqueue_ns : ℕ
  pub fetching_since_ns : ℕ
  pub decline_until_ns : ℕ

-- `lo_learned_state_t`. `none` is CHUNK_NONE.
pub record LearnedState : Type 0 where
  pub n_chunks : ℕ
  pub last_fetched : Option ℕ
  pub successor : List (Option ℕ)

-- `lo_declared_state_t`. `pos` is `none` for -1; `seq_len` is the length of `seq`.
pub record DeclaredState : Type 0 where
  pub n_chunks : ℕ
  pub seq : List ℕ
  pub seq_len : ℕ
  pub pos : Option ℕ
  pub next_in_seq : List (Option ℕ)

-- `struct policy`: the table of function pointers is the constructor, `state` its argument.
pub data Policy : Type 0 where
  lru : Policy
  learned : LearnedState → Policy
  declared : DeclaredState → Policy

-- The process-wide switches `g_lo_protect_current` and `g_lo_signal_pre`.
pub record Modes : Type 0 where
  pub protect_current : Bool
  pub signal_pre : Bool

-- The counters of `region_t`.
pub record Stats : Type 0 where
  pub fault_missing : ℕ
  pub fault_minor : ℕ
  pub dedup_resident : ℕ
  pub dedup_fetching : ℕ
  pub absent_handled : ℕ
  pub evictions : ℕ
  pub bytes_punched : ℕ
  pub infeasible : ℕ
  pub prefetches : ℕ
  pub prefetch_infeasible : ℕ
  pub prefetch_declined : ℕ
  pub bytes_fetched : ℕ
  pub pin_broken : ℕ
  pub fetching_timeout : ℕ

-- The fields of `region_t` that `region_startup` sets and nothing changes.
pub record Settings : Type 0 where
  pub region_len : ℕ
  pub budget_bytes : ℕ
  pub known_overhead_bytes : ℕ
  pub prefetch_enabled : Bool
  pub reconcile_interval : ℕ
  pub prefetch_depth : ℕ
  pub async_handler : Bool
  pub fetch_workers : ℕ
  pub prefetch_admission_always : Bool
  pub prefetch_retention_pinned : Bool
  pub fetching_timeout_ms : ℕ
  pub model_file_size : ℕ
  pub modes : Modes

-- `pinned_prefetch_queue` with its capacity, head and length.
pub record PinnedQueue : Type 0 where
  pub buf : List ℕ
  pub cap : ℕ
  pub head : ℕ
  pub len : ℕ

-- `region_t`. `stat_reads` and the fields after it count the calls of the kernel made so far:
-- they say which answer of the environment comes next.
pub record Region : Type 0 where
  pub settings : Settings
  pub open settings use *
  pub chunks : List Chunk
  pub resident_bytes : ℕ
  pub reserved_bytes : ℕ
  pub fault_seq : ℕ
  pub fetches_since_reconcile : ℕ
  pub policy : Option Policy
  pub pinned : PinnedQueue
  pub stats : Stats
  pub stat_reads : ℕ
  pub punches : ℕ
  pub clock_reads : ℕ
  pub preads : ℕ
  pub continues : ℕ
