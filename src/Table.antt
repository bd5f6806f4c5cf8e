-- ===== src/Table.antt =====
-- The chunk table: `build_chunk_table` and `build_chunk_table_explicit` of src/region.c.
-- Allocation and the initialisation of locks are taken to succeed.
pub mod Tiles
pub mod Uniform
pub mod Explicit
use residctl.Prelude.{
  ℕ, zero, suc, ◌+◌, ◌*◌, ◌/◌, ◌%◌, ◌^◌, Bool, true, false, not, ◌||◌, List, [], ◌∷◌, ltb, ◌==◌,
  if◌then◌else◌, add64, sub64, uint32_max, length,
}
use residctl.Result.{Result, ok, abort, ◌>>=◌, ◌>>◌, guard}
use residctl.Result
use residctl.State.{Chunk, ChunkState}

-- RESIDCTL_ALIGN
abbrev pub page : ℕ
page = 4096

-- A row of the table: what both builders fill in, over memory that `calloc` cleared.
abbrev pub fresh_chunk : ℕ → ℕ → ℕ → ℕ → Chunk
fresh_chunk file_off region_off len layer_id = record {
  file_off = file_off;
  region_off = region_off;
  len = len;
  layer_id = layer_id;
  state = ChunkState.absent;
  last_fault_seq = 0;
  pin = 0;
  diag_dispatch_entry_ns = 0;
  diag_dispatch_enqueue_ns = 0;
  fetching_since_ns = 0;
  decline_until_ns = 0;
}

-- The requested size, rounded up to a multiple of the page.
unfoldable pub round_size : ℕ → ℕ
round_size size = if size % page == 0 then size else (size / page + 1) * page % 2 ^ 64

-- Row `i` of the uniform table; the last one is cut at `region_len`.
unfoldable pub uniform_chunk : ℕ → ℕ → ℕ → Chunk
uniform_chunk region_len size i =
    let off = i * size % 2 ^ 64 in
    let len = if ltb region_len (add64 off size) then sub64 region_len off else size in
    fresh_chunk off off len (i % 2 ^ 32)

-- The rows `i`, `i + 1`, …, as many as are left.
unfoldable pub uniform_rows : ℕ → ℕ → ℕ → ℕ → List Chunk
uniform_rows region_len size zero i = []
uniform_rows region_len size (suc left) i =
    uniform_chunk region_len size i ∷ uniform_rows region_len size left (i + 1)

unfoldable pub chunk_count : ℕ → ℕ → ℕ
chunk_count region_len size = sub64 (add64 region_len size) 1 / size

unfoldable pub build_chunk_table : ℕ → ℕ → Result (List Chunk)
build_chunk_table region_len requested_chunk_size = do
  let size = round_size requested_chunk_size
  guard (not (size == 0)) Result.chunk_size_zero
  let n = chunk_count region_len size
  guard (not (n == 0 || ltb uint32_max n)) Result.chunk_count_out_of_range
  ok (uniform_rows region_len size n 0)

-- `residctl_chunk_spec_t`
pub record ChunkSpec : Type 0 where
  pub file_off : ℕ
  pub region_off : ℕ
  pub len : ℕ
  pub layer_id : ℕ

abbrev pub is_empty {ℓ} : {A : Type ℓ} → List A → Bool
is_empty [] = true
is_empty (x ∷ xs) = false

-- The checks of one spec, which is expected at `expect_off`.
unfoldable pub check_spec : ChunkSpec → ℕ → Bool → Result (Unit {0})
check_spec s expect_off last = do
  guard (s.region_off == expect_off) Result.spec_gap
  guard (s.file_off == s.region_off) Result.spec_not_identity
  guard (not (s.len == 0)) Result.spec_empty
  guard (s.region_off % page == 0) Result.spec_unaligned
  guard (last || s.len % page == 0) Result.spec_len_unaligned

-- The loop over the specs from `expect_off` on: the rows, and where they end.
unfoldable pub explicit_rows : List ChunkSpec → ℕ → Result (List Chunk × ℕ)
explicit_rows [] expect_off = ok ([], expect_off)
explicit_rows (s ∷ specs) expect_off = do
  check_spec s expect_off (is_empty specs)
  (rows, end_off) ← explicit_rows specs (add64 expect_off s.len)
  ok (fresh_chunk s.file_off s.region_off s.len s.layer_id ∷ rows, end_off)

-- `n` is the length of the array of specs.
unfoldable pub build_chunk_table_explicit : ℕ → List ChunkSpec → Result (List Chunk)
build_chunk_table_explicit region_len specs = do
  guard (not (length specs == 0 || ltb uint32_max (length specs))) Result.chunk_count_out_of_range
  (rows, end_off) ← explicit_rows specs 0
  guard (end_off == region_len) Result.spec_wrong_total
  ok rows
