-- ===== src/Tests.antt =====
-- Runs of the model at concrete inputs, and the theorems applied at them: here the chunk table and its
-- lookup, src/region.c and src/pager.c; the other parts below.
mod Data
mod Policies
mod Budgets
mod Fetches
mod Faults
mod Systems
mod Syncs
mod Traces
mod Replays
mod Optimum
use residctl.Prelude.{
  ℕ, ◌+◌, ◌*◌, ◌^◌, ◌≤◌, ◌<◌, ◌≡◌, refl, List, [], ◌∷◌, some, none, arith, length,
}
use residctl.Prelude.{uint32_max, ◌↔◌}
use residctl.Result.{ok, abort, Abort}
use residctl.Result
use residctl.State.{Chunk}
use residctl.Table.{
  ChunkSpec, build_chunk_table, build_chunk_table_explicit, round_size, chunk_count, uniform_rows,
  uniform_chunk, explicit_rows, check_spec,
}
use residctl.Table.Tiles.{Tiles, AllFresh}
use residctl.Table.Uniform.{Evenly, build_chunk_table_lem}
use residctl.Table.Explicit.{IsAccepted, total_len, build_chunk_table_explicit_iff}
use residctl.Lookup.{pager_lookup, search_from}
use residctl.Lookup.Covers.{Covers, pager_lookup_exact}
use residctl.Tests.Data.{two_chunks}

-- A requested size of 5000 is rounded up to two pages.
build_chunk_table_rounds : build_chunk_table 10000 5000 ≡ ok two_chunks
unfolding build_chunk_table round_size chunk_count uniform_rows uniform_chunk
build_chunk_table_rounds = refl

build_chunk_table_lem_example :
    (table : List Chunk) × (build_chunk_table 10000 5000 ≡ ok table)
    × Tiles 0 table 10000
    × AllFresh table
    × (10000 ≤ length table * round_size 5000)
    × (length table * round_size 5000 < 10000 + round_size 5000)
    × Evenly 10000 5000 (round_size 5000) table
unfolding round_size
build_chunk_table_lem_example =
    build_chunk_table_lem 10000 5000 (omega arith) (omega arith) (omega arith) (omega arith)
      (omega arith)

abbrev specs : List ChunkSpec
specs =
    record { file_off = 0; region_off = 0; len = 4096; layer_id = 0 }
    ∷ record { file_off = 4096; region_off = 4096; len = 100; layer_id = 1 }
    ∷ []

-- A gap between two specs ends the process.
explicit_gap :
    build_chunk_table_explicit 12288 (
      record { file_off = 0; region_off = 0; len = 4096; layer_id = 0 }
      ∷ record { file_off = 8192; region_off = 8192; len = 4096; layer_id = 1 }
      ∷ [])
    ≡ abort Result.spec_gap
unfolding build_chunk_table_explicit explicit_rows check_spec
explicit_gap = refl

build_chunk_table_explicit_iff_example :
    ((build_chunk_table_explicit 4196 specs ≡ ok two_chunks) ↔ IsAccepted 4196 specs two_chunks)
    × ((build_chunk_table_explicit 4196 specs ≡ ok two_chunks)
        → Tiles 0 two_chunks 4196 × AllFresh two_chunks)
build_chunk_table_explicit_iff_example =
    build_chunk_table_explicit_iff 4196 specs two_chunks (omega arith)

pager_lookup_last_byte :
    (pager_lookup two_chunks 9999 ≡ ok (some 1)) × (pager_lookup two_chunks 10000 ≡ ok none)
unfolding pager_lookup search_from
pager_lookup_last_byte = (refl, refl)

pager_lookup_exact_example :
    ((8192 < 10000)
      → (i : ℕ) × (pager_lookup two_chunks 8192 ≡ ok (some i))
        × Covers two_chunks 8192 i
        × ((j : ℕ) → Covers two_chunks 8192 j → j ≡ i))
    × ((10000 ≤ 8192) → pager_lookup two_chunks 8192 ≡ ok none)
pager_lookup_exact_example =
    pager_lookup_exact two_chunks 10000 8192
      (refl, refl, omega arith, (refl, refl, omega arith, refl)) (omega arith) (omega arith)
