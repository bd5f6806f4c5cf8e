-- ===== src/Lookup.antt =====
-- `pager_lookup` of src/pager.c: binary search of the chunk table for a fault's offset.
pub mod Covers
use residctl.Prelude.{
  ℕ, zero, suc, ◌+◌, ◌-◌, ◌/◌, ◌%◌, ◌^◌, List, Option, some, none, ltb, leb, add32, add64, length,
  get_elem?, if◌then◌else◌,
}
use residctl.Result.{Result, ok, abort}
use residctl.Result
use residctl.State.{Chunk}

abbrev pub middle : ℕ → ℕ → ℕ
middle lo hi = add32 lo ((hi - lo) / 2)

-- The loop over [lo, hi), with fuel. `hi - lo` is taken at `lo < hi` only.
unfoldable pub search_from : List Chunk → ℕ → ℕ → ℕ → ℕ → Result (Option ℕ)
search_from chunks rel_off zero lo hi = Result.abort Result.out_of_fuel
search_from chunks rel_off (suc fuel) lo hi =
    let mid = middle lo hi in
    let left = search_from chunks rel_off fuel lo mid in
    let right = search_from chunks rel_off fuel (add32 mid 1) hi in
    let probe : Result (Option ℕ) = elim (get_elem? chunks mid) [
      | none ↦ abort Result.out_of_bounds
      | some c ↦
          if ltb rel_off c.region_off
          then left
          else if leb (add64 c.region_off c.len) rel_off
          then right
          else ok (some mid)
    ] in
    if ltb lo hi then probe else ok none

-- The chunk whose range holds `rel_off`, by its index.
unfoldable pub pager_lookup : List Chunk → ℕ → Result (Option ℕ)
unfolding search_from
pager_lookup chunks rel_off = search_from chunks rel_off (suc (length chunks)) 0 (length chunks)
