-- ===== src/Lookup/Covers.antt =====
-- On a tiled table the search finds the one chunk that covers an offset of the region.
use residctl.Prelude.{
  ℕ, zero, suc, ◌+◌, ◌^◌, ◌≤◌, ◌<◌, ◌≡◌, List, some, none, arith, add64, length, get_elem?,
  get_elem?-some, uint32_max, ltb, leb, ltb→lt, ltb→le, leb→le, add32, inl, inr, Bool-cases,
}
use residctl.Result.{ok}
use residctl.State.{Chunk}
use residctl.Table.Tiles.{Tiles, edge, edge_end, edge_mono, edge-region_off}
use residctl.Lookup.{middle, search_from, pager_lookup}

-- Index `i` names a chunk whose range holds `rel_off`.
abbrev pub Covers : List Chunk → ℕ → ℕ → Type 0
Covers chunks rel_off i =
    (c : Chunk) × (get_elem? chunks i ≡ some c)
    × (c.region_off ≤ rel_off)
    × (rel_off < c.region_off + c.len)

module _ (cs : List Chunk) (e x : ℕ) (t : Tiles 0 cs e) (small : e < 2 ^ 64)
    (few : length cs ≤ uint32_max) where
  search_from-Covers :
      (fuel lo hi : ℕ)
      → hi < lo + fuel
      → hi ≤ length cs
      → edge cs 0 lo ≤ x
      → x < edge cs 0 hi
      → (i : ℕ) × (search_from cs x fuel lo hi ≡ ok (some i)) × Covers cs x i
  unfolding search_from
  search_from-Covers zero lo hi m h a b = absurd (omega (arith, edge_mono cs 0 hi lo))
  search_from-Covers (suc fuel) lo hi m h a b =
      let in_order : lo < hi = grind (arith, edge_mono cs 0 hi lo) in
      let (c, got) = get_elem?-some cs (middle lo hi) (omega arith) in
      let (start, _, pos, next) = edge-region_off cs 0 e (middle lo hi) c t got in
      let bound : edge cs 0 (suc (middle lo hi)) ≤ e =
        omega (arith, edge_mono cs 0 (suc (middle lo hi)) (length cs), edge_end cs 0 e t) in
      let step : add32 (middle lo hi) 1 ≡ suc (middle lo hi) = omega arith in
      elim (Bool-cases (ltb x c.region_off)) [
        | inl before ↦
            let (i, found, cov) =
              search_from-Covers fuel lo (middle lo hi) (omega arith) (omega arith) a
                (omega (arith, ltb→lt _ _ before)) in
            (i, ground (arith, got, found), cov)
        | inr not_before ↦ elim (Bool-cases (leb (add64 c.region_off c.len) x)) [
          | inl after ↦
              let (i, found, cov) =
                search_from-Covers fuel (suc (middle lo hi)) hi (omega arith) h
                  (omega (arith, leb→le _ _ after)) b in
              (i, ground (arith, got, found, step), cov)
          | inr not_after ↦
              (middle lo hi, ground (arith, got), (c, got, ltb→le _ _ not_before, ground arith))
        ]
      ]

  Covers-unique_le : (i j : ℕ) → Covers cs x i → Covers cs x j → j ≤ i
  Covers-unique_le i j (c, gi, lo, hi) (d, gj, lo', hi') =
      let (si, _, _, ni) = edge-region_off cs 0 e i c t gi in
      let (sj, _, _, _) = edge-region_off cs 0 e j d t gj in grind (arith, edge_mono cs 0 (suc i) j)

  search_from-beyond :
      (fuel lo hi : ℕ)
      → hi < lo + fuel
      → lo ≤ hi
      → hi ≤ length cs
      → e ≤ x
      → search_from cs x fuel lo hi ≡ ok none
  unfolding search_from
  search_from-beyond zero lo hi m o h out = absurd (omega arith)
  search_from-beyond (suc fuel) lo hi m o h out = elim (Bool-cases (ltb lo hi)) [
    | inr done ↦ rw done
    | inl more ↦
        let below : lo < hi = ltb→lt lo hi more in
        let (c, got) = get_elem?-some cs (middle lo hi) (omega arith) in
        let (start, _, pos, next) = edge-region_off cs 0 e (middle lo hi) c t got in
        let bound : edge cs 0 (suc (middle lo hi)) ≤ e =
          omega (arith, edge_mono cs 0 (suc (middle lo hi)) (length cs), edge_end cs 0 e t) in
        let step : add32 (middle lo hi) 1 ≡ suc (middle lo hi) = omega arith in
        let rest =
          search_from-beyond fuel (suc (middle lo hi)) hi (omega arith) (omega arith) h out in
        ground (arith, got, step, rest)
  ]

  -- On a table of at most 2^32 - 1 chunks that tiles [0, e), for an e below 2^64, the search ends with the chunk that covers an offset below `e`, the
  -- only one that does, and finds nothing from `e` on.
  pub pager_lookup_exact :
      ((x < e)
        → (i : ℕ) × (pager_lookup cs x ≡ ok (some i))
          × Covers cs x i
          × ((j : ℕ) → Covers cs x j → j ≡ i))
      × ((e ≤ x) → pager_lookup cs x ≡ ok none)
  unfolding pager_lookup
  pager_lookup_exact = (
    λ h.
        let (i, found, cov) =
          search_from-Covers (suc (length cs)) 0 (length cs) (omega arith) (omega arith)
            (omega arith) (omega (arith, edge_end cs 0 e t)) in
        (
          i,
          found,
          cov,
          λ j other. omega (arith, Covers-unique_le i j cov other, Covers-unique_le j i other cov),
        ),
    λ out.
        search_from-beyond (suc (length cs)) 0 (length cs) (omega arith) (omega arith) (omega arith)
          out,
  )
