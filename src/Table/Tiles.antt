-- ===== src/Table/Tiles.antt =====
-- What a chunk table is for: rows that cover [0, region_len) with no gap and no overlap, mapping the
-- file one to one, all absent.
use residctl.Prelude.{
  ℕ, zero, suc, ◌+◌, ◌≤◌, ◌<◌, ◌≡◌, List, [], ◌∷◌, some, arith, length, get_elem?,
}
use residctl.State.{Chunk, ChunkState}

-- The chunks lie one behind the other from `off` to `end_off`.
abbrev pub Tiles : ℕ → List Chunk → ℕ → Type 0
Tiles off [] end_off = off ≡ end_off
Tiles off (c ∷ cs) end_off =
    (c.region_off ≡ off) × (c.file_off ≡ off) × (0 < c.len) × Tiles (off + c.len) cs end_off

abbrev pub AllFresh : List Chunk → Type 0
AllFresh [] = Unit
AllFresh (c ∷ cs) = (c.state ≡ ChunkState.absent) × (c.pin ≡ 0) × AllFresh cs

-- Where the chunk with index `i` starts, counted from the lengths before it.
abbrev pub edge : List Chunk → ℕ → ℕ → ℕ
edge cs off zero = off
edge [] off (suc i) = off
edge (c ∷ cs) off (suc i) = edge cs (off + c.len) i

pub edge_end : (cs : List Chunk) (off e : ℕ) → Tiles off cs e → edge cs off (length cs) ≡ e
edge_end [] off e t = t
edge_end (c ∷ cs) off e t = edge_end cs (off + c.len) e t.3

pub edge-le : (cs : List Chunk) (off i : ℕ) → off ≤ edge cs off i
edge-le cs off zero = omega arith
edge-le [] off (suc i) = omega arith
edge-le (c ∷ cs) off (suc i) = omega (arith, edge-le cs (off + c.len) i)

pub edge_mono : (cs : List Chunk) (off i j : ℕ) → i ≤ j → edge cs off i ≤ edge cs off j
edge_mono cs off zero j h = edge-le cs off j
edge_mono cs off (suc i) zero h = absurd (omega arith)
edge_mono [] off (suc i) (suc j) h = omega arith
edge_mono (c ∷ cs) off (suc i) (suc j) h = edge_mono cs (off + c.len) i j (omega arith)

-- A tiled table has chunk `i` exactly between its edges.
pub edge-region_off :
    (cs : List Chunk) (off e i : ℕ) (c : Chunk)
    → Tiles off cs e
    → get_elem? cs i ≡ some c
    → (c.region_off ≡ edge cs off i)
      × (c.file_off ≡ c.region_off)
      × (0 < c.len)
      × (edge cs off (suc i) ≡ edge cs off i + c.len)
edge-region_off [] off e i c t h = cc
edge-region_off (d ∷ cs) off e zero c t h = ground arith
edge-region_off (d ∷ cs) off e (suc i) c t h = edge-region_off cs (off + d.len) e i c t.3 h
