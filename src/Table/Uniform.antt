-- ===== src/Table/Uniform.antt =====
-- `build_chunk_table` tiles the region.
use native.Mathlib.Nat.{mul-le-mul_right, div-add-mod, mod-lt}
use residctl.Prelude.{
  Bool-cases, inl, inr, true, false, ltb, ◌==◌, get_elem?-lt, some, get_elem?, ℕ, zero, suc, ◌+◌,
  ◌-◌, ◌*◌, ◌%◌, ◌^◌, ◌≤◌, ◌<◌, ◌≡◌, refl, ap, List, length, arith, uint32_max, min, sub64, add64,
}
use residctl.Result.{ok, abort}
use residctl.Result
use residctl.State.{Chunk}
use residctl.Table.{page, round_size, uniform_chunk, uniform_rows, chunk_count, build_chunk_table}
use residctl.Table.Tiles.{Tiles, AllFresh}

round_size_lem :
    (s : ℕ)
    → s + page ≤ 2 ^ 64
    → (s ≤ round_size s) × (round_size s < s + page) × (round_size s % page ≡ 0)
unfolding round_size
round_size_lem s h = ground arith

chunk_count_lem :
    (len size : ℕ)
    → 0 < size
    → 0 < len
    → len + size < 2 ^ 64
    → (len ≤ chunk_count len size * size) × (chunk_count len size * size < len + size)
unfolding chunk_count
chunk_count_lem len size hs hl h =
    let wrap : sub64 (add64 len size) 1 ≡ len + size - 1 = omega arith in
    rw wrap (omega (arith, div-add-mod (len + size - 1) size, mod-lt (len + size - 1) hs))

-- Row `i` starts where the table has come to, and ends at the next multiple or the region's end.
uniform_chunk_lem :
    (len size i : ℕ)
    → 0 < size
    → len + size < 2 ^ 64
    → i * size < len
    → let c = uniform_chunk len size i in
      (c.region_off ≡ i * size)
      × (c.file_off ≡ i * size)
      × (0 < c.len)
      × (c.len ≤ size)
      × (i * size + c.len ≡ min ((i + 1) * size) len)
unfolding uniform_chunk
uniform_chunk_lem len size i hs h lt = ground arith

uniform_rows-Tiles :
    (len size left i : ℕ)
    → 0 < size
    → 0 < len
    → len + size < 2 ^ 64
    → len ≤ (i + left) * size
    → (i + left) * size < len + size
    → Tiles (min (i * size) len) (uniform_rows len size left i) len
unfolding uniform_rows
uniform_rows-Tiles len size zero i hs hl h a b = omega arith
uniform_rows-Tiles len size (suc left) i hs hl h a b =
    let at_row : i * size < len = omega arith in
    let start : min (i * size) len ≡ i * size = omega arith in
    let (r, f, pos, fit, next) = uniform_chunk_lem len size i hs h at_row in
    rw start (
      r,
      f,
      pos,
      rw next (uniform_rows-Tiles len size left (i + 1) hs hl h (omega arith) (omega arith)),
    )

uniform_rows-AllFresh :
    (len size left i : ℕ)
    → AllFresh (uniform_rows len size left i) × (length (uniform_rows len size left i) ≡ left)
unfolding uniform_rows uniform_chunk
uniform_rows-AllFresh len size zero i = (tt, refl)
uniform_rows-AllFresh len size (suc left) i =
    let (f, n) = uniform_rows-AllFresh len size left (i + 1) in ((refl, refl, f), ap suc n)

-- The row at a place.
uniform_rows-at :
    (len size left i j : ℕ) (c : Chunk)
    → get_elem? (uniform_rows len size left i) j ≡ some c
    → uniform_chunk len size (i + j) ≡ c
unfolding uniform_rows
uniform_rows-at len size zero i j c got = absurd (ground arith)
uniform_rows-at len size (suc left) i zero c got =
    let first : i + 0 ≡ i = omega arith in rw first (ground arith)
uniform_rows-at len size (suc left) i (suc j) c got =
    let there : i + 1 + j ≡ i + suc j = omega arith in
    rw there at (uniform_rows-at len size left (i + 1) j c got)

-- A page-aligned size below the next page, and chunk `i` from the `i`-th multiple to the next or the end.
abbrev pub Evenly : ℕ → ℕ → ℕ → List Chunk → Type 0
Evenly region_len requested size table =
    (requested ≤ size)
    × (size < requested + page)
    × (size % page ≡ 0)
    × ((i : ℕ) (c : Chunk)
        → get_elem? table i ≡ some c
        → (c.region_off ≡ i * size) × (c.region_off + c.len ≡ min ((i + 1) * size) region_len))

-- For a non-empty region and a requested size, both below 2^62, that need at most 2^32 - 1 chunks, the
-- builder returns a table: it tiles [0, region_len), every chunk absent and unpinned, and has as many
-- chunks as the rounded size goes into the region, rounded up. The rounded size is the least multiple of a
-- page that is not below the requested one, and every chunk but the last has just that size.
pub build_chunk_table_lem :
    (region_len requested : ℕ)
    → 0 < region_len
    → 0 < requested
    → region_len < 2 ^ 62
    → requested < 2 ^ 62
    → region_len ≤ uint32_max * round_size requested
    → (table : List Chunk) × (build_chunk_table region_len requested ≡ ok table)
      × Tiles 0 table region_len
      × AllFresh table
      × (region_len ≤ length table * round_size requested)
      × (length table * round_size requested < region_len + round_size requested)
      × Evenly region_len requested (round_size requested) table
unfolding build_chunk_table
build_chunk_table_lem region_len requested hl hr bl br few =
    let (up, tight, aligned) = round_size_lem requested (omega arith) in
    let size = round_size requested in
    let n = chunk_count region_len size in
    let (enough, least) = chunk_count_lem region_len size (omega arith) hl (omega arith) in
    let (fresh, rows) = uniform_rows-AllFresh region_len size n 0 in
    let counted : (0 < n) × (n ≤ uint32_max) = grind arith in
    let tiled =
      uniform_rows-Tiles region_len size n 0 (omega arith) hl (omega arith) (omega arith)
        (omega arith) in
    let at_zero : min (0 * size) region_len ≡ 0 = omega arith in
    (
      uniform_rows region_len size n 0,
      ground arith,
      rw at_zero at tiled,
      fresh,
      rw rows enough,
      rw rows least,
      (up, tight, aligned, λ i c got. row n least rows i c got),
    )
  where
    row :
        (n : ℕ)
        → n * round_size requested < region_len + round_size requested
        → length (uniform_rows region_len (round_size requested) n 0) ≡ n
        → (i : ℕ) (c : Chunk)
        → get_elem? (uniform_rows region_len (round_size requested) n 0) i ≡ some c
        → (c.region_off ≡ i * round_size requested)
          × (c.region_off + c.len ≡ min ((i + 1) * round_size requested) region_len)
    row n least rows i c got =
        let (up, tight, _) = round_size_lem requested (omega arith) in
        let size = round_size requested in
        let inside : i < n = rw rows at (get_elem?-lt (uniform_rows region_len size n 0) i got) in
        let begins : i * size < region_len = grind arith in
        let (off, _, _, _, next) =
          uniform_chunk_lem region_len size i (omega arith) (omega arith) begins in
        let first : 0 + i ≡ i = omega arith in
        let same : uniform_chunk region_len size i ≡ c =
          rw first at (uniform_rows-at region_len size n 0 i c got) in
        rw⁻¹ same (off, rw off next)

-- A size of zero is refused.
pub build_chunk_table_zero :
    (region_len : ℕ) → build_chunk_table region_len 0 ≡ abort Result.chunk_size_zero
unfolding build_chunk_table round_size
build_chunk_table_zero region_len = refl

count_exceeds : (m n size len : ℕ) → len ≤ n * size → m * size < len → m < n
count_exceeds m n size len enough long = elim (Bool-cases (ltb m n)) [
  | inl more ↦ ground arith
  | inr less ↦ let few : n ≤ m = ground arith in absurd (omega (arith, mul-le-mul_right size few))
]

-- So is a table of more than 2^32 - 1 chunks.
pub build_chunk_table_long :
    (region_len requested : ℕ)
    → 0 < region_len
    → 0 < requested
    → region_len < 2 ^ 62
    → requested < 2 ^ 62
    → uint32_max * round_size requested < region_len
    → build_chunk_table region_len requested ≡ abort Result.chunk_count_out_of_range
unfolding build_chunk_table
build_chunk_table_long region_len requested hl hr bl br long =
    let (up, tight, _) = round_size_lem requested (omega arith) in
    let size = round_size requested in
    let n = chunk_count region_len size in
    let (enough, _) = chunk_count_lem region_len size (omega arith) hl (omega arith) in
    let many : uint32_max < n = count_exceeds uint32_max n size region_len enough long in
    let sized : size == 0 ≡ false = ground arith in
    let too_many : ltb uint32_max n ≡ true = ground arith in
    let some_rows : n == 0 ≡ false = ground arith in rw (sized, some_rows, too_many) refl
