-- ===== src/Table/Explicit.antt =====
-- `build_chunk_table_explicit` accepts the tables that tile the region, and only these.
use residctl.Prelude.{
  ℕ, ◌+◌, ◌%◌, ◌^◌, ◌≤◌, ◌<◌, ◌≡◌, refl, ◌↔◌, inl, inr, List, [], ◌∷◌, arith, uint32_max, length,
  add64,
}
use residctl.Result.{ok, >>=-eq-ok, Result-cases}
use residctl.State.{Chunk}
use residctl.Table.{
  page, ChunkSpec, check_spec, is_empty, explicit_rows, build_chunk_table_explicit, fresh_chunk,
}
use residctl.Table.Tiles.{Tiles, AllFresh}

abbrev pub total_len : List ChunkSpec → ℕ
total_len [] = 0
total_len (s ∷ specs) = s.len + total_len specs

-- Only the last chunk may have a length that is no multiple of the page.
abbrev pub InnerAligned : List ChunkSpec → ℕ → Type 0
InnerAligned [] len = Unit {0}
InnerAligned (s ∷ specs) len = len % page ≡ 0

-- The documented contract of the spec array, from `off` on.
abbrev pub IsWellFormed : ℕ → List ChunkSpec → Type 0
IsWellFormed off [] = Unit {0}
IsWellFormed off (s ∷ specs) =
    (s.region_off ≡ off)
    × (s.file_off ≡ off)
    × (0 < s.len)
    × (off % page ≡ 0)
    × InnerAligned specs s.len
    × IsWellFormed (off + s.len) specs

-- The chunks of the specs.
abbrev pub rows_of : List ChunkSpec → List Chunk
rows_of [] = []
rows_of (s ∷ specs) = fresh_chunk s.file_off s.region_off s.len s.layer_id ∷ rows_of specs

check_spec_complete :
    (s : ChunkSpec) (specs : List ChunkSpec) (off : ℕ)
    → IsWellFormed off (s ∷ specs)
    → check_spec s off (is_empty specs) ≡ ok tt
unfolding check_spec
check_spec_complete s [] off w = ground arith
check_spec_complete s (s' ∷ specs) off w = ground arith

check_spec_sound :
    (s : ChunkSpec) (specs : List ChunkSpec) (off : ℕ)
    → check_spec s off (is_empty specs) ≡ ok tt
    → (s.region_off ≡ off)
      × (s.file_off ≡ off)
      × (0 < s.len)
      × (off % page ≡ 0)
      × InnerAligned specs s.len
unfolding check_spec
check_spec_sound s [] off e = ground arith
check_spec_sound s (s' ∷ specs) off e = ground arith

explicit_rows_complete :
    (specs : List ChunkSpec) (off : ℕ)
    → off + total_len specs < 2 ^ 64
    → IsWellFormed off specs
    → explicit_rows specs off ≡ ok (rows_of specs, off + total_len specs)
unfolding explicit_rows
explicit_rows_complete [] off h w = ground arith
explicit_rows_complete (s ∷ specs) off h w =
    let next : add64 off s.len ≡ off + s.len = omega arith in
    let rest = explicit_rows_complete specs (off + s.len) (omega arith) w.5 in
    rw (check_spec_complete s specs off w, next, rest) (ground arith)

explicit_rows_sound :
    (specs : List ChunkSpec) (off end_off : ℕ) (rows : List Chunk)
    → off + total_len specs < 2 ^ 64
    → explicit_rows specs off ≡ ok (rows, end_off)
    → IsWellFormed off specs
unfolding explicit_rows
explicit_rows_sound [] off end_off rows h e = tt
explicit_rows_sound (s ∷ specs) off end_off rows h e =
    let next : add64 off s.len ≡ off + s.len = omega arith in
    let (_, checked, e') = >>=-eq-ok (check_spec s off (is_empty specs)) _ e in
    let ((rows', end'), rest, _) = >>=-eq-ok (explicit_rows specs (add64 off s.len)) _ e' in
    let (r, f, l, p, a) = check_spec_sound s specs off checked in
    (
      r,
      f,
      l,
      p,
      a,
      explicit_rows_sound specs (off + s.len) end' rows' (omega arith) (rw next at rest),
    )

rows_of-Tiles :
    (specs : List ChunkSpec) (off : ℕ)
    → IsWellFormed off specs
    → Tiles off (rows_of specs) (off + total_len specs) × AllFresh (rows_of specs)
rows_of-Tiles [] off w = (omega arith, tt)
rows_of-Tiles (s ∷ specs) off w =
    let (t, f) = rows_of-Tiles specs (off + s.len) w.5 in
    let e : off + s.len + total_len specs ≡ off + (s.len + total_len specs) = omega arith in
    ((w.0, w.1, w.2, rw e at t), (refl, refl, f))

-- What a successful call of the builder tells.
abbrev pub IsAccepted : ℕ → List ChunkSpec → List Chunk → Type 0
IsAccepted region_len specs table =
    (0 < length specs)
    × (length specs ≤ uint32_max)
    × IsWellFormed 0 specs
    × (total_len specs ≡ region_len)
    × (table ≡ rows_of specs)

IsAccepted-of_ok :
    (region_len : ℕ) (specs : List ChunkSpec) (table : List Chunk)
    → total_len specs < 2 ^ 64
    → build_chunk_table_explicit region_len specs ≡ ok table
    → IsAccepted region_len specs table
unfolding build_chunk_table_explicit
IsAccepted-of_ok region_len specs table h e = elim (Result-cases (explicit_rows specs 0)) [
  | inl ((rows, end_off), built) ↦
      let w = explicit_rows_sound specs 0 end_off rows (omega arith) built in
      let again = explicit_rows_complete specs 0 (omega arith) w in
      (
        ground (arith, again),
        ground (arith, again),
        w,
        ground (arith, again),
        ground (arith, again),
      )
  | inr (x, stopped) ↦ absurd (ground (arith, stopped))
]

ok-of_accepted :
    (region_len : ℕ) (specs : List ChunkSpec) (table : List Chunk)
    → total_len specs < 2 ^ 64
    → IsAccepted region_len specs table
    → build_chunk_table_explicit region_len specs ≡ ok table
unfolding build_chunk_table_explicit
ok-of_accepted region_len specs table h (pos, few, w, total, e) =
    let again = explicit_rows_complete specs 0 (omega arith) w in ground (arith, again)

-- On lengths whose sum is a 64-bit number, the builder succeeds exactly on a non-empty array of at
-- most 2^32 - 1 specs that meet the contract and add up to the region, with the specs' own chunks for
-- the table; a table it returns tiles [0, region_len), every chunk absent and unpinned.
pub build_chunk_table_explicit_iff :
    (region_len : ℕ) (specs : List ChunkSpec) (table : List Chunk)
    → total_len specs < 2 ^ 64
    → ((build_chunk_table_explicit region_len specs ≡ ok table) ↔ IsAccepted region_len specs table)
      × ((build_chunk_table_explicit region_len specs ≡ ok table)
          → Tiles 0 table region_len × AllFresh table)
build_chunk_table_explicit_iff region_len specs table h = (
  (IsAccepted-of_ok region_len specs table h, ok-of_accepted region_len specs table h),
  λ e.
      let (_, _, w, total, rows) = IsAccepted-of_ok region_len specs table h e in
      let (t, f) = rows_of-Tiles specs 0 w in
      let len : 0 + total_len specs ≡ region_len = omega arith in rw rows (rw len at t, f),
)
