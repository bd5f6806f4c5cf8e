-- ===== src/Fetch/Reads.antt =====
-- The read loops reach their end, in segments that follow each other.
use residctl.Prelude.{
  ℕ, zero, suc, ◌+◌, ◌-◌, ◌%◌, ◌^◌, ◌≤◌, ◌<◌, ◌≡◌, refl, ◌⊎◌, inl, inr, true, false, List, [], ◌∷◌,
  ◌++◌, some, arith, ltb, ltb→lt, ltb→le, ◌==◌, ==_iff, add64, sub64, Bool-cases, Option-cases,
}
use residctl.Result.{Abort, Result, ok, abort, ◌>>=◌}
use residctl.Result
use residctl.State.{Chunk, Region}
use residctl.Kernel.{Kernel}
use residctl.Fetch.{
  Segment, read_up_to, fetch_read, fetch_resolve, fetch_chunk, direct_end, tail_end, align_down,
  align_up,
}

-- The segments follow each other from `at`; the last one ends at the second offset.
abbrev pub Follows : ℕ → List Segment → ℕ → Type 0
Follows at [] stop = at ≡ stop
Follows at (s ∷ rest) stop = (s.from ≡ at) × (0 < s.bytes) × Follows (at + s.bytes) rest stop

-- What a fetch may end the process for: an error of a read, an early end of the file, or UFFDIO_CONTINUE.
abbrev pub IsFetchFault : Abort → Type 0
IsFetchFault Result.fetch_io = Unit {0}
IsFetchFault Result.fetch_eof = Unit {0}
IsFetchFault Result.continue_failed = Unit {0}
IsFetchFault Result.continue_short = Unit {0}
IsFetchFault _ = ⊥

-- pread returns no more than the bytes wanted.
abbrev pub IsPread : Kernel → Type 0
IsPread k = (i want n : ℕ) → k.pread i want ≡ some n → n ≤ want

-- The two regions differ in the count of kernel calls only.
abbrev pub SameBut : Region → Region → Type 0
SameBut r r' = (n m : ℕ) × (r' ≡ record r { preads = n; continues = m })

abbrev pub Read : Region → ℕ → ℕ → Result (List Segment × Region) → Type 0
Read r at stop (abort x) = IsFetchFault x
Read r at stop (ok (segments, r')) = Follows at segments stop × SameBut r r'

-- One read, then the rest of the loop.
then_Read :
    (r : Region) (at n stop : ℕ) (o : Result (List Segment × Region))
    → 0 < n
    → Read (record r { preads = r.preads + 1 }) (at + n) stop o
    → Read r at stop (do (rest, r') ← o; ok (record { from = at; bytes = n } ∷ rest, r'))
then_Read r at n stop (abort x) pos fault = fault
then_Read r at n stop (ok (rest, r')) pos (follows, (i, j, same)) =
    ((refl, pos, follows), (i, j, same))

pub read_up_to-Read :
    (k : Kernel) (stop fuel at : ℕ) (r : Region)
    → IsPread k
    → stop < 2 ^ 62
    → at ≤ stop
    → stop ≤ at + fuel
    → Read r at stop (read_up_to k stop fuel at r)
unfolding read_up_to
read_up_to-Read k stop zero at r reads bound before enough =
    let same : at ≡ stop = omega arith in
    let done : ltb at stop ≡ false = ground arith in rw done (same, (_, _, refl))
read_up_to-Read k stop (suc fuel) at r reads bound before enough = elim (Bool-cases (ltb at stop)) [
  | inr done ↦ let same : at ≡ stop = omega (arith, ltb→le _ _ done) in rw done (same, (_, _, refl))
  | inl more ↦ rw more (elim (Option-cases (k.pread r.preads (sub64 stop at))) [
    | inl failed ↦ rw failed tt
    | inr (n, e) ↦ rw e (elim (Bool-cases (n == 0)) [
      | inl at_end ↦ rw at_end tt
      | inr some_bytes ↦
          let pos : 0 < n = ground arith in
          let short : n ≤ sub64 stop at = reads _ _ n e in
          let inside : at + n ≤ stop = omega (arith, short, ltb→lt _ _ more) in
          let next : add64 at n ≡ at + n = omega arith in
          rw (some_bytes, next)
            (then_Read r at n stop _ pos
              (read_up_to-Read k stop fuel (at + n) _ reads bound inside (omega arith)))
    ])
  ])
]

Follows-++ :
    (at mid stop : ℕ) (xs ys : List Segment)
    → Follows at xs mid
    → Follows mid ys stop
    → Follows at (xs ++ ys) stop
Follows-++ at mid stop [] ys f g = rw f g
Follows-++ at mid stop (x ∷ xs) ys (e, pos, f) g =
    (e, pos, Follows-++ (at + x.bytes) mid stop xs ys f g)

-- The tail's reads after the direct ones.
append_Read :
    (r : Region) (at mid stop : ℕ) (first : Result (List Segment × Region))
    (tail : Region → Result (List Segment × Region))
    → Read r at mid first
    → ((s : Region) → Read s mid stop (tail s))
    → Read r at stop (do (xs, r') ← first; (ys, r'') ← tail r'; ok (xs ++ ys, r''))
append_Read r at mid stop (abort x) tail fault h = fault
append_Read r at mid stop (ok (xs, r')) tail (f, (i, j, same)) h = finish (tail r') (h r')
  where
    finish :
        (o : Result (List Segment × Region))
        → Read r' mid stop o
        → Read r at stop (do (ys, r'') ← o; ok (xs ++ ys, r''))
    finish (abort x) fault = fault
    finish (ok (ys, r'')) (g, (i', j', same')) =
        (Follows-++ at mid stop xs ys f g, (i', j', rw (same', same)))

-- The page-aligned range of a chunk, cut at the end of the file.
abbrev pub start_of : Chunk → ℕ
start_of c = align_down c.file_off

abbrev pub stop_of : Region → Chunk → ℕ
stop_of r c = tail_end r (align_up (add64 c.file_off c.len))

-- A chunk that starts inside the file and is mapped one to one.
pub record IsInFile (r : Region) (c : Chunk) : Type 0 where
  pub identity : c.region_off ≡ c.file_off
  pub small : c.file_off + c.len < 2 ^ 61
  pub some_bytes : 0 < c.len
  pub starts_inside : (r.model_file_size ≡ 0) ⊎ (c.file_off < r.model_file_size)

abbrev pub Fetched : Region → Chunk → Result (List Segment × Region) → Type 0
Fetched r c (abort x) = IsFetchFault x
Fetched r c (ok (segments, r')) = Follows (start_of c) segments (stop_of r c) × SameBut r r'

fetch_read-Read :
    (k : Kernel) (r : Region) (c : Chunk)
    → IsPread k
    → IsInFile r c
    → Read r (start_of c) (stop_of r c) (fetch_read k r c)
unfolding fetch_read
fetch_read-Read k r c reads v = rw aligned (
    append_Read r (start_of c) mid (stop_of r c) _ _
      (read_up_to-Read k mid (mid - start_of c) (start_of c) r reads (omega (arith, ranges))
        (omega (arith, ranges)) (omega arith))
      (λ s.
        read_up_to-Read k (stop_of r c) (stop_of r c - mid) mid s reads (omega (arith, ranges))
          (omega (arith, ranges)) (omega arith)))
  where
    mid : ℕ
    mid = direct_end r (start_of c) (align_up (add64 c.file_off c.len))

    stop : ℕ
    stop = align_up (add64 c.file_off c.len)

    rounded : (start_of c ≤ c.file_off) × (c.file_off + c.len ≤ stop) × (stop < 2 ^ 62)
    rounded = ground (arith, v.small)

    ranges : (start_of c ≤ mid) × (mid ≤ stop_of r c) × (stop_of r c < 2 ^ 62)
    ranges = ground (arith, rounded, v.starts_inside, v.some_bytes)

    aligned : (sub64 c.region_off (sub64 c.file_off (start_of c)) % 4096 == 0) ≡ true
    aligned =
        let back : sub64 c.region_off (sub64 c.file_off (start_of c)) % 4096 ≡ 0 =
          omega (arith, v.identity, v.small, rounded) in
        (==_iff _ _).1 back

resolve_Read :
    (k : Kernel) (r : Region) (c : Chunk) (o : Result (List Segment × Region))
    → Read r (start_of c) (stop_of r c) o
    → Fetched r c (do (segments, r') ← o; r'' ← fetch_resolve k r' c; ok (segments, r''))
unfolding fetch_resolve
resolve_Read k r c (abort x) fault = fault
resolve_Read k r c (ok (segments, r')) (follows, (i, j, same)) =
    elim (Option-cases (k.continue r'.continues)) [
      | inl failed ↦ rw failed tt
      | inr (mapped, e) ↦ elim (Bool-cases (mapped == c.len)) [
        | inr short ↦ rw (e, short) tt
        | inl whole ↦ rw (e, whole) (follows, (i, r'.continues + 1, rw same))
      ]
    ]

-- If pread returns no more than it is asked for, the fetch of a non-empty chunk that is mapped one to one,
-- starts inside the file (if the file's size is set) and ends below 2^61 ends in one of two ways. It succeeds: its reads follow each other without a gap or an
-- overlap from the chunk's start, rounded down to a page, to its end, rounded up to a page and cut at the
-- end of the file, and the region is as before. Or it ends the process for a failed read, an early end of
-- file, or a UFFDIO_CONTINUE that failed or mapped other than the whole chunk.
pub fetch_chunk-Fetched :
    (k : Kernel) (r : Region) (c : Chunk)
    → IsPread k
    → IsInFile r c
    → Fetched r c (fetch_chunk k r c)
unfolding fetch_chunk
fetch_chunk-Fetched k r c reads v =
    resolve_Read k r c (fetch_read k r c) (fetch_read-Read k r c reads v)
