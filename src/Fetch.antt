-- ===== src/Fetch.antt =====
-- The fetch of one chunk, src/fetch.c: the reads into the second mapping, and UFFDIO_CONTINUE. The
-- optional timing record is left out.
pub mod Reads
use residctl.Prelude.{
  ℕ, zero, suc, ◌+◌, ◌-◌, ◌%◌, Bool, true, false, not, ◌&&◌, List, [], ◌∷◌, ◌++◌, Option, none,
  some, ltb, ◌==◌, if◌then◌else◌, add64, sub64,
}
use residctl.Result.{Result, ok, abort, ◌>>=◌, ◌>>◌, guard, or_abort}
use residctl.Result
use residctl.State.{Chunk, Region}
use residctl.Kernel.{Kernel}
use residctl.Table.{page}

abbrev pub align_down : ℕ → ℕ
align_down v = v - v % page

abbrev pub align_up : ℕ → ℕ
align_up v = align_down (sub64 (add64 v page) 1)

-- Bytes of the file that a read put at their place: from an offset on, so many.
pub record Segment : Type 0 where
  pub from : ℕ
  pub bytes : ℕ

-- One of the two read loops: from `at` up to `stop`, with fuel.
unfoldable pub read_up_to : Kernel → ℕ → ℕ → ℕ → Region → Result (List Segment × Region)
read_up_to k stop zero at r = if ltb at stop then abort Result.out_of_fuel else ok ([], r)
read_up_to k stop (suc fuel) at r =
    let again : Result (List Segment × Region) = do
      n ← or_abort (k.pread r.preads (sub64 stop at)) Result.fetch_io
      guard (not (n == 0)) Result.fetch_eof
      (rest, r') ← read_up_to k stop fuel (add64 at n) (record r { preads = r.preads + 1 })
      ok (record { from = at; bytes = n } ∷ rest, r')
    in if ltb at stop then again else ok ([], r)

-- Where the direct reads end, and where the buffered tail ends.
abbrev pub direct_end : Region → ℕ → ℕ → ℕ
direct_end r start stop =
    if not (r.model_file_size == 0) && ltb r.model_file_size stop
    then (if ltb start (align_down r.model_file_size) then align_down r.model_file_size else start)
    else stop

abbrev pub tail_end : Region → ℕ → ℕ
tail_end r stop =
    if not (r.model_file_size == 0) && ltb r.model_file_size stop then r.model_file_size else stop

-- `map_b` is a mapping, so aligned to a page, and is left out of `dest`; so are the zeros that fill the
-- last page behind the end of the file. The fuel of each loop is what it
-- has to read.
unfoldable pub fetch_read : Kernel → Region → Chunk → Result (List Segment × Region)
unfolding read_up_to
fetch_read k r c = do
  let start = align_down c.file_off
  let stop = align_up (add64 c.file_off c.len)
  let dest = sub64 c.region_off (sub64 c.file_off start)
  guard (dest % page == 0) Result.fetch_misaligned
  let mid = direct_end r start stop
  (direct, r') ← read_up_to k mid (mid - start) start r
  (tail, r'') ← read_up_to k (tail_end r stop) (tail_end r stop - mid) mid r'
  ok (direct ++ tail, r'')

unfoldable pub fetch_resolve : Kernel → Region → Chunk → Result Region
fetch_resolve k r c = do
  mapped ← or_abort (k.continue r.continues) Result.continue_failed
  guard (mapped == c.len) Result.continue_short
  ok (record r { continues = r.continues + 1 })

unfoldable pub fetch_chunk : Kernel → Region → Chunk → Result (List Segment × Region)
unfolding fetch_read fetch_resolve
fetch_chunk k r c = do
  (segments, r') ← fetch_read k r c
  r'' ← fetch_resolve k r' c
  ok (segments, r'')
