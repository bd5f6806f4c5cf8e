-- ===== src/Tests/Traces.antt =====
-- A trace written in pieces of five bytes, src/trace.c.
use residctl.Prelude.{ℕ, ◌≡◌, refl, List, [], ◌∷◌, Option, some, min, arith}
use residctl.Result.{Result, ok, abort, ◌>>=◌}
use residctl.Result
use residctl.Trace.{Record, File, trace_open, record_all, load_reference_string}
use residctl.Trace.RoundTrip.{IsWrite, load_reference_string-record_all}

abbrev in_pieces : ℕ → ℕ → Option ℕ
in_pieces i want = some (min 5 want)

abbrev whole : ℕ → ℕ → Option ℕ
whole want left = some (min want left)

in_pieces-IsWrite : IsWrite in_pieces
in_pieces-IsWrite i want pos = (min 5 want, refl, omega (arith, pos), omega arith)

abbrev reference : ℕ → ℕ → Record
reference seq chunk = record {
  seq = seq;
  timestamp_ns = 1000000;
  chunk_id = chunk;
  fault_type = 255;
  was_prefetched = 255;
}

abbrev accesses : List Record
accesses = reference 1 7 ∷ reference 2 70000 ∷ []

load_reference_string-record_all_example :
    ((f : File) × ((trace_open in_pieces 0 >>= record_all in_pieces accesses) ≡ ok f)
      × (load_reference_string whole f.bytes ≡ ok (7 ∷ 70000 ∷ [])))
    × ((f : File) × ((trace_open in_pieces 1 >>= record_all in_pieces accesses) ≡ ok f)
        × (load_reference_string whole f.bytes ≡ abort Result.trace_is_fault))
load_reference_string-record_all_example =
    load_reference_string-record_all in_pieces whole accesses in_pieces-IsWrite (λ want left. refl)
      (omega arith, (omega arith, tt))
