-- ===== src/Trace.antt =====
-- The trace file, src/trace.c: its header and records as bytes, and `load_reference_string` of
-- src/belady_main.c, which reads it. `write` and `read` are arguments.
pub mod RoundTrip
use residctl.Prelude.{
  ℕ, zero, suc, ◌+◌, ◌*◌, ◌/◌, ◌%◌, ◌==◌, List, [], ◌∷◌, ◌++◌, Option, none, some, if◌then◌else◌,
  not, ◌&&◌, length, get_or,
}
use residctl.Result.{Result, ok, abort, ◌>>=◌, ◌>>◌, guard, or_abort}
use residctl.Result

module _ {ℓ} {A : Type ℓ} where
  abbrev pub take : ℕ → List A → List A
  take zero xs = []
  take (suc n) [] = []
  take (suc n) (x ∷ xs) = x ∷ take n xs

  abbrev pub drop : ℕ → List A → List A
  drop zero xs = xs
  drop (suc n) [] = []
  drop (suc n) (x ∷ xs) = drop n xs

-- `trace_record_t`, without its padding.
pub record Record : Type 0 where
  pub seq : ℕ
  pub timestamp_ns : ℕ
  pub chunk_id : ℕ
  pub fault_type : ℕ
  pub was_prefetched : ℕ

-- The bytes written so far, and the count of the calls of `write`.
pub record File : Type 0 where
  pub bytes : List ℕ
  pub writes : ℕ

-- The `n` low bytes of a number, least significant first.
abbrev pub le : ℕ → ℕ → List ℕ
le zero v = []
le (suc n) v = (v % 256) ∷ le n (v / 256)

abbrev pub from_le : List ℕ → ℕ
from_le [] = 0
from_le (b ∷ bs) = b + 256 * from_le bs

-- `trace_header_t`: the magic RTRC, the type, the version 2 and two bytes of padding.
abbrev pub encode_header : ℕ → List ℕ
encode_header trace_type = 82 ∷ 84 ∷ 82 ∷ 67 ∷ (trace_type % 256) ∷ 2 ∷ 0 ∷ 0 ∷ []

abbrev pub encode_record : Record → List ℕ
encode_record r =
    le 8 r.seq
    ++ (le 8 r.timestamp_ns
        ++ (le 4 r.chunk_id ++ ((r.fault_type % 256) ∷ (r.was_prefetched % 256) ∷ 0 ∷ 0 ∷ [])))

-- `write_all`, on fuel: each call of `write` takes the bytes that are left and says how many it wrote.
unfoldable pub write_all : (ℕ → ℕ → Option ℕ) → ℕ → List ℕ → File → Result File
write_all write fuel [] f = ok f
write_all write zero (b ∷ bs) f = abort Result.out_of_fuel
write_all write (suc fuel) (b ∷ bs) f = elim (write f.writes (length (b ∷ bs))) [
  | none ↦ abort Result.trace_write_failed
  | some n ↦
      write_all write fuel (drop n (b ∷ bs))
        (record { bytes = f.bytes ++ take n (b ∷ bs); writes = f.writes + 1 })
]

-- `trace_open`, on an empty file.
unfoldable pub trace_open : (ℕ → ℕ → Option ℕ) → ℕ → Result File
unfolding write_all
trace_open write trace_type =
    write_all write 8 (encode_header trace_type) (record { bytes = []; writes = 0 })

-- `trace_record`, with the clock's reading in the record.
unfoldable pub trace_record : (ℕ → ℕ → Option ℕ) → Record → File → Result File
unfolding write_all
trace_record write r f = write_all write 24 (encode_record r) f

-- A workload's records, one call of `trace_record` after the other.
unfoldable pub record_all : (ℕ → ℕ → Option ℕ) → List Record → File → Result File
unfolding trace_record
record_all write [] f = ok f
record_all write (r ∷ rs) f = trace_record write r f >>= record_all write rs

-- A `read` of `want` bytes where `bytes` are left, if it returns just `want`: the bytes and what is left.
abbrev pub read_exactly : (ℕ → ℕ → Option ℕ) → ℕ → List ℕ → Option (List ℕ × List ℕ)
read_exactly read want bytes = elim (read want (length bytes)) [
  | none ↦ none
  | some n ↦ if n == want then some (take want bytes, drop want bytes) else none
]

-- `trace_read_header`: the type and the bytes behind the header.
unfoldable pub trace_read_header : (ℕ → ℕ → Option ℕ) → List ℕ → Option (ℕ × List ℕ)
trace_read_header read bytes = elim (read_exactly read 8 bytes) [
  | none ↦ none
  | some (hdr, rest) ↦
      if (get_or hdr 0 0 == 82)
        && ((get_or hdr 1 0 == 84)
            && ((get_or hdr 2 0 == 82) && ((get_or hdr 3 0 == 67) && (get_or hdr 5 0 == 2))))
      then some (get_or hdr 4 0, rest)
      else none
]

-- The loop over the records in `load_reference_string`, on fuel: each round reads 24 bytes.
unfoldable pub read_records : (ℕ → ℕ → Option ℕ) → ℕ → List ℕ → Result (List ℕ)
read_records read zero bytes = abort Result.out_of_fuel
read_records read (suc fuel) bytes = elim (read_exactly read 24 bytes) [
  | none ↦ ok []
  | some (rec, rest) ↦ do
    ids ← read_records read fuel rest
    ok (from_le (take 4 (drop 16 rec)) ∷ ids)
]

-- `load_reference_string`
unfoldable pub load_reference_string : (ℕ → ℕ → Option ℕ) → List ℕ → Result (List ℕ)
unfolding trace_read_header read_records
load_reference_string read bytes = do
  (trace_type, rest) ← or_abort (trace_read_header read bytes) Result.trace_bad_header
  guard (not (trace_type == 1)) Result.trace_is_fault
  guard (trace_type == 0) Result.trace_bad_type
  read_records read (suc (length rest)) rest
