-- ===== src/Trace/RoundTrip.antt =====
-- What a workload writes to its reference trace is what the solver reads, src/trace.c and
-- src/belady_main.c.
use mathlib.Core.List.{append-nil, append_assoc}
use residctl.Prelude.{
  ℕ, zero, suc, ◌+◌, ◌^◌, ◌≤◌, ◌<◌, ◌≡◌, refl, ◌∙◌, ap, min, List, [], ◌∷◌, ◌++◌, map, Option, some,
  arith, length,
}
use residctl.Result.{Result, ok, abort, ◌>>=◌}
use residctl.Result
use residctl.Trace.{
  take, drop, Record, File, le, from_le, encode_header, encode_record, write_all, trace_open,
  trace_record, record_all, read_exactly, trace_read_header, read_records, load_reference_string,
}

-- write(2) on a file writes at least one of the bytes and no more than there are.
abbrev pub IsWrite : (ℕ → ℕ → Option ℕ) → Type 0
IsWrite write = (i want : ℕ) → 0 < want → (n : ℕ) × (write i want ≡ some n) × (0 < n) × (n ≤ want)

-- read(2) on a file reads what is wanted, or what is left if that is less.
abbrev pub IsRead : (ℕ → ℕ → Option ℕ) → Type 0
IsRead read = (want left : ℕ) → read want left ≡ some (min want left)

take-drop : (n : ℕ) (xs : List ℕ) → take n xs ++ drop n xs ≡ xs
take-drop zero xs = refl
take-drop (suc n) [] = refl
take-drop (suc n) (x ∷ xs) = ap (◌∷◌ x) (take-drop n xs)

length-drop : (n x : ℕ) (xs : List ℕ) → 0 < n → length (drop n (x ∷ xs)) ≤ length xs
length-drop zero x xs pos = absurd (omega arith)
length-drop (suc n) x xs pos = short n xs
  where
    short : (n : ℕ) (xs : List ℕ) → length (drop n xs) ≤ length xs
    short zero xs = omega arith
    short (suc n) [] = omega arith
    short (suc n) (x ∷ xs) = omega (arith, short n xs)

-- The bytes are behind those of the file.
abbrev Appended : File → List ℕ → Result File → Type 0
Appended f bs o = (m : ℕ) × (o ≡ ok (record { bytes = f.bytes ++ bs; writes = m }))

write_all-Appended :
    (write : ℕ → ℕ → Option ℕ) (fuel : ℕ) (bs : List ℕ) (f : File)
    → IsWrite write
    → length bs ≤ fuel
    → Appended f bs (write_all write fuel bs f)
unfolding write_all
write_all-Appended write fuel [] f w enough = (f.writes, rw (append-nil f.bytes) refl)
write_all-Appended write zero (b ∷ bs) f w enough = absurd (omega arith)
write_all-Appended write (suc fuel) (b ∷ bs) f w enough =
    let (n, e, some_bytes, _) = w f.writes (length (b ∷ bs)) (omega arith) in
    let g : File = record { bytes = f.bytes ++ take n (b ∷ bs); writes = f.writes + 1 } in
    let (m, done) =
      write_all-Appended write fuel (drop n (b ∷ bs)) g w
        (omega (arith, enough, length-drop n b bs some_bytes)) in
    let whole : (f.bytes ++ take n (b ∷ bs)) ++ drop n (b ∷ bs) ≡ f.bytes ++ (b ∷ bs) =
      append_assoc f.bytes (take n (b ∷ bs)) (drop n (b ∷ bs))
      ∙ ap (λ xs. f.bytes ++ xs) (take-drop n (b ∷ bs)) in
    (
      m,
      rw (write_all, e)
          (done
            ∙ ap {A = List ℕ} {B = Result File} (λ xs. ok (record { bytes = xs; writes = m }))
                whole),
    )

abbrev encode_all : List Record → List ℕ
encode_all [] = []
encode_all (r ∷ rs) = encode_record r ++ encode_all rs

record_all-Appended :
    (write : ℕ → ℕ → Option ℕ) (rs : List Record) (f : File)
    → IsWrite write
    → Appended f (encode_all rs) (record_all write rs f)
unfolding record_all trace_record
record_all-Appended write [] f w = (f.writes, rw (append-nil f.bytes) refl)
record_all-Appended write (r ∷ rs) f w =
    let (m, e) = write_all-Appended write 24 (encode_record r) f w (omega arith) in
    let g : File = record { bytes = f.bytes ++ encode_record r; writes = m } in
    let (n, done) = record_all-Appended write rs g w in
    (
      n,
      rw e (
          done
          ∙ ap {A = List ℕ} {B = Result File} (λ xs. ok (record { bytes = xs; writes = n }))
              (append_assoc f.bytes (encode_record r) (encode_all rs))),
    )

from_le-le : (v : ℕ) → v < 2 ^ 32 → from_le (le 4 v) ≡ v
from_le-le v small = omega arith

-- Every chunk of the records is a 32-bit number.
abbrev pub AreSmall : List Record → Type 0
AreSmall [] = Unit {0}
AreSmall (r ∷ rs) = (r.chunk_id < 2 ^ 32) × AreSmall rs

read_one :
    (read : ℕ → ℕ → Option ℕ) (r : Record) (bytes : List ℕ)
    → IsRead read
    → read_exactly read 24 (encode_record r ++ bytes) ≡ some (encode_record r, bytes)
read_one read r bytes rd =
    let left = length (encode_record r ++ bytes) in
    let full : min 24 left ≡ 24 = omega arith in
    let whole : read 24 left ≡ some 24 = rd 24 left ∙ ap some full in rw (read_exactly, whole) refl

read_records-encode_all :
    (read : ℕ → ℕ → Option ℕ) (rs : List Record) (fuel : ℕ)
    → IsRead read
    → AreSmall rs
    → length (encode_all rs) < fuel
    → read_records read fuel (encode_all rs) ≡ ok (map (λ r. r.chunk_id) rs)
unfolding read_records
read_records-encode_all read rs zero rd small enough = absurd (omega arith)
read_records-encode_all read [] (suc fuel) rd small enough = rw (read_records, rd 24 0) refl
read_records-encode_all read (r ∷ rs) (suc fuel) rd (here, small) enough =
    let long : length (encode_record r ++ encode_all rs) ≡ 24 + length (encode_all rs) =
      omega arith in
    let rest = read_records-encode_all read rs fuel rd small (omega (arith, long, enough)) in
    rw (read_records, read_one read r (encode_all rs) rd, rest, from_le-le r.chunk_id here) refl

-- For a `write` that writes at least one byte and no more than it is given at each call, and a `read` that
-- returns what is wanted or all that is left: a trace that is opened as a reference trace and given any records
-- with 32-bit chunk numbers is written to the end, and `load_reference_string` reads the records' chunks back
-- from it, in order; opened as a fault trace it is written as well, and the solver refuses it.
pub load_reference_string-record_all :
    (write read : ℕ → ℕ → Option ℕ) (rs : List Record)
    → IsWrite write
    → IsRead read
    → AreSmall rs
    → ((f : File) × ((trace_open write 0 >>= record_all write rs) ≡ ok f)
        × (load_reference_string read f.bytes ≡ ok (map (λ r. r.chunk_id) rs)))
      × ((f : File) × ((trace_open write 1 >>= record_all write rs) ≡ ok f)
          × (load_reference_string read f.bytes ≡ abort Result.trace_is_fault))
unfolding trace_open load_reference_string trace_read_header
load_reference_string-record_all write read rs w rd small = (
  let (f, e, same) = written 0 in (f, e, rw same loaded),
  let (f, e, same) = written 1 in (f, e, rw same refused),
)
  where
    written :
        (t : ℕ)
        → (f : File) × ((trace_open write t >>= record_all write rs) ≡ ok f)
          × (f.bytes ≡ encode_header t ++ encode_all rs)
    written t =
        let (m, opened) =
          write_all-Appended write 8 (encode_header t) (record { bytes = []; writes = 0 }) w
            (omega arith) in
        let g : File = record { bytes = encode_header t; writes = m } in
        let (n, done) = record_all-Appended write rs g w in
        (record { bytes = encode_header t ++ encode_all rs; writes = n }, rw opened done, refl)

    header :
        (t : ℕ)
        → read_exactly read 8 (encode_header t ++ encode_all rs)
          ≡ some (encode_header t, encode_all rs)
    header t =
        let left = length (encode_header t ++ encode_all rs) in
        let full : min 8 left ≡ 8 = omega arith in
        let whole : read 8 left ≡ some 8 = rd 8 left ∙ ap some full in rw (read_exactly, whole) refl

    loaded :
        load_reference_string read (encode_header 0 ++ encode_all rs)
        ≡ ok (map (λ r. r.chunk_id) rs)
    loaded =
        rw (load_reference_string, trace_read_header, header 0)
          (read_records-encode_all read rs (suc (length (encode_all rs))) rd small (omega arith))

    refused :
        load_reference_string read (encode_header 1 ++ encode_all rs) ≡ abort Result.trace_is_fault
    refused = rw (load_reference_string, trace_read_header, header 1) refl
