-- ===== src/Replay/Pages.antt =====
-- The partition of a chunk's pages among the threads of a replay, src/replay.c.
use residctl.Prelude.{
  ℕ, zero, suc, ◌+◌, ◌-◌, ◌*◌, ◌%◌, ◌≡◌, ◌≤◌, ◌<◌, refl, arith, if◌then◌else◌, ltb, ◌==◌, Bool,
  true, List, [], ◌∷◌, inl, inr, Bool-cases, ℕ_discrete, min,
}
use native.Mathlib.Nat.{mod-lt, mul-le-mul_right}
use residctl.Replay.{my_reads, my_bytes}

-- How often the byte at the offset is read.
abbrev pub times : ℕ → List (ℕ × ℕ) → ℕ
times at [] = 0
times at ((off, bytes) ∷ reads) = (if off == at then 1 else 0) + times at reads

-- Every read is of the first byte of a page of the chunk, and counts the page up to the chunk's end.
abbrev pub ArePages : (page len : ℕ) → List (ℕ × ℕ) → Type 0
ArePages page len [] = Unit
ArePages page len ((off, bytes) ∷ reads) =
    ((j : ℕ) × (off ≡ j * page))
    × (off < len)
    × (bytes ≡ min page (len - off))
    × ArePages page len reads

-- The bytes that the first `k` threads count.
abbrev pub shared : (page nt len : ℕ) (k fuel page_idx off : ℕ) → ℕ
shared page nt len zero fuel page_idx off = 0
shared page nt len (suc k) fuel page_idx off =
    my_bytes (my_reads page nt k len fuel page_idx off) + shared page nt len k fuel page_idx off

abbrev once : Bool → ℕ
once b = if b then 1 else 0

-- What lies before the loop is not read any more.
times-past :
    (page nt tid len fuel i off at : ℕ)
    → at < off
    → times at (my_reads page nt tid len fuel i off) ≡ 0
unfolding my_reads
times-past page nt tid len zero i off at past = refl
times-past page nt tid len (suc fuel) i off at past =
    let rest = times-past page nt tid len fuel (suc i) (off + page) at (omega arith) in
    ground (arith, rest)

-- A page that the loop has not passed is read once by its thread and by no other.
times-page :
    (page nt tid len fuel i off j : ℕ)
    → 0 < page
    → off ≡ i * page
    → len ≤ off + fuel * page
    → i ≤ j
    → j * page < len
    → times (j * page) (my_reads page nt tid len fuel i off) ≡ once ((j % nt) == tid)
unfolding my_reads
times-page page nt tid len zero i off j bytes begun enough ahead inside =
    absurd (omega (arith, mul-le-mul_right page ahead))
times-page page nt tid len (suc fuel) i off j bytes begun enough ahead inside =
    elim (ℕ_discrete i j) [
      | yes here ↦
          let rest =
            times-past page nt tid len fuel (suc i) (off + page) (i * page) (omega arith) in
          let inside' : i * page < len = rw (← here) at inside in
          let begins : ltb off len ≡ true = ground arith in
          let it : off == i * page ≡ true = ground arith in
          rw (← here, begins)
            (elim (Bool-cases ((i % nt) == tid)) [
              | inr other ↦ rw (other, rest) refl
              | inl mine ↦ rw (mine, it, rest) refl
            ])
      | no apart ↦
          let next : suc i ≤ j = omega arith in
          let further : suc i * page ≤ j * page = mul-le-mul_right page next in
          let rest =
            times-page page nt tid len fuel (suc i) (off + page) j bytes (omega arith) (omega arith)
              next inside in
          let before : off < j * page = omega arith in ground (arith, rest, before)
    ]

my_reads-ArePages :
    (page nt tid len fuel i off : ℕ)
    → off ≡ i * page
    → ArePages page len (my_reads page nt tid len fuel i off)
unfolding my_reads
my_reads-ArePages page nt tid len zero i off begun = tt
my_reads-ArePages page nt tid len (suc fuel) i off begun =
    let rest = my_reads-ArePages page nt tid len fuel (suc i) (off + page) (omega arith) in
    elim (Bool-cases (ltb off len)) [
      | inr past ↦ rw past tt
      | inl inside ↦ rw inside (elim (Bool-cases ((i % nt) == tid)) [
        | inr other ↦ rw other rest
        | inl mine ↦ rw mine ((i, begun), ground arith, ground arith, rest)
      ])
    ]

shared-past : (page nt len k fuel i off : ℕ) → len ≤ off → shared page nt len k fuel i off ≡ 0
unfolding my_reads
shared-past page nt len zero fuel i off past = refl
shared-past page nt len (suc k) zero i off past =
    omega (arith, shared-past page nt len k zero i off past)
shared-past page nt len (suc k) (suc fuel) i off past =
    let rest = shared-past page nt len k (suc fuel) i off past in ground (arith, rest)

-- The first page is counted by one thread.
shared-page :
    (page nt len k fuel i off : ℕ)
    → off < len
    → shared page nt len k (suc fuel) i off
      ≡ (if ltb (i % nt) k then (if ltb (len - off) page then len - off else page) else 0)
        + shared page nt len k fuel (suc i) (off + page)
unfolding my_reads
shared-page page nt len zero fuel i off inside = ground arith
shared-page page nt len (suc k) fuel i off inside =
    ground (arith, shared-page page nt len k fuel i off inside)

shared-len :
    (page nt len fuel i off : ℕ)
    → 0 < nt
    → 0 < page
    → len ≤ off + fuel * page
    → shared page nt len nt fuel i off ≡ len - off
shared-len page nt len zero i off threads bytes enough =
    omega (arith, shared-past page nt len nt zero i off (omega arith))
shared-len page nt len (suc fuel) i off threads bytes enough = elim (Bool-cases (ltb off len)) [
  | inr past ↦
      let out : len ≤ off = ground arith in
      omega (arith, shared-past page nt len nt (suc fuel) i off out)
  | inl inside ↦
      let begins : off < len = ground arith in
      let rest =
        shared-len page nt len fuel (suc i) (off + page) threads bytes (omega (arith, enough)) in
      let here : i % nt < nt = mod-lt i threads in
      ground (arith, rest, here, shared-page page nt len nt fuel i off begins)
]

-- For at least one thread, pages of at least one byte, and any chunk's length, with one round of fuel for
-- each page: the first byte of each page of the chunk is read exactly once by the thread whose number is the
-- page's modulo the number of threads, and by no other thread. Every read of a thread is of the first byte
-- of a page of the chunk and counts the page's bytes, up to the chunk's end. The bytes that all threads
-- together count are the chunk's length.
pub my_reads-once :
    (page nt len fuel : ℕ)
    → 0 < nt
    → 0 < page
    → len ≤ fuel * page
    → ((j tid : ℕ)
        → j * page < len
        → times (j * page) (my_reads page nt tid len fuel 0 0) ≡ (if (j % nt) == tid then 1 else 0))
      × ((tid : ℕ) → ArePages page len (my_reads page nt tid len fuel 0 0))
      × (shared page nt len nt fuel 0 0 ≡ len)
my_reads-once page nt len fuel threads bytes enough = (
  λ j tid inside.
      times-page page nt tid len fuel 0 0 j bytes (omega arith) (omega arith) (omega arith) inside,
  λ tid. my_reads-ArePages page nt tid len fuel 0 0 (omega arith),
  omega (arith, shared-len page nt len fuel 0 0 threads bytes (omega arith)),
)
