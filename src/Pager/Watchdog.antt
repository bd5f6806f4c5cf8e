-- ===== src/Pager/Watchdog.antt =====
-- The watchdog reclaims the orphaned fetches, and nothing else.
use residctl.Prelude.{
  not, leb, ◌&&◌, true, ◌⊎◌, false, ◌≤◌, sub64, ℕ, zero, suc, ◌+◌, ◌<◌, ◌≡◌, ◌≢◌, refl, ◌∙◌, ap,
  inl, inr, Bool, List, [], ◌∷◌, some, arith, ◌*◌, ◌==◌, if◌then◌else◌, get_elem?,
  get_elem?-set_self, get_elem?-set_ne, get_elem?-lt, Bool-cases,
}
use residctl.State.{Chunk, ChunkState, Region, Settings}
use residctl.Kernel.{Kernel}
use residctl.Worker.{is_fetching, enter, abandon_fetch}
use residctl.Worker.Settle.{abandon_eq}
use residctl.Pager.{
  is_fetching, is_orphan, timeout_ns, count_timeout, watchdog_from, fetching_watchdog, tick,
}

-- One round of the loop: the region after it.
abbrev round : ℕ → (ℕ → Bool) → ℕ → Chunk → Region → Region
round now locked i c r =
    if is_orphan now (timeout_ns r) (locked i) c then count_timeout (abandon_fetch r i) else r

-- The chunk after its round.
abbrev pub reclaimed : ℕ → ℕ → Bool → Chunk → Chunk
reclaimed now t locked c = if is_orphan now t locked c then enter ChunkState.absent 0 c else c

abbrev Round : ℕ → (ℕ → Bool) → ℕ → Chunk → Region → Region → Type 0
Round now locked i c r s =
    (s.settings ≡ r.settings)
    × (get_elem? s.chunks i ≡ some (reclaimed now (timeout_ns r) (locked i) c))
    × ((j : ℕ) → i ≢ j → get_elem? s.chunks j ≡ get_elem? r.chunks j)

round-Round :
    (now : ℕ) (locked : ℕ → Bool) (i : ℕ) (c : Chunk) (r : Region)
    → get_elem? r.chunks i ≡ some c
    → Round now locked i c r (round now locked i c r)
round-Round now locked i c r got = elim (Bool-cases (is_orphan now (timeout_ns r) (locked i) c)) [
  | inr fine ↦ rw fine (refl, got, λ j ne. refl)
  | inl orphan ↦
      rw (orphan, abandon_eq r i c got)
        (
          refl,
          get_elem?-set_self r.chunks i (enter ChunkState.absent 0 c) (get_elem?-lt r.chunks i got),
          λ j ne. get_elem?-set_ne r.chunks i j (enter ChunkState.absent 0 c) ne,
        )
]

abbrev At : List Chunk → ℕ → Region → Type 0
At cs i r = (j : ℕ) (c : Chunk) → get_elem? cs j ≡ some c → get_elem? r.chunks (i + j) ≡ some c

first_round :
    (now : ℕ) (locked : ℕ → Bool) (c : Chunk) (cs : List Chunk) (i : ℕ) (r : Region)
    → At (c ∷ cs) i r
    → Round now locked i c r (round now locked i c r)
first_round now locked c cs i r at =
    let first : i + 0 ≡ i = omega arith in round-Round now locked i c r (rw first at (at 0 c refl))

later_rounds :
    (now : ℕ) (locked : ℕ → Bool) (c : Chunk) (cs : List Chunk) (i : ℕ) (r : Region)
    → At (c ∷ cs) i r
    → At cs (i + 1) (round now locked i c r)
later_rounds now locked c cs i r at n d got =
    let there : i + 1 + n ≡ i + suc n = omega arith in
    let (_, _, others) = first_round now locked c cs i r at in
    rw there (others (i + suc n) (λ same. absurd (omega arith)) ∙ at (suc n) d got)

watchdog_from_keeps :
    (now : ℕ) (locked : ℕ → Bool) (cs : List Chunk) (i : ℕ) (r : Region)
    → At cs i r
    → (j : ℕ) → j < i
    → get_elem? (watchdog_from now locked cs i r).chunks j ≡ get_elem? r.chunks j
unfolding watchdog_from
watchdog_from_keeps now locked [] i r at j lt = refl
watchdog_from_keeps now locked (c ∷ cs) i r at j lt =
    let (_, _, others) = first_round now locked c cs i r at in
    watchdog_from_keeps now locked cs (i + 1) (round now locked i c r)
      (later_rounds now locked c cs i r at) j (omega arith)
    ∙ others j (λ same. absurd (omega arith))

watchdog_from_lem :
    (now : ℕ) (locked : ℕ → Bool) (cs : List Chunk) (i : ℕ) (r : Region) (j : ℕ) (d : Chunk)
    → At cs i r
    → get_elem? cs j ≡ some d
    → get_elem? (watchdog_from now locked cs i r).chunks (i + j)
      ≡ some (reclaimed now (timeout_ns r) (locked (i + j)) d)
unfolding watchdog_from
watchdog_from_lem now locked [] i r j d at got = absurd (ground arith)
watchdog_from_lem now locked (c ∷ cs) i r zero d at got =
    let first : i + 0 ≡ i = omega arith in
    let same : c ≡ d = ground arith in
    let (_, here, _) = first_round now locked c cs i r at in
    rw first (
      watchdog_from_keeps now locked cs (i + 1) (round now locked i c r)
        (later_rounds now locked c cs i r at) i (omega arith)
      ∙ here
      ∙ ap (λ x. some (reclaimed now (timeout_ns r) (locked i) x)) same)
watchdog_from_lem now locked (c ∷ cs) i r (suc j) d at got =
    let there : i + 1 + j ≡ i + suc j = omega arith in
    let (settings, _, _) = first_round now locked c cs i r at in
    rw⁻¹ there (
      watchdog_from_lem now locked cs (i + 1) (round now locked i c r) j d
        (later_rounds now locked c cs i r at) got
      ∙ ap (λ (t : Settings). some (reclaimed now (limit t) (locked (i + 1 + j)) d)) settings)
  where
    limit : Settings → ℕ
    limit t = (if t.fetching_timeout_ms == 0 then 30000 else t.fetching_timeout_ms) * 1000000

watchdog_chunk :
    (k : Kernel) (locked : ℕ → Bool) (r : Region) (i : ℕ) (c : Chunk)
    → get_elem? r.chunks i ≡ some c
    → get_elem? (fetching_watchdog k locked r).chunks i
      ≡ some (reclaimed (k.clock r.clock_reads) (timeout_ns r) (locked i) c)
unfolding fetching_watchdog
watchdog_chunk k locked r i c got =
    let here : 0 + i ≡ i = omega arith in
    rw here at (
      watchdog_from_lem (k.clock r.clock_reads) locked r.chunks 0 (tick r) i c
        (λ j d e. let there : 0 + j ≡ j = omega arith in rw there e) got)

-- The timeout of the region in nanoseconds: 30 s when none is set.
abbrev pub Limit : Region → ℕ → Type 0
Limit r limit =
    (r.fetching_timeout_ms ≡ 0 → limit ≡ 30000 * 1000000)
    × (r.fetching_timeout_ms ≢ 0 → limit ≡ r.fetching_timeout_ms * 1000000)

pub timeout_ns-Limit : (r : Region) → Limit r (timeout_ns r)
timeout_ns-Limit r = (λ unset. ground arith, λ given. ground arith)

-- Let a chunk stand in the table, and let `limit` be the region's timeout in nanoseconds, 30 s if none is
-- set. If the chunk is in flight, with a start noted, for the timeout or longer by the pass's one reading of
-- the clock, and nobody holds its lock, then a pass of the watchdog makes it absent with the note cleared.
-- If it is not in flight, has no start noted, has been in flight for less than the timeout, or has its lock
-- held, then it is after the pass as it was.
pub fetching_watchdog_reclaims :
    (k : Kernel) (locked : ℕ → Bool) (r : Region) (i : ℕ) (c : Chunk) (limit : ℕ)
    → get_elem? r.chunks i ≡ some c
    → Limit r limit
    → let age = sub64 (k.clock r.clock_reads) c.fetching_since_ns in
      let after = get_elem? (fetching_watchdog k locked r).chunks i in
      (c.state ≡ ChunkState.fetching
        → c.fetching_since_ns ≢ 0
        → limit ≤ age
        → locked i ≡ false
        → after ≡ some (record c { state = ChunkState.absent; fetching_since_ns = 0 }))
      × ((c.state ≢ ChunkState.fetching)
            ⊎ ((c.fetching_since_ns ≡ 0) ⊎ ((age < limit) ⊎ (locked i ≡ true)))
          → after ≡ some c)
fetching_watchdog_reclaims k locked r i c limit got (unset, given) =
    let now = k.clock r.clock_reads in
    let told : limit ≡ timeout_ns r = ground arith in
    let swept = watchdog_chunk k locked r i c got in
    (
      λ flying noted long free.
          let orphan : is_orphan now (timeout_ns r) (locked i) c ≡ true =
            rw (flying, free) (ground arith) in
          swept ∙ rw orphan refl,
      λ fine. swept ∙ rw (spared now (timeout_ns r) (rw told at fine)) refl,
    )
  where
    spared :
        (now t : ℕ)
        → (c.state ≢ ChunkState.fetching)
          ⊎ ((c.fetching_since_ns ≡ 0) ⊎ ((sub64 now c.fetching_since_ns < t) ⊎ (locked i ≡ true)))
        → is_orphan now t (locked i) c ≡ false
    spared now t fine = elim fine [
      | inl other ↦ elsewhere c.state other
      | inr (inl none_noted) ↦ rw none_noted (ground arith)
      | inr (inr (inl young)) ↦ ground arith
      | inr (inr (inr held)) ↦ rw held (ground arith)
    ]
      where
        elsewhere :
            (x : ChunkState)
            → x ≢ ChunkState.fetching
            → (is_fetching x
                && (not (c.fetching_since_ns == 0)
                    && (leb t (sub64 now c.fetching_since_ns) && not (locked i))))
              ≡ false
        elsewhere ChunkState.absent other = refl
        elsewhere ChunkState.fetching other = absurd (other refl)
        elsewhere ChunkState.resident other = refl
