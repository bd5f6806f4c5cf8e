-- ===== src/Budget/Steps.antt =====
-- What an eviction with its reconcile, and a broken pin, change and keep.
use residctl.Prelude.{
  ℕ, suc, ◌+◌, ◌≤◌, ◌≡◌, ◌≢◌, refl, sym, ◌∙◌, ◌⊎◌, inl, inr, true, false, some, arith, ltb, add64,
  if◌then◌else◌, get_elem?, set, get_elem?-set_ne, length-set, Bool-cases, Option-cases,
  true-ne-false,
}
use residctl.Result.{Abort, Result, ok, abort}
use residctl.Result
use residctl.State.{Chunk, ChunkState, Region}
use residctl.Kernel.{Kernel}
use residctl.Policy.Scan.{is_resident, evictable}
use residctl.Retain.{entries}
use residctl.Budget.{reconcile, evicted, evict_chunk, evict_and_reconcile, slack}
use residctl.Budget.Accounts.{
  weight, resident_sum, resident_count, resident_sum-set, resident_count-set, NotIn, Held-set,
  Held-NotIn, Inv,
}
use residctl.Budget.Rounds.{EvictableAt}
use residctl.Budget.Frame.{set-ComesFrom, Frame}

-- The ways to end that the kernel decides: memory.stat unreadable or diverging, a failed punch.
abbrev pub IsKernelFault : Abort → Type 0
IsKernelFault Result.stat_unreadable = Unit {0}
IsKernelFault Result.shmem_below = Unit {0}
IsKernelFault Result.shmem_above = Unit {0}
IsKernelFault Result.punch_failed = Unit {0}
IsKernelFault _ = ⊥

abbrev lower : Region → ℕ
lower r = add64 r.resident_bytes r.known_overhead_bytes

-- `reconcile` reads, and changes nothing else, or ends the process.
pub reconcile_cases :
    (k : Kernel) (r : Region)
    → (reconcile k r ≡ ok (record r { stat_reads = r.stat_reads + 1 }))
      ⊎ ((x : Abort) × (reconcile k r ≡ abort x) × IsKernelFault x)
unfolding reconcile
reconcile_cases k r = elim (Option-cases (k.shmem r.stat_reads)) [
  | inl unread ↦ inr (Result.stat_unreadable, rw unread, tt)
  | inr (shmem, e) ↦ elim (Bool-cases (ltb (add64 shmem (slack r.chunks)) (lower r))) [
    | inl below ↦ inr (Result.shmem_below, rw (e, below), tt)
    | inr high_enough ↦
        elim (Bool-cases (ltb (add64 (add64 (lower r) r.reserved_bytes) (slack r.chunks)) shmem)) [
          | inl above ↦ inr (Result.shmem_above, rw (e, high_enough, above), tt)
          | inr fits ↦ inl (rw (e, high_enough, fits))
        ]
  ]
]

evict_chunk_cases :
    (k : Kernel) (r : Region) (i : ℕ) (c : Chunk)
    → get_elem? r.chunks i ≡ some c
    → evictable c ≡ true
    → (evict_chunk k r i ≡ ok (evicted r i c)) ⊎ (evict_chunk k r i ≡ abort Result.punch_failed)
unfolding evict_chunk
evict_chunk_cases k r i c got fit = elim (Bool-cases (k.punch r.punches)) [
  | inl done ↦ inl (ground arith)
  | inr failed ↦ inr (ground arith)
]

-- The chunk's bytes leave the count, and nothing that was to be kept changes.
evicted_keeps :
    (r : Region) (i : ℕ) (c : Chunk)
    → get_elem? r.chunks i ≡ some c
    → evictable c ≡ true
    → Inv r
    → Inv (evicted r i c)
      × Frame r (evicted r i c)
      × (resident_count (evicted r i c).chunks + 1 ≡ resident_count r.chunks)
evicted_keeps r i c got fit v = (
  record {
    accounted = record {
      resident =
          omega (arith, summed, whole, v.accounted.resident, v.accounted.within, v.accounted.small);
      within =
          omega (arith, summed, whole, v.accounted.resident, v.accounted.within, v.accounted.small);
      small = v.accounted.small;
    };
    retained = record {
      ring = v.retained.ring;
      held = Held-set r.chunks (entries r.pinned) i gone v.retained.held apart;
    };
  },
  record {
    settings = refl;
    policy = refl;
    fault_seq = refl;
    clock_reads = refl;
    table = length-set r.chunks i gone;
    queue = λ j n. n;
    kept = λ j d got' out n.
        get_elem?-set_ne r.chunks i j gone (λ same. clash j d got' out same) ∙ got';
    from =
        set-ComesFrom r (entries r.pinned) i c gone got (refl, refl, refl) (ground arith)
          (λ j apart n. n);
  },
  counted,
)
  where
    gone : Chunk
    gone = record c { state = ChunkState.absent }

    is_in : is_resident c.state ≡ true
    is_in = ground arith

    whole : weight c ≡ c.len
    whole = rw is_in

    summed : resident_sum (set r.chunks i gone) + weight c ≡ resident_sum r.chunks + 0
    summed = resident_sum-set r.chunks i c gone got

    counted : resident_count (set r.chunks i gone) + 1 ≡ resident_count r.chunks
    counted =
        let one : ◌≡◌ {A = ℕ} (if is_resident c.state then 1 else 0) 1 = rw is_in in
        omega (arith, one, resident_count-set r.chunks i c gone got)

    apart : NotIn i (entries r.pinned)
    apart = Held-NotIn r.chunks (entries r.pinned) i c v.retained.held got (inr (ground arith))

    clash : (j : ℕ) (d : Chunk) → get_elem? r.chunks j ≡ some d → evictable d ≡ false → i ≡ j → ⊥
    clash j d got' out same =
        let here : c ≡ d = ground arith in true-ne-false (sym (rw here at fit) ∙ out)

-- What the eviction of chunk `i` gives, from `r`: the state after it, with one chunk fewer resident and
-- no other chunk changed, or a fault.
abbrev pub Stepped : Region → ℕ → Result Region → Type 0
Stepped r i (ok r') =
    Inv r'
    × Frame r r'
    × (suc (resident_count r'.chunks) ≤ resident_count r.chunks)
    × (r'.reserved_bytes ≡ r.reserved_bytes)
    × (r'.pinned ≡ r.pinned)
    × ((j : ℕ) → i ≢ j → get_elem? r'.chunks j ≡ get_elem? r.chunks j)
Stepped r i (abort x) = IsKernelFault x

pub evict_and_reconcile-Stepped :
    (k : Kernel) (r : Region) (i : ℕ)
    → EvictableAt r.chunks i
    → Inv r
    → Stepped r i (evict_and_reconcile k r i)
unfolding evict_and_reconcile
evict_and_reconcile-Stepped k r i (c, got, fit) v = elim (evict_chunk_cases k r i c got fit) [
  | inr failed ↦ rw failed tt
  | inl done ↦ rw done (elim (reconcile_cases k (evicted r i c)) [
    | inr (x, e, fault) ↦ rw e fault
    | inl e ↦
        let (inv, frame, less) = evicted_keeps r i c got fit v in
        rw e (
          record {
            accounted = record {
              resident = inv.accounted.resident;
              within = inv.accounted.within;
              small = inv.accounted.small;
            };
            retained = record { ring = inv.retained.ring; held = inv.retained.held };
          },
          record {
            settings = refl;
            policy = refl;
            fault_seq = refl;
            clock_reads = refl;
            table = frame.table;
            queue = frame.queue;
            kept = frame.kept;
            from = frame.from;
          },
          omega (arith, less),
          refl,
          refl,
          λ j apart. get_elem?-set_ne r.chunks i j (record c { state = ChunkState.absent }) apart,
        )
  ])
]
