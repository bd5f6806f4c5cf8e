-- ===== src/System/Turns.antt =====
-- What a busy worker can do next: a step of its own, an end of the process, or a wait for a lock.
use residctl.Prelude.{
  ℕ_discrete, ◌∷◌, none, Option-cases, List, List, [], ◌∷◌, ℕ, zero, suc, ◌+◌, ◌<◌, ◌≡◌, ◌≢◌, refl,
  ◌⊎◌, inl, inr, some, arith, get_elem?,
}
use residctl.Result.{Abort, abort}
use residctl.State.{Chunk}
use residctl.Kernel.{Kernel}
use residctl.Fetch.Reads.{IsFetchFault}
use residctl.Budget.{ensure_budget, ensure_budget_prefetch}
use residctl.Budget.Steps.{IsKernelFault}
use residctl.Worker.{fetch_and_settle}
use residctl.Prefetch.{fetch_and_retain}
use residctl.System.{
  IsUnlocked, target, wanting, Pc, idle, asking, granted, landed, departing, admitted, System, Step,
}
use residctl.System.Owners.{Holds}

-- How many steps of its own a worker has left at most.
abbrev pub rank : Pc → ℕ
rank idle = 0
rank (asking i left) = left + 3
rank (granted i) = 2
rank (landed i) = 1
rank (wanting i) = 3
rank (departing i) = 2
rank (admitted i) = 1

-- The worker moves on.
abbrev pub Advances : Kernel → System → ℕ → Pc → Type 0
Advances k s w pc =
    (t : System) × (pc' : Pc) × Step k s t
    × (get_elem? t.workers w ≡ some pc')
    × (rank pc' < rank pc)

-- The worker's next call ends the process.
abbrev pub Ends : Kernel → System → Pc → Abort → Type 0
Ends k s idle x = ⊥
Ends k s (asking i left) x =
    (c : Chunk) × (get_elem? s.region.chunks i ≡ some c)
    × (ensure_budget k s.region c.len ≡ abort x)
Ends k s (granted i) x =
    (c : Chunk) × (get_elem? s.region.chunks i ≡ some c)
    × (fetch_and_settle k i c s.region ≡ abort x)
Ends k s (landed i) x = ⊥
Ends k s (wanting i) x = ⊥
Ends k s (departing i) x = ensure_budget_prefetch k s.region i ≡ abort x
Ends k s (admitted i) x =
    (c : Chunk) × (get_elem? s.region.chunks i ≡ some c)
    × (fetch_and_retain k i c s.region ≡ abort x)

-- The worker moves on, or the kernel has it end the process.
abbrev pub Proceeds : Kernel → System → ℕ → Pc → Type 0
Proceeds k s w pc =
    Advances k s w pc ⊎ ((x : Abort) × Ends k s pc x × (IsKernelFault x ⊎ IsFetchFault x))

-- It waits for the lock of its chunk, and the worker that holds the lock proceeds; or the prediction that
-- it took names no chunk.
abbrev pub Waits : Kernel → System → Pc → Type 0
Waits k s pc =
    (i : ℕ) × (pc ≡ wanting i)
    × (((x : ℕ) × (qc : Pc) × Holds s.workers x qc i × Proceeds k s x qc)
        ⊎ (get_elem? s.region.chunks i ≡ none))

-- A worker that holds the chunk's lock, or none does.
pub holder-cases :
    (ws : List Pc) (i : ℕ) → ((x : ℕ) × (qc : Pc) × Holds ws x qc i) ⊎ IsUnlocked ws i
holder-cases [] i = inr (λ w pc got aim. absurd (ground arith))
holder-cases (pc ∷ ws) i = elim (aims pc i) [
  | inl aim ↦ inl (0, pc, (refl, aim))
  | inr away ↦ elim (holder-cases ws i) [
    | inl (x, qc, (got, aim)) ↦ inl (suc x, qc, (got, aim))
    | inr free ↦ inr (λ w qc got aim. all w qc got aim away free)
  ]
]
  where
    aims : (pc : Pc) (i : ℕ) → (target pc ≡ some i) ⊎ (target pc ≢ some i)
    aims pc i = elim (Option-cases (target pc)) [
      | inl none_at ↦ inr (λ e. ground (arith, e, none_at))
      | inr (j, at_j) ↦ elim (ℕ_discrete j i) [
        | yes same ↦ inl (rw same at at_j)
        | no apart ↦ inr (λ e. apart (ground (arith, e, at_j)))
      ]
    ]

    all :
        (w : ℕ) (qc : Pc)
        → get_elem? (pc ∷ ws) w ≡ some qc
        → target qc ≡ some i
        → (target pc ≢ some i)
        → IsUnlocked ws i
        → ⊥
    all zero qc got aim away free = let same : pc ≡ qc = ground arith in away (rw same aim)
    all (suc w) qc got aim away free = free w qc got aim
