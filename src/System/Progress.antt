-- ===== src/System/Progress.antt =====
-- A busy worker always has a step of its own, and each one brings it nearer to its end.
use residctl.Prelude.{
  Bool-cases, none, Option-cases, ℕ, zero, suc, ◌≡◌, ◌≢◌, refl, ◌⊎◌, inl, inr, some, Bool, true,
  false, arith, get_elem?, set, get_elem?-set_self, get_elem?-lt,
}
use residctl.Result.{ok, Result-cases}
use residctl.State.{Chunk, Region}
use residctl.Kernel.{Kernel}
use residctl.Fetch.Reads.{IsPread}
use residctl.Budget.{ensure_budget, ensure_budget_prefetch}
use residctl.Budget.Ensure.{ensure_budget-Ensured}
use residctl.Budget.Admit.{ensure_budget_prefetch-Admitted}
use residctl.Worker.{fetch_and_settle}
use residctl.Prefetch.{fetch_and_retain}
use residctl.System.{
  is_absent, IsUnlocked, target, wanting, Pc, idle, asking, granted, landed, departing, admitted,
  System, Step, Reach,
}
use residctl.System.Invariant.{IsSystem, small_chunk, in_file}
use residctl.System.Turns.{Advances, Proceeds, Waits, holder-cases}
use residctl.System.Landings.{fetch_and_settle-Settled}
use residctl.System.Stores.{fetch_and_retain-Retained}
use residctl.System.Reaching.{IsStarted, len_at, Reach-IsSystem}

module _ (k : Kernel) (r : Region) (s : System) (reads : IsPread k)
    (v : IsSystem (len_at r.chunks) r.settings s) (w : ℕ) where
  after :
      (pc pc' : Pc) → get_elem? s.workers w ≡ some pc → get_elem? (set s.workers w pc') w ≡ some pc'
  after pc pc' got = get_elem?-set_self s.workers w pc' (get_elem?-lt s.workers w got)

  asking-Proceeds :
      (i left : ℕ) → get_elem? s.workers w ≡ some (asking i left) → Proceeds k s w (asking i left)
  asking-Proceeds i left got =
      let (c, here, _, _) = v.owned.held w (asking i left) i (got, refl) in
      let ensured = ensure_budget-Ensured k s.region c.len (small_chunk v i c here) v.inv in
      elim (Result-cases (ensure_budget k s.region c.len)) [
        | inr (x, e) ↦ inr (x, (c, here, e), inl (rw e at ensured))
        | inl ((answer, r'), e) ↦ inl (next c here left answer r' got e)
      ]
    where
      next :
          (c : Chunk)
          → get_elem? s.region.chunks i ≡ some c
          → (left : ℕ) (answer : Bool) (r' : Region) → get_elem? s.workers w ≡ some (asking i left)
          → ensure_budget k s.region c.len ≡ ok (answer, r')
          → Advances k s w (asking i left)
      next c here left true r' got e =
          (_, granted i, Step.grant w i left c r' got here e, after _ (granted i) got, omega arith)
      next c here zero false r' got e =
          (_, idle, Step.abandon w i c r' got here e, after _ idle got, omega arith)
      next c here (suc left) false r' got e = (
        _,
        asking i left,
        Step.retry w i left c r' got here e,
        after _ (asking i left) got,
        omega arith,
      )

  granted-Proceeds : (i : ℕ) → get_elem? s.workers w ≡ some (granted i) → Proceeds k s w (granted i)
  granted-Proceeds i got =
      let (c, here, _, _) = v.owned.held w (granted i) i (got, refl) in
      let fetched = fetch_and_settle-Settled k s.region i c reads (in_file v i c here) in
      elim (Result-cases (fetch_and_settle k i c s.region)) [
        | inr (x, e) ↦ inr (x, (c, here, e), inr (rw e at fetched))
        | inl (r', e) ↦
            inl (_, landed i, Step.land w i c r' got here e, after _ (landed i) got, omega arith)
      ]

  departing-Proceeds :
      (i : ℕ) → get_elem? s.workers w ≡ some (departing i) → Proceeds k s w (departing i)
  departing-Proceeds i got =
      let (c, here, _, _) = v.owned.held w (departing i) i (got, refl) in
      let ensured =
        ensure_budget_prefetch-Admitted k s.region i c here (small_chunk v i c here) v.inv in
      elim (Result-cases (ensure_budget_prefetch k s.region i)) [
        | inr (x, e) ↦ inr (x, e, inl (rw e at ensured))
        | inl ((answer, r'), e) ↦ inl (next answer r' e)
      ]
    where
      next :
          (answer : Bool) (r' : Region)
          → ensure_budget_prefetch k s.region i ≡ ok (answer, r')
          → Advances k s w (departing i)
      next true r' e =
          (_, admitted i, Step.admit w i r' got e, after _ (admitted i) got, omega arith)
      next false r' e = (_, idle, Step.decline w i r' got e, after _ idle got, omega arith)

  admitted-Proceeds :
      (i : ℕ) → get_elem? s.workers w ≡ some (admitted i) → Proceeds k s w (admitted i)
  admitted-Proceeds i got =
      let (c, here, _, _) = v.owned.held w (admitted i) i (got, refl) in
      let fetched = fetch_and_retain-Retained k s.region i c reads (in_file v i c here) in
      elim (Result-cases (fetch_and_retain k i c s.region)) [
        | inr (x, e) ↦ inr (x, (c, here, e), inr (rw e at fetched))
        | inl (r', e) ↦ inl (_, idle, Step.store w i c r' got here e, after _ idle got, omega arith)
      ]

  -- A worker that has the lock of a chunk proceeds.
  holder-Proceeds :
      (pc : Pc) (i : ℕ) → get_elem? s.workers w ≡ some pc → target pc ≡ some i → Proceeds k s w pc
  holder-Proceeds idle i got aim = absurd (ground (arith, aim))
  holder-Proceeds (asking j left) i got aim = asking-Proceeds j left got
  holder-Proceeds (granted j) i got aim = granted-Proceeds j got
  holder-Proceeds (landed j) i got aim =
      inl (_, idle, Step.complete w j got, after (landed j) idle got, omega arith)
  holder-Proceeds (wanting j) i got aim = absurd (ground (arith, aim))
  holder-Proceeds (departing j) i got aim = departing-Proceeds j got
  holder-Proceeds (admitted j) i got aim = admitted-Proceeds j got

  -- Nobody holds the lock.
  free-Advances :
      (i : ℕ) (c : Chunk)
      → get_elem? s.workers w ≡ some (wanting i)
      → IsUnlocked s.workers i
      → get_elem? s.region.chunks i ≡ some c
      → Advances k s w (wanting i)
  free-Advances i c got free here = elim (Bool-cases (is_absent c.state)) [
    | inl away ↦ (
      _,
      departing i,
      Step.depart w i c got free here away,
      after (wanting i) (departing i) got,
      omega arith,
    )
    | inr near ↦
        (_, idle, Step.skip w i c got free here near, after (wanting i) idle got, omega arith)
  ]

-- In every state that the system reaches from a started region by steps in which no pass of the watchdog
-- finds an orphaned fetch, a worker that is not idle has a step of its own, after which it has fewer steps
-- left, or its next call ends the process for what the kernel did, or it has taken a prefetch. In the last
-- case it may also have to wait for the lock of the chunk, and then the worker that holds the lock has such
-- a step or such an end itself, so that no two workers wait for each other; or its prediction names no
-- chunk of the table.
pub Reach-progress :
    (k : Kernel) (r : Region) (s : System)
    → IsPread k
    → IsStarted r
    → Reach k r s
    → (w : ℕ) (pc : Pc) → get_elem? s.workers w ≡ some pc
    → pc ≢ idle
    → Proceeds k s w pc ⊎ Waits k s pc
Reach-progress k r s reads v path w pc got busy =
    let sound = Reach-IsSystem k r s reads v path in
    elim (Option-cases (target pc)) [
      | inr (i, aim) ↦ inl (holder-Proceeds k r s reads sound w pc i got aim)
      | inl aimless ↦ picked sound pc got busy aimless
    ]
  where
    lock :
        IsSystem (len_at r.chunks) r.settings s
        → (i : ℕ) → get_elem? s.workers w ≡ some (wanting i)
        → Proceeds k s w (wanting i) ⊎ Waits k s (wanting i)
    lock sound i got = elim (holder-cases s.workers i) [
      | inl (x, qc, (held, aim)) ↦
          inr (i, refl, inl (x, qc, (held, aim), holder-Proceeds k r s reads sound x qc i held aim))
      | inr free ↦ elim (Option-cases (get_elem? s.region.chunks i)) [
        | inl out ↦ inr (i, refl, inr out)
        | inr (c, here) ↦ inl (inl (free-Advances k r s reads sound w i c got free here))
      ]
    ]

    picked :
        IsSystem (len_at r.chunks) r.settings s
        → (pc : Pc) → get_elem? s.workers w ≡ some pc
        → pc ≢ idle
        → target pc ≡ none
        → Proceeds k s w pc ⊎ Waits k s pc
    picked sound idle got busy aim = absurd (busy refl)
    picked sound (asking i left) got busy aim = absurd (ground (arith, aim))
    picked sound (granted i) got busy aim = absurd (ground (arith, aim))
    picked sound (landed i) got busy aim = absurd (ground (arith, aim))
    picked sound (wanting i) got busy aim = lock sound i got
    picked sound (departing i) got busy aim = absurd (ground (arith, aim))
    picked sound (admitted i) got busy aim = absurd (ground (arith, aim))
