-- ===== src/Worker/Demand.antt =====
-- A demand fetch leaves its chunk resident or absent, and the region sound.
use residctl.Prelude.{
  ℕ, zero, suc, ◌+◌, ◌^◌, ◌≤◌, ◌<◌, ◌≡◌, refl, inl, inr, Bool, true, false, Option, none, some,
  arith, ltb, sub32, ◌==◌, if◌then◌else◌, get_elem?, Bool-cases, Option-cases,
}
use residctl.Result.{Result, ok, abort, ◌>>=◌}
use residctl.State.{Region, Policy}
use residctl.Kernel.{Kernel}
use residctl.Policy.{predict_next}
use residctl.Budget.{ensure_budget}
use residctl.Budget.Accounts.{Inv}
use residctl.Budget.Steps.{IsKernelFault}
use residctl.Budget.Frame.{Frame, Frame-refl, Frame-trans}
use residctl.Budget.Ensure.{Ensured, ensure_budget-Ensured}
use residctl.Pool.{Pool, top_up, top_up_loop, wanted, enqueue_prefetch}
use residctl.Worker.{retry, reserve_demand}

-- What the other threads do during a sleep keeps the region sound and changes no more than evictions do.
abbrev pub AreConsiderate : (ℕ → Region → Region) → Type 0
AreConsiderate sleep_others =
    (n : ℕ) (r : Region) → Inv r → Inv (sleep_others n r) × Frame r (sleep_others n r)

abbrev pub Reserved : Region → ℕ → Result (Bool × Region) → Type 0
Reserved r need (abort x) = IsKernelFault x
Reserved r need (ok (true, r')) = Inv r' × Frame r r' × (need ≤ r'.reserved_bytes)
Reserved r need (ok (false, r')) = Inv r' × Frame r r'

Reserved-trans :
    (r s : Region) (need : ℕ)
    → Frame r s
    → (o : Result (Bool × Region)) → Reserved s need o
    → Reserved r need o
Reserved-trans r s need f (abort x) h = h
Reserved-trans r s need f (ok (true, t)) (v, g, enough) = (v, Frame-trans f g, enough)
Reserved-trans r s need f (ok (false, t)) (v, g) = (v, Frame-trans f g)

-- One call of `ensure_budget`, and what is done if it refuses.
then_Reserved :
    (r s : Region) (need : ℕ) (rest : Region → Result (Bool × Region))
    → Frame r s
    → ((t : Region) → Inv t → Reserved t need (rest t))
    → (o : Result (Bool × Region)) → Ensured s need o
    → Reserved r need (do (granted, t) ← o; if granted then ok (true, t) else rest t)
then_Reserved r s need rest f next (abort x) fault = fault
then_Reserved r s need rest f next (ok (true, t)) ((v, g), exact) =
    (v, Frame-trans f g, omega (arith, exact))
then_Reserved r s need rest f next (ok (false, t)) ((v, g), _, _, _, _) =
    Reserved-trans r t need (Frame-trans f g) (rest t) (next t v)

retry-Reserved :
    (k : Kernel) (sleep_others : ℕ → Region → Region) (need attempts : ℕ) (r : Region)
    → AreConsiderate sleep_others
    → need < 2 ^ 62
    → Inv r
    → Reserved r need (retry k sleep_others need attempts r)
unfolding retry
retry-Reserved k sleep_others need zero r calm small v = (v, Frame-refl r)
retry-Reserved k sleep_others need (suc attempts) r calm small v =
    let (w, f) = calm attempts r v in
    then_Reserved r (sleep_others attempts r) need (retry k sleep_others need attempts) f
      (λ t u. retry-Reserved k sleep_others need attempts t calm small u)
      (ensure_budget k (sleep_others attempts r) need)
      (ensure_budget-Ensured k (sleep_others attempts r) need small w)

pub reserve_demand-Reserved :
    (k : Kernel) (sleep_others : ℕ → Region → Region) (need : ℕ) (r : Region)
    → AreConsiderate sleep_others
    → need < 2 ^ 62
    → Inv r
    → Reserved r need (reserve_demand k sleep_others need r)
unfolding reserve_demand
reserve_demand-Reserved k sleep_others need r calm small v =
    then_Reserved r r need (retry k sleep_others need 200) (Frame-refl r)
      (λ t u. retry-Reserved k sleep_others need 200 t calm small u) (ensure_budget k r need)
      (ensure_budget-Ensured k r need small v)

-- The pool's work changes nothing of the region but the count of clock readings.
top_up_loop-region :
    (k : Kernel) (policy : Policy) (just left cursor : ℕ) (r : Region) (p : Pool)
    → (n : ℕ) × ((top_up_loop k policy just left cursor (r, p)).0 ≡ record r { clock_reads = n })
unfolding top_up_loop
top_up_loop-region k policy just zero cursor r p = (_, refl)
top_up_loop-region k policy just (suc left) cursor r p =
    elim (Option-cases (predict_next policy cursor)) [
      | inl e ↦ rw (e, top_up_loop) (_, refl)
      | inr (idx, e) ↦ elim (Option-cases (get_elem? r.chunks idx)) [
        | inl out ↦ rw (e, top_up_loop, out) (_, refl)
        | inr (c, got) ↦ elim (Bool-cases (idx == just)) [
          | inl same ↦ rw (e, top_up_loop, got, same) (_, refl)
          | inr other ↦
              let (n, rest) =
                top_up_loop-region k policy just left idx
                  (record r { clock_reads = r.clock_reads + 1 })
                  (if wanted p idx c (k.clock r.clock_reads) then enqueue_prefetch p idx else p) in
              rw (e, top_up_loop, got, other) (n, rest)
        ]
      ]
    ]

pub top_up-region :
    (k : Kernel) (just : ℕ) (r : Region) (p : Pool)
    → (n : ℕ) × ((top_up k just (r, p)).0 ≡ record r { clock_reads = n })
unfolding top_up
top_up-region k just r p = finish r.policy
  where
    finish :
        (o : Option Policy)
        → (n : ℕ) × ((elim o as (λ _. Region × Pool) [
          | none ↦ (r, p)
          | some policy ↦
              top_up_loop k policy just
                (if ltb p.outstanding p.depth then sub32 p.depth p.outstanding else 0)
                just
                (r, p)
        ]).0
            ≡ record r { clock_reads = n })
    finish none = (_, refl)
    finish (some policy) = top_up_loop-region k policy just _ just r p
