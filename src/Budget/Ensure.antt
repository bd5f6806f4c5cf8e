-- ===== src/Budget/Ensure.antt =====
-- `ensure_budget` reserves within the budget or finds nothing to evict, src/budget.c.
use residctl.Prelude.{
  ℕ, zero, suc, ◌+◌, ◌^◌, ◌≤◌, ◌<◌, ◌≡◌, refl, ◌∙◌, ◌⊎◌, inl, inr, Bool, true, false, [], arith,
  leb, ltb→le, add64, if◌then◌else◌, length, Bool-cases,
}
use residctl.Result.{Abort, Result, ok, abort, ◌>>=◌}
use residctl.State.{Region, Stats}
use residctl.Kernel.{Kernel}
use residctl.Retain.{entries}
use residctl.Budget.{
  evict_and_reconcile, break_pin, Round, evicts, breaks, stuck, demand_round, over, reserve,
  scheduled_reconcile, count_infeasible, ensure_loop, ensure_budget,
}
use residctl.Budget.Accounts.{resident_count, resident_count-le, Inv}
use residctl.Budget.Rounds.{NothingEvictable, RoundOk, demand_round-RoundOk}
use residctl.Budget.Steps.{IsKernelFault, Stepped, evict_and_reconcile-Stepped, reconcile_cases}
use residctl.Budget.Frame.{Frame, Frame-trans}
use residctl.Budget.Breaks.{break_pin_keeps}

-- The bytes that are resident or promised fit the budget, and all other parts of the region are sound.
abbrev pub Kept : Region → Region → Type 0
Kept r r' = Inv r' × Frame r r'

-- The request was granted: exactly `need` bytes are reserved more, within the budget.
abbrev pub Granted : Region → ℕ → Region → Type 0
Granted r need r' = Kept r r' × (r'.reserved_bytes ≡ r.reserved_bytes + need)

-- The request was refused: nothing is reserved, the bytes do not fit, and there is nothing to evict.
abbrev pub Refused : Region → ℕ → Region → Type 0
Refused r need r' =
    Kept r r'
    × (r'.reserved_bytes ≡ r.reserved_bytes)
    × (over r' need ≡ true)
    × NothingEvictable r'.chunks
    × (r'.prefetch_retention_pinned ≡ true → entries r'.pinned ≡ [])

abbrev pub Ensured : Region → ℕ → Result (Bool × Region) → Type 0
Ensured r need (abort x) = IsKernelFault x
Ensured r need (ok (true, r')) = Granted r need r'
Ensured r need (ok (false, r')) = Refused r need r'

-- A change of the counters that no account reads keeps everything.
pub Kept-counters :
    (r : Region) (fetches reads : ℕ) (s : Stats)
    → Inv r
    → Kept r (record r { fetches_since_reconcile = fetches; stat_reads = reads; stats = s })
Kept-counters r fetches reads s v = (
  record {
    accounted = record {
      resident = v.accounted.resident;
      within = v.accounted.within;
      small = v.accounted.small;
    };
    retained = record { ring = v.retained.ring; held = v.retained.held };
  },
  record {
    settings = refl;
    policy = refl;
    fault_seq = refl;
    clock_reads = refl;
    table = refl;
    queue = λ i n. n;
    kept = λ i c got out n. got;
    from = λ i c got. (c, got, (refl, refl, refl), inr (refl, λ n. n));
  },
)

pub reserve-Granted :
    (r : Region) (need : ℕ)
    → Inv r
    → need < 2 ^ 62
    → over r need ≡ false
    → Granted r need (reserve r need)
reserve-Granted r need v small fits = (
  (
    record {
      accounted = record {
        resident = v.accounted.resident;
        within = ground (arith, bounded, v.accounted.within, v.accounted.small);
        small = v.accounted.small;
      };
      retained = record { ring = v.retained.ring; held = v.retained.held };
    },
    record {
      settings = refl;
      policy = refl;
      fault_seq = refl;
      clock_reads = refl;
      table = refl;
      queue = λ i n. n;
      kept = λ i c got out n. got;
      from = λ i c got. (c, got, (refl, refl, refl), inr (refl, λ n. n));
    },
  ),
  exact,
)
  where
    bounded : add64 (add64 r.resident_bytes r.reserved_bytes) need ≤ r.budget_bytes
    bounded = ltb→le r.budget_bytes (add64 (add64 r.resident_bytes r.reserved_bytes) need) fits

    exact : add64 r.reserved_bytes need ≡ r.reserved_bytes + need
    exact = ground (arith, v.accounted.within, v.accounted.small)

-- What holds from a later state of a loop holds from an earlier one.
pub Ensured-trans :
    (r s : Region) (need : ℕ)
    → Frame r s
    → s.reserved_bytes ≡ r.reserved_bytes
    → (o : Result (Bool × Region)) → Ensured s need o
    → Ensured r need o
Ensured-trans r s need f e (abort x) h = h
Ensured-trans r s need f e (ok (true, r')) ((v, g), exact) = ((v, Frame-trans f g), ground arith)
Ensured-trans r s need f e (ok (false, r')) ((v, g), same, rest, absent, empty) =
    ((v, Frame-trans f g), same ∙ e, rest, absent, empty)

-- A step of the loop, then the rest of it.
then_Ensured :
    (r : Region) (need n i : ℕ) (loop : Region → Result (Bool × Region))
    → resident_count r.chunks < suc n
    → ((s : Region) → Inv s → resident_count s.chunks < n → Ensured s need (loop s))
    → (o : Result Region) → Stepped r i o
    → Ensured r need (o >>= loop)
then_Ensured r need n i loop enough rest (abort x) fault = fault
then_Ensured r need n i loop enough rest (ok s) (v, f, less, same, _, _) =
    Ensured-trans r s need f same (loop s) (rest s v (omega arith))

pub ensure_loop-Ensured :
    (k : Kernel) (need fuel : ℕ) (r : Region)
    → need < 2 ^ 62
    → Inv r
    → resident_count r.chunks < fuel
    → Ensured r need (ensure_loop k need fuel r)
unfolding ensure_loop
ensure_loop-Ensured k need zero r small v enough = absurd (omega arith)
ensure_loop-Ensured k need (suc fuel) r small v enough = elim (Bool-cases (over r need)) [
  | inr fits ↦ rw fits (reserve-Granted r need v small fits)
  | inl too_much ↦ rw too_much (
      round (λ s w enough'. ensure_loop-Ensured k need fuel s small w enough') too_much
        (demand_round r) (demand_round-RoundOk r v.retained))
]
  where
    round :
        ((s : Region)
          → Inv s
          → resident_count s.chunks < fuel
          → Ensured s need (ensure_loop k need fuel s))
        → over r need ≡ true
        → (o : Round) → RoundOk r o
        → Ensured r need (elim o [
          | evicts victim ↦ evict_and_reconcile k r victim >>= ensure_loop k need fuel
          | breaks victim ↦
              evict_and_reconcile k (break_pin r victim) victim >>= ensure_loop k need fuel
          | stuck ↦ ok (false, count_infeasible r)
        ])
    round rest too_much (evicts i) at_i =
        then_Ensured r need fuel i (ensure_loop k need fuel) enough rest (evict_and_reconcile k r i)
          (evict_and_reconcile-Stepped k r i at_i v)
    round rest too_much (breaks i) (inside, at_i) =
        let (w, f, count, same, free) = break_pin_keeps r i inside at_i v in
        let after = evict_and_reconcile k (break_pin r i) i >>= ensure_loop k need fuel in
        Ensured-trans r (break_pin r i) need f same after (
          then_Ensured (break_pin r i) need fuel i (ensure_loop k need fuel) (omega arith) rest
            (evict_and_reconcile k (break_pin r i) i)
            (evict_and_reconcile-Stepped k (break_pin r i) i free w))
    round rest too_much stuck (absent, empty) =
        (Kept-counters r _ _ _ v, refl, too_much, absent, empty)

-- The scheduled reconcile changes counters only, or ends the process.
pub scheduled_reconcile-Kept :
    (k : Kernel) (r : Region)
    → Inv r
    → ((s : Region) × (scheduled_reconcile k r ≡ ok s)
        × Inv s
        × Frame r s
        × (s.reserved_bytes ≡ r.reserved_bytes)
        × (s.chunks ≡ r.chunks)
        × (s.pinned ≡ r.pinned))
      ⊎ ((x : Abort) × (scheduled_reconcile k r ≡ abort x) × IsKernelFault x)
unfolding scheduled_reconcile
scheduled_reconcile-Kept k r v =
    elim (Bool-cases
      (if leb r.reconcile_interval 1 then true else leb r.reconcile_interval fetches)) [
        | inr later ↦
            let (w, f) = Kept-counters r fetches r.stat_reads r.stats v in
            inl (counted, rw later, w, f, refl, refl, refl)
        | inl due ↦ elim (reconcile_cases k counted) [
          | inr (x, e, fault) ↦ inr (x, rw (due, e), fault)
          | inl e ↦
              let (w, f) = Kept-counters r 0 (r.stat_reads + 1) r.stats v in
              inl (_, rw (due, e), w, f, refl, refl, refl)
        ]
      ]
  where
    fetches : ℕ
    fetches = add64 r.fetches_since_reconcile 1

    counted : Region
    counted = record r { fetches_since_reconcile = fetches }

-- From a sound region and for fewer than 2^62 bytes, `ensure_budget` grants the request (exactly these
-- bytes are reserved more, and resident and reserved bytes together stay within the budget), or refuses
-- it with the reservations unchanged when the bytes do not fit although no chunk is evictable and, if
-- retention is pinned, no prefetched chunk is left to break; or it ends the process, and then only for
-- what the kernel did (an unreadable or diverging memory.stat, a failed punch). The fuel never runs out,
-- the region stays sound, and every chunk that is not evictable and not in the retention queue is as
-- it was.
pub ensure_budget-Ensured :
    (k : Kernel) (r : Region) (need : ℕ)
    → need < 2 ^ 62
    → Inv r
    → Ensured r need (ensure_budget k r need)
unfolding ensure_budget
ensure_budget-Ensured k r need small v = elim (scheduled_reconcile-Kept k r v) [
  | inr (x, e, fault) ↦ rw e fault
  | inl (s, e, w, f, same, _, _) ↦ rw e (
      Ensured-trans r s need f same (ensure_loop k need (suc (length s.chunks)) s) (
        ensure_loop-Ensured k need (suc (length s.chunks)) s small w
          (omega (arith, resident_count-le s.chunks))))
]
