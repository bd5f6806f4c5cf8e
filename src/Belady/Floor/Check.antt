-- ===== src/Belady/Floor/Check.antt =====
-- The solver never falls below the cyclic floor, src/belady.c and src/belady_main.c.
use residctl.Prelude.{
  ℕ, suc, ◌+◌, ◌-◌, ◌*◌, ◌^◌, ◌≡◌, ◌≤◌, ◌<◌, refl, sym, subst, Bool, true, false, not, List, Option,
  some, none, arith, length, replicate, ltb, uint64_max, if-cases,
}
use residctl.Result.{Result, ok, guard, ◌>>◌}
use residctl.Result
use residctl.Belady.{belady_simulate}
use residctl.Belady.Naive.{naive_from, naive_belady}
use residctl.Belady.Occurrences.{AreBelow}
use residctl.Belady.Exact.{belady_simulate-naive_belady}
use residctl.Belady.Floor.{detect_cyclic_scan, cyclic_floor, check_cyclic_floor_or_abort}
use residctl.Belady.Floor.Bound.{all_passes}
use residctl.Belady.Floor.Periods.{detect_cyclic_scan-IsScan}

floor-le :
    (n passes p k : ℕ) → 0 < passes → passes ≤ suc p → cyclic_floor n passes k ≤ n + p * (n - k)
unfolding cyclic_floor
floor-le n passes p k pos le =
    if-cases (λ x. n + (passes - 1) * x ≤ n + p * (n - k)) (ltb k n)
      (λ _. more (passes - 1) p (n - k) (omega (arith, le))) (λ _. omega arith)
  where
    more : (a b c : ℕ) → a ≤ b → n + a * c ≤ n + b * c
    more a b c le = grind arith

-- For a cache of at least one chunk, chunk numbers below the greatest `uint32_t`, and a string shorter than
-- UINT64_MAX: where `detect_cyclic_scan` finds a cyclic scan, the misses of `belady_simulate` are at least its
-- `cyclic_floor`, and on every string the check behind the solver returns: it never ends the process.
pub check_cyclic_floor_or_abort-belady_simulate :
    (ref : List ℕ) (capacity : ℕ)
    → 0 < capacity
    → AreBelow (2 ^ 32 - 1) ref
    → length ref ≤ uint64_max
    → ((n passes : ℕ)
        → detect_cyclic_scan ref ≡ some (n, passes)
        → cyclic_floor n passes capacity ≤ belady_simulate ref capacity)
      × ((b : Bool) × (check_cyclic_floor_or_abort ref capacity (belady_simulate ref capacity)
            ≡ ok b))
unfolding check_cyclic_floor_or_abort naive_belady
check_cyclic_floor_or_abort-belady_simulate ref capacity pos small bound =
    (above, by_scan (detect_cyclic_scan ref) refl)
  where
    above :
        (n passes : ℕ)
        → detect_cyclic_scan ref ≡ some (n, passes)
        → cyclic_floor n passes capacity ≤ belady_simulate ref capacity
    above n passes e =
        let (ws, p, whole, d, size, some_pass, le) =
          detect_cyclic_scan-IsScan ref n passes small e in
        let misses : length ws + p * (length ws - capacity) ≤ naive_belady ref capacity =
          subst
            (λ xs.
              length ws + p * (length ws - capacity) ≤ naive_from 0 xs (replicate capacity none))
            (sym whole) (all_passes p ws capacity d) in
        let misses' : n + p * (n - capacity) ≤ naive_belady ref capacity =
          subst (λ k. k + p * (k - capacity) ≤ naive_belady ref capacity) size misses in
        omega (
          arith,
          misses',
          floor-le n passes p capacity some_pass le,
          belady_simulate-naive_belady ref capacity pos small bound,
        )

    passes_check : (b : Bool) → b ≡ false → (guard (not b) Result.below_floor >> ok true) ≡ ok true
    passes_check true e = cc e
    passes_check false e = refl

    by_scan :
        (o : Option (ℕ × ℕ))
        → detect_cyclic_scan ref ≡ o
        → (b : Bool) × (elim o [
          | none ↦ ok false
          | some (n, passes) ↦
              guard
                (not (ltb (belady_simulate ref capacity) (cyclic_floor n passes capacity)))
                Result.below_floor
              >> ok true
        ]
            ≡ ok b)
    by_scan none e = (false, refl)
    by_scan (some (n, passes)) e =
        let le = above n passes e in
        (
          true,
          passes_check (ltb (belady_simulate ref capacity) (cyclic_floor n passes capacity))
              (ground (arith, le)),
        )
