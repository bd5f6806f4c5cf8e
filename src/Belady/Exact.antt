-- ===== src/Belady/Exact.antt =====
-- `belady_simulate` of src/belady.c against `naive_belady` of src/belady_main.c.
use residctl.Prelude.{
  get_or-replicate, true-ne-false, ℕ, suc, ◌+◌, ◌-◌, ◌^◌, ◌≡◌, ◌≤◌, ◌<◌, refl, sym, subst, ◌∙◌,
  false, List, [], ◌∷◌, some, none, arith, if◌then◌else◌, length, set, replicate, uint64_max,
  if-cases, length-replicate,
}
use residctl.Belady.{
  Solver, refer, simulate_from, fill, count_chunks, fresh_solver, belady_simulate,
}
use residctl.Belady.Naive.{next_occurrence, Slots, is_cached, choose_slot, naive_from, naive_belady}
use residctl.Belady.Sets.{Distinct}
use residctl.Belady.Occurrences.{fill-IsRead, AreBelow, count_chunks-AreBelow}
use residctl.Belady.Farthest.{chunks_in-start}
use residctl.Belady.Same.{IsSame}
use residctl.Belady.Matched.{
  both_hit, both_miss, both_miss, both_hit, IsPaired, IsMatched, refer-IsMatched,
}

simulate_from-naive_from :
    (n i : ℕ) (rest : List ℕ) (capacity : ℕ) (occurrence : List (List ℕ)) (cached : List ℕ)
    (s : Solver) (slots : Slots)
    → IsPaired n i rest capacity occurrence cached s slots
    → AreBelow n rest
    → 0 < capacity
    → i + length rest ≤ uint64_max
    → (simulate_from occurrence capacity rest s).misses ≡ s.misses + naive_from i rest slots
unfolding simulate_from naive_from
simulate_from-naive_from n i [] capacity occurrence cached s slots p b pos bound = omega arith
simulate_from-naive_from n i (x ∷ rest) capacity occurrence cached s slots p (low, b) pos bound =
    by_match
      (refer-IsMatched n i x rest capacity occurrence cached s slots p low pos
        (omega (arith, bound)))
      (λ cached' slots' q.
        simulate_from-naive_from n (suc i) rest capacity occurrence cached'
          (refer occurrence capacity x s) slots' q b pos (omega (arith, bound)))
  where
    slots'' : Slots
    slots'' = set slots (choose_slot (next_occurrence (suc i) rest) slots) (some x)

    t : Solver
    t = refer occurrence capacity x s

    by_match :
        IsMatched n i x rest capacity occurrence s slots t
        → ((cached' : List ℕ) (slots' : Slots)
            → IsPaired n (suc i) rest capacity occurrence cached' t slots'
            → (simulate_from occurrence capacity rest t).misses
              ≡ t.misses + naive_from (suc i) rest slots')
        → (simulate_from occurrence capacity rest t).misses
          ≡ s.misses
            + (if is_cached x slots
                then naive_from (suc i) rest slots
                else suc (naive_from (suc i) rest slots''))
    by_match (both_hit cached' on count q) go =
        if-cases (λ k. (simulate_from occurrence capacity rest t).misses ≡ s.misses + k)
          (is_cached x slots) (λ _. omega (arith, go cached' slots q, count))
          (λ e. absurd (true-ne-false (sym on ∙ e)))
    by_match (both_miss cached' off count q) go =
        if-cases (λ k. (simulate_from occurrence capacity rest t).misses ≡ s.misses + k)
          (is_cached x slots) (λ e. absurd (true-ne-false (sym e ∙ off)))
          (λ _. omega (arith, go cached' slots'' q, count))

-- For a cache of at least one chunk, chunk numbers below the greatest `uint32_t`, and a string shorter than
-- UINT64_MAX, the misses that `belady_simulate` counts, with its heap and its lazy deletion, are those of the
-- quadratic textbook simulation that the self-test compares it with.
pub belady_simulate-naive_belady :
    (ref : List ℕ) (capacity : ℕ)
    → 0 < capacity
    → AreBelow (2 ^ 32 - 1) ref
    → length ref ≤ uint64_max
    → belady_simulate ref capacity ≡ naive_belady ref capacity
unfolding belady_simulate naive_belady
belady_simulate-naive_belady ref capacity pos small bound =
    let n = count_chunks ref 0 in
    let below = count_chunks-AreBelow ref 0 small in
    omega (
      arith,
      simulate_from-naive_from n 0 ref capacity (fill 0 ref (replicate n [])) [] (fresh_solver n)
          (replicate capacity none) (start n below) below pos (omega (arith, bound)),
    )
  where
    start :
        (n : ℕ)
        → AreBelow n ref
        → IsPaired n 0 ref capacity
            (fill 0 ref (replicate n []))
            []
            (fresh_solver n)
            (replicate capacity none)
    start n below = record {
      solver = record {
        order = λ j some_j inside. absurd (omega (arith, inside));
        priorities = length-replicate n 0;
        flags = length-replicate n false;
        members = λ c. (λ x. absurd x, λ on. true-ne-false (sym on ∙ get_or-replicate n c false));
        distinct = tt;
        size = refl;
        prio = λ c x any. absurd x;
        live = λ c x any. absurd x;
      };
      read = fill-IsRead n ref below;
      same =
          subst (IsSame (next_occurrence 0 ref) []) (sym (chunks_in-start capacity))
            (record { size = refl; to = λ c live x. x; from = λ c live x. x });
      distinct = subst Distinct (sym (chunks_in-start capacity)) tt;
      width = length-replicate capacity none;
      small = omega arith;
    }
