-- ===== src/Belady/Matched.antt =====
-- One reference of both simulations, src/belady.c and src/belady_main.c.
use residctl.Prelude.{
  Bool-cases, ℕ, suc, ◌+◌, ◌≡◌, ◌≢◌, ◌≤◌, ◌<◌, refl, sym, subst, ◌∙◌, inl, inr, true, false, List,
  [], ◌∷◌, some, arith, length, get_or, set, uint64_max, length-set,
}
use residctl.Belady.{Solver, next_pos, look_up, refer}
use residctl.Belady.Naive.{next_occurrence, Slots, is_cached, choose_slot}
use residctl.Belady.Sets.{In, Distinct, remove, length-remove}
use residctl.Belady.Evict.{IsSolver, Any}
use residctl.Belady.LookUp.{IsReferred, hit, filled, replaced, look_up-IsReferred, later-IsSolver}
use residctl.Belady.Occurrences.{IsRead, refer-IsRead, next_occurrence-other}
use residctl.Belady.Farthest.{chunks_in, is_cached-In}
use residctl.Belady.Slots.{added, IsReplaced, IsMissed, choose_slot-IsMissed}
use residctl.Belady.Slots
use residctl.Belady.Same.{
  next_occurrence-now, next_occurrence-bounds, next_occurrence-inj, IsSame, same_victims,
  hit-IsSame, added-IsSame, replaced-IsSame,
}

-- The caches of the two at the same point of the string.
pub record IsPaired (n i : ℕ) (rest : List ℕ) (capacity : ℕ) (occurrence : List (List ℕ))
    (cached : List ℕ) (s : Solver) (slots : Slots) : Type 0 where
  pub solver : IsSolver n Any (next_occurrence i rest) cached s
  pub read : IsRead n i rest occurrence s.read_ptr
  pub same : IsSame (next_occurrence i rest) cached (chunks_in slots)
  pub distinct : Distinct (chunks_in slots)
  pub width : length slots ≡ capacity
  pub small : length cached ≤ capacity

-- A reference that both find in their caches, or that both miss.
pub data IsMatched (n i x : ℕ) (rest : List ℕ) (capacity : ℕ) (occurrence : List (List ℕ))
    (s : Solver) (slots : Slots) (s' : Solver) : Type 0 where
  both_hit :
      (cached : List ℕ)
      → is_cached x slots ≡ true
      → s'.misses ≡ s.misses
      → IsPaired n (suc i) rest capacity occurrence cached s' slots
      → IsMatched n i x rest capacity occurrence s slots s'
  both_miss :
      (cached : List ℕ)
      → is_cached x slots ≡ false
      → s'.misses ≡ suc s.misses
      → IsPaired n
          (suc i)
          rest
          capacity
          occurrence
          cached
          s'
          (set slots (choose_slot (next_occurrence (suc i) rest) slots) (some x))
      → IsMatched n i x rest capacity occurrence s slots s'

pub refer-IsMatched :
    (n i x : ℕ) (rest : List ℕ) (capacity : ℕ) (occurrence : List (List ℕ)) (cached : List ℕ)
    (s : Solver) (slots : Slots)
    → IsPaired n i (x ∷ rest) capacity occurrence cached s slots
    → x < n
    → 0 < capacity
    → i + suc (length rest) ≤ uint64_max
    → IsMatched n i x rest capacity occurrence s slots (refer occurrence capacity x s)
unfolding refer
refer-IsMatched n i x rest capacity occurrence cached s slots p low pos bound =
    subst (λ k. IsMatched n i x rest capacity occurrence s slots (look_up capacity x k s1))
      (sym found)
      (by_case (look_up capacity x (next x) s1) (
        look_up-IsReferred n (next_occurrence i (x ∷ rest)) next capacity x cached s1
          (later-IsSolver n Any Any (next_occurrence i (x ∷ rest)) (next_occurrence i (x ∷ rest))
            cached s s.misses ptrs p.solver (λ c got _. (tt, refl)))
          (λ c ne. next_occurrence-other i x c rest ne) low pos p.small))
  where
    next : ℕ → ℕ
    next c = next_occurrence (suc i) rest c

    ptrs : List ℕ
    ptrs = set s.read_ptr x (get_or s.read_ptr x 0 + 1)

    s1 : Solver
    s1 = record s { read_ptr = ptrs }

    reads : IsRead n (suc i) rest occurrence ptrs
    reads = (refer-IsRead n i x rest occurrence s.read_ptr low p.read).0

    found : next_pos (get_or occurrence x []) (get_or s.read_ptr x 0 + 1) ≡ next x
    found = (refer-IsRead n i x rest occurrence s.read_ptr low p.read).1

    live : next_occurrence i (x ∷ rest) x ≢ uint64_max
    live = next_occurrence-now i x rest bound

    same : IsSame next cached (chunks_in slots)
    same = hit-IsSame i x rest cached (chunks_in slots) bound p.same

    away : (In x cached → ⊥) → In x (chunks_in slots) → ⊥
    away out got = out (p.same.from x live got)

    off : (In x cached → ⊥) → is_cached x slots ≡ false
    off out = elim (Bool-cases (is_cached x slots)) [
      | inl on ↦ absurd (away out ((is_cached-In x slots).0 on))
      | inr e ↦ e
    ]

    missed : IsMissed next x slots (set slots (choose_slot next slots) (some x))
    missed = choose_slot-IsMissed next x slots (omega (arith, p.width, pos)) p.distinct

    at_most : (c : ℕ) → next c ≤ uint64_max
    at_most c = elim (next_occurrence-bounds (suc i) rest c) [
      | inl e ↦ omega (arith, e)
      | inr (_, high) ↦ omega (arith, high, bound)
    ]

    by_case :
        (s' : Solver)
        → IsReferred n next capacity x cached s1 s'
        → IsMatched n i x rest capacity occurrence s slots s'
    by_case s' (hit got solver count kept) =
        both_hit cached ((is_cached-In x slots).1 (p.same.to x live got)) count (record {
          solver = solver;
          read = subst (IsRead n (suc i) rest occurrence) (sym kept) reads;
          same = same;
          distinct = p.distinct;
          width = p.width;
          small = p.small;
        })
    by_case s' (filled out less solver count kept) =
        both_miss (x ∷ cached) (off out) count (elim missed [
          | added _ a ↦ record {
            solver = solver;
            read = subst (IsRead n (suc i) rest occurrence) (sym kept) reads;
            same = added-IsSame next x cached (chunks_in slots) (chunks_in slots') same a;
            distinct = a.distinct (away out) p.distinct;
            width = length-set slots slot (some x) ∙ p.width;
            small = less;
          }
          | Slots.replaced w whole _ _ ↦ absurd (omega (arith, whole, less, p.width, p.same.size))
        ])
      where
        slot : ℕ
        slot = choose_slot next slots

        slots' : Slots
        slots' = set slots slot (some x)
    by_case s' (replaced v out whole was last solver count kept) =
        both_miss (x ∷ remove v cached) (off out) count (elim missed [
          | added less _ ↦ absurd (omega (arith, whole, less, p.width, p.same.size))
          | Slots.replaced w _ least r ↦ record {
            solver = solver;
            read = subst (IsRead n (suc i) rest occurrence) (sym kept) reads;
            same =
                replaced-IsSame next x v w cached (chunks_in slots) (chunks_in slots') same r
                  p.solver.distinct was
                  (same_victims next cached (chunks_in slots) v w at_most
                    (λ c d. next_occurrence-inj (suc i) rest c d (omega (arith, bound))) same
                    p.solver.distinct p.distinct was r.was last least);
            distinct = r.distinct (away out);
            width = length-set slots slot (some x) ∙ p.width;
            small = omega (arith, whole, length-remove v cached p.solver.distinct was);
          }
        ])
      where
        slot : ℕ
        slot = choose_slot next slots

        slots' : Slots
        slots' = set slots slot (some x)
