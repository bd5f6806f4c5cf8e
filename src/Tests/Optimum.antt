-- ===== src/Tests/Optimum.antt =====
-- A string of six references to three chunks with a cache of two, src/belady.c and src/belady_main.c.
use residctl.Result.{ok}
use residctl.Prelude.{Bool, ℕ, ◌≡◌, ◌≤◌, refl, List, [], ◌∷◌, some, arith, zero, suc}
use residctl.Belady.{
  Entry, Heap, sift_up, heap_push, sift_down, heap_pop_max, count_chunks, fill, enlist,
  evict_farthest, look_up, refer, simulate_from, belady_simulate,
}
use residctl.Belady.Naive.{next_occurrence, farthest, choose_slot, naive_from, naive_belady}
use residctl.Belady.Heap.{IsHeap}
use residctl.Belady.Popped.{IsPopped, heap_pop_max-IsPopped}
use residctl.Belady.Floor.{detect_cyclic_scan, cyclic_floor, check_cyclic_floor_or_abort}
use residctl.Belady.Floor.Check.{check_cyclic_floor_or_abort-belady_simulate}
use residctl.Belady.Exact.{belady_simulate-naive_belady}

abbrev pub scan : List ℕ
scan = 0 ∷ 1 ∷ 2 ∷ 0 ∷ 1 ∷ 2 ∷ []

belady_simulate-scan : belady_simulate scan 2 ≡ 4
unfolding belady_simulate count_chunks fill simulate_from refer look_up enlist evict_farthest
    heap_push heap_pop_max sift_up sift_down
belady_simulate-scan = refl

naive_belady-scan : naive_belady scan 2 ≡ 4
unfolding naive_belady naive_from choose_slot farthest next_occurrence
naive_belady-scan = refl

belady_simulate-naive_belady_example : belady_simulate scan 2 ≡ naive_belady scan 2
belady_simulate-naive_belady_example =
    belady_simulate-naive_belady scan 2 (omega arith)
      (omega arith, (omega arith, (omega arith, (omega arith, (omega arith, (omega arith, tt))))))
      (omega arith)

abbrev entries : Heap
entries =
    record { priority = 9; chunk_id = 2 }
    ∷ record { priority = 5; chunk_id = 0 }
    ∷ record { priority = 7; chunk_id = 1 }
    ∷ []

entries-IsHeap : IsHeap entries
entries-IsHeap zero pos inside = absurd (omega (arith, pos))
entries-IsHeap (suc zero) pos inside = omega arith
entries-IsHeap (suc (suc zero)) pos inside = omega arith
entries-IsHeap (suc (suc (suc j))) pos inside = absurd (omega (arith, inside))

heap_pop_max-IsPopped_example :
    (top : Entry) × (rest : Heap) × (heap_pop_max entries ≡ some (top, rest))
    × IsPopped entries top rest
heap_pop_max-IsPopped_example = heap_pop_max-IsPopped entries entries-IsHeap (omega arith)

detect_cyclic_scan-scan : detect_cyclic_scan scan ≡ some (3, 2)
unfolding detect_cyclic_scan
detect_cyclic_scan-scan = refl

check_cyclic_floor_or_abort-belady_simulate_example :
    ((n passes : ℕ)
      → detect_cyclic_scan scan ≡ some (n, passes)
      → cyclic_floor n passes 2 ≤ belady_simulate scan 2)
    × ((b : Bool) × (check_cyclic_floor_or_abort scan 2 (belady_simulate scan 2) ≡ ok b))
check_cyclic_floor_or_abort-belady_simulate_example =
    check_cyclic_floor_or_abort-belady_simulate scan 2 (omega arith)
      (omega arith, (omega arith, (omega arith, (omega arith, (omega arith, (omega arith, tt))))))
      (omega arith)
