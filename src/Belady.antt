-- ===== src/Belady.antt =====
-- The offline optimum, src/belady.c: the heap with lazy deletion and `belady_simulate`.
pub mod Naive
pub mod Entries
pub mod Heap
pub mod Largest
pub mod Popped
pub mod Sets
pub mod Evict
pub mod LookUp
pub mod Occurrences
pub mod Farthest
pub mod Slots
pub mod Same
pub mod Matched
pub mod Exact
pub mod Floor
use residctl.Prelude.{
  ℕ, zero, suc, ◌+◌, ◌-◌, ◌*◌, ◌/◌, ◌==◌, List, [], ◌∷◌, ◌++◌, Bool, true, false, ◌&&◌, Option,
  none, some, if◌then◌else◌, length, get_or, set, replicate, ltb, leb, add32, uint64_max,
}

-- `heap_entry_t`
pub record Entry : Type 0 where
  pub priority : ℕ
  pub chunk_id : ℕ

-- `heap_t`: the entries up to `size`.
abbrev pub Heap : Type 0
Heap = List Entry

abbrev pub at : Heap → ℕ → Entry
at h i = get_or h i (record { priority = 0; chunk_id = 0 })

abbrev pub key : Heap → ℕ → ℕ
key h i = (at h i).priority

abbrev pub heap_swap : Heap → ℕ → ℕ → Heap
heap_swap h i j = set (set h i (at h j)) j (at h i)

-- The loop of `heap_push`, on fuel.
unfoldable pub sift_up : (fuel i : ℕ) → Heap → Heap
sift_up zero i h = h
sift_up (suc fuel) i h =
    let parent = (i - 1) / 2 in
    let rest = sift_up fuel parent (heap_swap h parent i) in
    if i == 0 then h else if leb (key h i) (key h parent) then h else rest

unfoldable pub heap_push : Heap → (priority chunk_id : ℕ) → Heap
unfolding sift_up
heap_push h priority chunk_id =
    sift_up (length h) (length h) (h ++ (record { priority = priority; chunk_id = chunk_id } ∷ []))

-- A child takes the place of the largest so far if it is in the heap and its key is greater.
abbrev pub larger : Heap → (largest child : ℕ) → ℕ
larger h largest child =
    if ltb child (length h) && ltb (key h largest) (key h child) then child else largest

-- The loop of `heap_pop_max`, on fuel.
unfoldable pub sift_down : (fuel i : ℕ) → Heap → Heap
sift_down zero i h = h
sift_down (suc fuel) i h =
    let largest = larger h (larger h i (2 * i + 1)) (2 * i + 2) in
    let rest = sift_down fuel largest (heap_swap h i largest) in if largest == i then h else rest

abbrev pub drop_last : Heap → Heap
drop_last [] = []
drop_last (e ∷ []) = []
drop_last (e ∷ e' ∷ h) = e ∷ drop_last (e' ∷ h)

-- `heap_pop_max`: the greatest entry and what is left, or none.
unfoldable pub heap_pop_max : Heap → Option (Entry × Heap)
unfolding sift_down
heap_pop_max [] = none
heap_pop_max (e ∷ h) =
    let last = at (e ∷ h) (length h) in
    let rest = set (drop_last (e ∷ h)) 0 last in some (e, sift_down (length rest) 0 rest)

-- `n_chunks`: one more than the greatest chunk, as a `uint32_t`.
unfoldable pub count_chunks : List ℕ → ℕ → ℕ
count_chunks [] n = n
count_chunks (c ∷ ref) n = count_chunks ref (if ltb n (add32 c 1) then add32 c 1 else n)

-- `occurrence`, filled from position `i` on; `occ_count[c]` is the length of `occurrence[c]`.
unfoldable pub fill : ℕ → List ℕ → List (List ℕ) → List (List ℕ)
fill i [] occurrence = occurrence
fill i (c ∷ ref) occurrence =
    fill (suc i) ref (set occurrence c (get_or occurrence c [] ++ (i ∷ [])))

-- The arrays and counters of `belady_simulate`.
pub record Solver : Type 0 where
  pub read_ptr : List ℕ
  pub current_priority : List ℕ
  pub in_cache : List Bool
  pub heap : Heap
  pub cache_size : ℕ
  pub misses : ℕ

-- `next_pos`, for the read pointer `ptr` of a chunk with the occurrences `occ`.
abbrev pub next_pos : (occ : List ℕ) (ptr : ℕ) → ℕ
next_pos occ ptr = if ltb ptr (length occ) then get_or occ ptr 0 else uint64_max

-- The loop that pops entries until one is not stale, on fuel.
unfoldable pub evict_farthest : ℕ → Solver → Solver
evict_farthest zero s = s
evict_farthest (suc fuel) s = elim (heap_pop_max s.heap) [
  | none ↦ s
  | some (top, heap) ↦
      let popped : Solver = record s { heap = heap } in
      let rest = evict_farthest fuel popped in
      if get_or s.in_cache top.chunk_id false
        && (get_or s.current_priority top.chunk_id 0 == top.priority)
      then record popped {
        in_cache = set s.in_cache top.chunk_id false;
        cache_size = s.cache_size - 1;
      }
      else rest
]

-- The chunk is in the cache, and its next use is `next`.
unfoldable pub enlist : (c next : ℕ) → Solver → Solver
enlist c next s = record s {
  current_priority = set s.current_priority c next;
  heap = heap_push s.heap next c;
}

-- A reference to a chunk whose next use is `next`.
unfoldable pub look_up : (capacity c next : ℕ) → Solver → Solver
unfolding enlist evict_farthest
look_up capacity c next s =
    let missed : Solver = record s { misses = s.misses + 1 } in
    let room : Solver =
      if s.cache_size == capacity then evict_farthest (length s.heap) missed else missed in
    if get_or s.in_cache c false
    then enlist c next s
    else (if ltb room.cache_size capacity
        then enlist c next
            (record room { in_cache = set room.in_cache c true; cache_size = room.cache_size + 1 })
        else room)

-- One round of the loop over the references.
unfoldable pub refer : (occurrence : List (List ℕ)) (capacity c : ℕ) → Solver → Solver
unfolding look_up
refer occurrence capacity c s =
    let ptr = get_or s.read_ptr c 0 + 1 in
    look_up capacity c (next_pos (get_or occurrence c []) ptr)
      (record s { read_ptr = set s.read_ptr c ptr })

unfoldable pub simulate_from : List (List ℕ) → ℕ → List ℕ → Solver → Solver
unfolding refer
simulate_from occurrence capacity [] s = s
simulate_from occurrence capacity (c ∷ ref) s =
    simulate_from occurrence capacity ref (refer occurrence capacity c s)

abbrev pub fresh_solver : ℕ → Solver
fresh_solver n = record {
  read_ptr = replicate n 0;
  current_priority = replicate n 0;
  in_cache = replicate n false;
  heap = [];
  cache_size = 0;
  misses = 0;
}

-- `belady_simulate`: the misses.
unfoldable pub belady_simulate : List ℕ → ℕ → ℕ
unfolding simulate_from fill count_chunks
belady_simulate ref capacity =
    let n = count_chunks ref 0 in
    (simulate_from (fill 0 ref (replicate n [])) capacity ref (fresh_solver n)).misses
