-- ===== src/Belady/Naive.antt =====
-- The reference for the solver, src/belady_main.c: `naive_next_occurrence` and `naive_belady`. What the source
-- reads by an index behind the reference at hand is here the rest of the string.
use residctl.Prelude.{
  ℕ, suc, ◌==◌, List, [], ◌∷◌, Bool, true, false, ◌||◌, Option, none, some, if◌then◌else◌, set,
  replicate, ltb, uint64_max,
}

-- `naive_next_occurrence`: the first position of `chunk` in what is left from position `j` on.
unfoldable pub next_occurrence : ℕ → List ℕ → ℕ → ℕ
next_occurrence j [] chunk = uint64_max
next_occurrence j (x ∷ rest) chunk = if x == chunk then j else next_occurrence (suc j) rest chunk

-- `cache` where `used` is set: the slots.
abbrev pub Slots : Type 0
Slots = List (Option ℕ)

-- The slot holds the chunk.
abbrev pub holds : ℕ → Option ℕ → Bool
holds c none = false
holds c (some x) = x == c

abbrev pub is_cached : ℕ → Slots → Bool
is_cached c [] = false
is_cached c (s ∷ slots) = if holds c s then true else is_cached c slots

-- The first slot from `k` on that is not used.
abbrev pub first_free : ℕ → Slots → Option ℕ
first_free k [] = none
first_free k (none ∷ slots) = some k
first_free k (some x ∷ slots) = first_free (suc k) slots

abbrev pub value : Option ℕ → ℕ
value none = 0
value (some x) = x

-- The slot, from `k` on, whose chunk is used again last, by `best_dist` and `best_slot` so far.
unfoldable pub farthest : (next : ℕ → ℕ) (k best_dist best_slot : ℕ) → Slots → ℕ
farthest next k best_dist best_slot [] = best_slot
farthest next k best_dist best_slot (s ∷ slots) =
    let d = next (value s) in
    if (k == 0) || ltb best_dist d
    then farthest next (suc k) d k slots
    else farthest next (suc k) best_dist best_slot slots

-- The slot for a chunk that missed.
unfoldable pub choose_slot : (next : ℕ → ℕ) → Slots → ℕ
unfolding farthest
choose_slot next slots = elim (first_free 0 slots) [ some k ↦ k | none ↦ farthest next 0 0 0 slots ]

-- The misses from position `i` on.
unfoldable pub naive_from : ℕ → List ℕ → Slots → ℕ
unfolding choose_slot next_occurrence
naive_from i [] slots = 0
naive_from i (c ∷ rest) slots =
    let slot = choose_slot (next_occurrence (suc i) rest) slots in
    let missed = suc (naive_from (suc i) rest (set slots slot (some c))) in
    let hit = naive_from (suc i) rest slots in if is_cached c slots then hit else missed

-- `naive_belady`
unfoldable pub naive_belady : List ℕ → ℕ → ℕ
unfolding naive_from
naive_belady ref capacity = naive_from 0 ref (replicate capacity none)
