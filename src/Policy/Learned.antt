-- ===== src/Policy/Learned.antt =====
-- `layer_order_learned` of src/policy.c: the successor of each chunk, learned from the fetches.
use residctl.Prelude.{
  ℕ, zero, suc, ◌^◌, Bool, List, Option, none, some, ltb, ◌==◌, if◌then◌else◌, add32, uint32_max,
  int64_max, get_or, set, replicate,
}
use residctl.State.{Chunk, LearnedState}
use residctl.Policy.Scan.{pick}

-- `policy_layer_order_learned_create`
unfoldable pub create : ℕ → LearnedState
create n = record { n_chunks = n; last_fetched = none; successor = replicate n none }

-- `successor[last_fetched] = idx`, from the second fetch on
unfoldable pub on_fault : LearnedState → ℕ → LearnedState
on_fault st idx = elim st.last_fetched [
  | none ↦ record st { last_fetched = some idx }
  | some last ↦ record st { successor = set st.successor last (some idx); last_fetched = some idx }
]

-- `(int32_t)next`: the callers take a negative value for no prediction.
abbrev pub to_int32 : ℕ → Option ℕ
to_int32 n = if ltb n (2 ^ 31) then some n else none

unfoldable pub predict_next : LearnedState → ℕ → Option ℕ
predict_next st idx = elim (get_or st.successor idx none) [
  | none ↦ none
  | some next ↦ to_int32 next
]

-- The walk along the successors, with the hops left. A successor outside the table would be read out of
-- bounds; the walk ends there.
unfoldable pub walk : List (Option ℕ) → ℕ → ℕ → ℕ → List ℕ → List ℕ
walk successor zero node d dist = dist
walk successor (suc hops) node d dist = elim (get_or successor node none) [
  | none ↦ dist
  | some next ↦
      let rest = walk successor hops next (add32 d 1) (set dist next d) in
      if get_or dist next 0 == uint32_max then rest else dist
]

unfoldable pub compute_dist : LearnedState → List ℕ
unfolding walk
compute_dist st =
    let dist = replicate st.n_chunks uint32_max in
    elim st.last_fetched [ none ↦ dist | some last ↦ walk st.successor st.n_chunks last 1 dist ]

abbrev pub further : ℕ → ℕ → Bool
further new old = ltb old new

-- `dist` is computed once, and `dist[i]` compared; UINT32_MAX wins.
unfoldable pub select_victim : LearnedState → List Chunk → Option (ℕ × ℕ)
unfolding pick compute_dist
select_victim st chunks =
    let dist = compute_dist st in pick further (λ i _. get_or dist i uint32_max) chunks 0 none

unfoldable pub next_use_distance : LearnedState → ℕ → ℕ
unfolding compute_dist
next_use_distance st idx =
    let d = get_or (compute_dist st) idx uint32_max in if d == uint32_max then int64_max else d
