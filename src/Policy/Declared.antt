-- ===== src/Policy/Declared.antt =====
-- `layer_order_declared` of src/policy.c: the workload declares its access sequence in advance, and the
-- next use of a chunk is looked up in it from the position consumed last.
pub mod Distance
pub mod Cursor
use residctl.Prelude.{
  ℕ, zero, suc, ◌+◌, ◌-◌, ◌%◌, Bool, true, false, ◌&&◌, List, [], ◌∷◌, Option, none, some, ltb, leb,
  ◌==◌, if◌then◌else◌, add32, add64, uint32_max, int64_max, get_elem?, get_or, set, replicate,
  length,
}
use residctl.State.{Chunk, DeclaredState, Modes}
use residctl.Policy.Scan.{pick}
use residctl.Policy.Learned.{to_int32, further}

-- `policy_layer_order_declared_create`
unfoldable pub create : ℕ → DeclaredState
create n = record {
  n_chunks = n;
  seq = [];
  seq_len = 0;
  pos = none;
  next_in_seq = replicate n none;
}

-- `seq[i] == x`
abbrev pub holds : List ℕ → ℕ → ℕ → Bool
holds seq i x = elim (get_elem? seq i) [ none ↦ false | some y ↦ y == x ]

-- (pos < 0) ? 0 : pos
abbrev pub base : Option ℕ → ℕ
base none = 0
base (some p) = p

-- The loop over `k`, with the rounds left: the least distance from `d` on at which `x` stands.
unfoldable pub scan_ahead : List ℕ → ℕ → ℕ → ℕ → ℕ → ℕ → ℕ
scan_ahead seq n from x zero d = int64_max
scan_ahead seq n from x (suc left) d =
    let rest = scan_ahead seq n from x left (add32 d 1) in
    if holds seq (add64 from d % n) x then d else rest

-- The chunks that `--protect-current` holds at distance 0.
abbrev pub protects : Modes → List ℕ → ℕ → ℕ → ℕ → Bool
protects m seq n from x =
    m.protect_current
    && (if holds seq (from % n) x then true else ltb 0 from && holds seq ((from - 1) % n) x)

-- d0
abbrev pub origin : Modes → ℕ
origin m = if m.signal_pre then 0 else 1

-- `lo_declared_dist`
unfoldable pub declared_dist : Modes → DeclaredState → ℕ → ℕ
unfolding scan_ahead
declared_dist m st x =
    if st.seq_len == 0
    then int64_max
    else if protects m st.seq st.seq_len (base st.pos) x
    then 0
    else scan_ahead st.seq st.seq_len (base st.pos) x st.seq_len (origin m)

-- The forward search of `lo_declared_on_access` for the next slot that holds `x`.
unfoldable pub find_slot : List ℕ → ℕ → ℕ → ℕ → ℕ → ℕ → Option ℕ
find_slot seq n from x zero k = none
find_slot seq n from x (suc left) k =
    let rest = find_slot seq n from x left (k + 1) in
    let q = add64 from k % n in if holds seq q x then some q else rest

-- (pos < 0) ? 0 : pos + 1
abbrev pub after_pos : Option ℕ → ℕ
after_pos none = 0
after_pos (some p) = p + 1

unfoldable pub on_access : DeclaredState → ℕ → DeclaredState
unfolding find_slot
on_access st idx =
    if st.seq_len == 0
    then st
    else (elim (find_slot st.seq st.seq_len (after_pos st.pos) idx st.seq_len 0) [
      | none ↦ st
      | some q ↦ record st { pos = some q }
    ])

unfoldable pub predict_next : DeclaredState → ℕ → Option ℕ
predict_next st idx =
    if leb st.n_chunks idx
    then none
    else (elim (get_or st.next_in_seq idx none) [ none ↦ none | some next ↦ to_int32 next ])

unfoldable pub select_victim : Modes → DeclaredState → List Chunk → Option (ℕ × ℕ)
unfolding pick declared_dist
select_victim m st chunks = pick further (λ i _. declared_dist m st i) chunks 0 none

unfoldable pub next_use_distance : Modes → DeclaredState → ℕ → ℕ
unfolding declared_dist
next_use_distance m st idx = declared_dist m st idx

unfoldable pub trace_cursor : DeclaredState → Option ℕ
trace_cursor st = elim st.pos [
  | none ↦ none
  | some p ↦ if st.seq_len == 0 then none else get_elem? st.seq p
]

-- The loop over `p` that fills `next_in_seq`, with the positions left.
unfoldable pub fill_next : List ℕ → ℕ → ℕ → ℕ → ℕ → List (Option ℕ) → List (Option ℕ)
fill_next ids n n_chunks zero p next = next
fill_next ids n n_chunks (suc left) p next =
    fill_next ids n n_chunks left (p + 1) (elim (get_elem? ids p) [
      | none ↦ next
      | some x ↦ if ltb x n_chunks then set next x (get_elem? ids (add32 p 1 % n)) else next
    ])

-- `lo_declared_declare_sequence`; `n` is the length of `ids`.
unfoldable pub declare_sequence : DeclaredState → List ℕ → DeclaredState
unfolding fill_next
declare_sequence st ids = record st {
  seq = ids;
  seq_len = length ids;
  pos = none;
  next_in_seq = fill_next ids (length ids) st.n_chunks (length ids) 0 (replicate st.n_chunks none);
}
