-- ===== src/Policy.antt =====
-- The policy interface of src/policy.h: each entry of the function table, dispatched on the policy.
-- `on_resident` does nothing in any policy.
pub mod Scan
pub mod Learned
pub mod Declared
pub mod Victims
use residctl.Prelude.{ℕ, ◌+◌, List, [], ◌∷◌, Option, none, some, ltb, int64_max, if◌then◌else◌}
use residctl.State.{Chunk, Modes, Policy, lru, learned, declared}
use residctl.Policy.Scan.{pick, evictable}
use residctl.Policy.Learned
use residctl.Policy.Declared

-- `lru_select_victim`: the least `last_fault_seq`.
pub lru_select_victim : List Chunk → Option (ℕ × ℕ)
unfolding pick
lru_select_victim chunks = pick ltb (λ _ c. c.last_fault_seq) chunks 0 none

-- With each victim comes the key by which it was chosen, which the callers drop.
pub victim_and_key : Modes → Policy → List Chunk → Option (ℕ × ℕ)
unfolding lru_select_victim Learned.select_victim Declared.select_victim
victim_and_key m lru chunks = lru_select_victim chunks
victim_and_key m (learned st) chunks = Learned.select_victim st chunks
victim_and_key m (declared st) chunks = Declared.select_victim m st chunks

abbrev pub index_of : Option (ℕ × ℕ) → Option ℕ
index_of none = none
index_of (some b) = some b.0

unfoldable pub select_victim : Modes → Policy → List Chunk → Option ℕ
unfolding victim_and_key
select_victim m p chunks = index_of (victim_and_key m p chunks)

-- `lru_next_use_distance` is always INT64_MAX.
unfoldable pub next_use_distance : Modes → Policy → ℕ → ℕ
unfolding Learned.next_use_distance Declared.next_use_distance
next_use_distance m lru idx = int64_max
next_use_distance m (learned st) idx = Learned.next_use_distance st idx
next_use_distance m (declared st) idx = Declared.next_use_distance m st idx

unfoldable pub predict_next : Policy → ℕ → Option ℕ
unfolding Learned.predict_next Declared.predict_next
predict_next lru idx = none
predict_next (learned st) idx = Learned.predict_next st idx
predict_next (declared st) idx = Declared.predict_next st idx

unfoldable pub on_fault : Policy → ℕ → Policy
unfolding Learned.on_fault
on_fault lru idx = lru
on_fault (learned st) idx = learned (Learned.on_fault st idx)
on_fault (declared st) idx = declared st

-- NULL in `lru` and `layer_order_learned`.
unfoldable pub on_access : Policy → ℕ → Policy
unfolding Declared.on_access
on_access lru idx = lru
on_access (learned st) idx = learned st
on_access (declared st) idx = declared (Declared.on_access st idx)

unfoldable pub trace_cursor : Policy → Option ℕ
unfolding Declared.trace_cursor
trace_cursor lru = none
trace_cursor (learned st) = st.last_fetched
trace_cursor (declared st) = Declared.trace_cursor st

-- `policy_declare_sequence`
unfoldable pub declare_sequence : Option Policy → List ℕ → Option Policy
unfolding Declared.declare_sequence
declare_sequence none ids = none
declare_sequence (some lru) ids = some lru
declare_sequence (some (learned st)) ids = some (learned st)
declare_sequence (some (declared st)) ids = some (declared (Declared.declare_sequence st ids))

-- `default_select_victim` of src/budget.c, used where no policy is set: the first evictable chunk.
unfoldable pub default_select_victim : ℕ → List Chunk → Option ℕ
default_select_victim i [] = none
default_select_victim i (c ∷ cs) = if evictable c then some i else default_select_victim (i + 1) cs

-- r->policy ? r->policy->select_victim(r) : default_select_victim(r)
unfoldable pub choose_victim : Modes → Option Policy → List Chunk → Option ℕ
unfolding select_victim default_select_victim
choose_victim m none chunks = default_select_victim 0 chunks
choose_victim m (some p) chunks = select_victim m p chunks
