-- ===== src/Retain.antt =====
-- The bounded queue of pinned prefetch targets (A-9): `prefetch_retain_on_resident`,
-- `prefetch_retain_release` and `pin_break_select_victim` of src/budget.c, with the pins.
pub mod Ring
pub mod Refines
use residctl.Prelude.{
  ℕ, zero, suc, ◌+◌, ◌-◌, ◌%◌, Bool, true, false, ◌&&◌, List, [], ◌∷◌, Option, none, some, ltb, leb,
  ◌==◌, if◌then◌else◌, add32, sub32, int64_max, get_elem?, get_or, set,
}
use residctl.State.{Chunk, Region, PinnedQueue, Policy, Modes}
use residctl.Policy.Scan.{is_resident}
use residctl.Policy.{next_use_distance}

-- (r->pinned_prefetch_head + i) % r->pinned_prefetch_cap
abbrev pub slot : PinnedQueue → ℕ → ℕ
slot q i = add32 q.head i % q.cap

-- `f i`, `f (i + 1)`, …, as many as are left.
abbrev pub tabulate {ℓ} : {A : Type ℓ} → (ℕ → A) → ℕ → ℕ → List A
tabulate f zero i = []
tabulate f (suc left) i = f i ∷ tabulate f left (i + 1)

-- What the loops over `i < pinned_prefetch_len` read, oldest first.
abbrev pub entries : PinnedQueue → List ℕ
entries q = tabulate (λ i. get_or q.buf (slot q i) 0) q.len 0

-- Drops the oldest entry.
unfoldable pub drop_oldest : PinnedQueue → PinnedQueue
drop_oldest q = record q { head = add32 q.head 1 % q.cap; len = sub32 q.len 1 }

unfoldable pub append_entry : PinnedQueue → ℕ → PinnedQueue
append_entry q idx = record q { buf = set q.buf (slot q q.len) idx; len = add32 q.len 1 }

-- for (j = i; j + 1 < len; j++) queue[slot j] = queue[slot (j + 1)], with the rounds left
unfoldable pub shift_down : PinnedQueue → ℕ → ℕ → List ℕ → List ℕ
shift_down q zero j buf = buf
shift_down q (suc left) j buf =
    shift_down q left (j + 1) (set buf (slot q j) (get_or buf (slot q (j + 1)) 0))

-- The position of the first entry that is `idx`, counted from `i`.
unfoldable pub find_entry : ℕ → List ℕ → ℕ → Option ℕ
find_entry idx [] i = none
find_entry idx (e ∷ es) i = if e == idx then some i else find_entry idx es (i + 1)

unfoldable pub remove_entry : PinnedQueue → ℕ → PinnedQueue
unfolding shift_down
remove_entry q i = record q { buf = shift_down q (q.len - (i + 1)) i q.buf; len = sub32 q.len 1 }

-- c->pin-- and c->pin++ for the chunk with an index.
unfoldable pub unpin_at : List Chunk → ℕ → List Chunk
unpin_at chunks idx = elim (get_elem? chunks idx) [
  | none ↦ chunks
  | some c ↦ set chunks idx (record c { pin = sub32 c.pin 1 })
]

unfoldable pub pin_at : List Chunk → ℕ → List Chunk
pin_at chunks idx = elim (get_elem? chunks idx) [
  | none ↦ chunks
  | some c ↦ set chunks idx (record c { pin = add32 c.pin 1 })
]

-- The part of `prefetch_retain_on_resident` under `len >= cap`.
unfoldable pub make_room : Region → Region
unfolding drop_oldest unpin_at
make_room r =
    if leb r.pinned.cap r.pinned.len
    then (record r {
      chunks = unpin_at r.chunks (get_or r.pinned.buf r.pinned.head 0);
      pinned = drop_oldest r.pinned;
    })
    else r

unfoldable pub prefetch_retain_on_resident : Region → ℕ → Region
unfolding make_room append_entry
prefetch_retain_on_resident r idx =
    let r' = make_room r in record r' { pinned = append_entry r'.pinned idx }

unfoldable pub prefetch_retain_release : Region → ℕ → Region
unfolding find_entry remove_entry unpin_at
prefetch_retain_release r idx = elim (find_entry idx (entries r.pinned) 0) [
  | none ↦ r
  | some i ↦ record r { chunks = unpin_at r.chunks idx; pinned = remove_entry r.pinned i }
]

-- The policy's distance, or INT64_MAX with no policy.
abbrev pub distance : Region → ℕ → ℕ
distance r idx = elim r.policy [ none ↦ int64_max | some p ↦ next_use_distance r.modes p idx ]

abbrev pub state_is_resident : List Chunk → ℕ → Bool
state_is_resident chunks idx = elim (get_elem? chunks idx) [
  | none ↦ false
  | some c ↦ is_resident c.state
]

abbrev pub beats : Option (ℕ × ℕ) → ℕ → Bool
beats none d = true
beats (some b) d = ltb b.1 d

-- The loop over the entries, with the best index so far and its distance.
unfoldable pub coldest : Region → List ℕ → Option (ℕ × ℕ) → Option (ℕ × ℕ)
coldest r [] best = best
coldest r (idx ∷ es) best = coldest r es (
    if state_is_resident r.chunks idx && beats best (distance r idx)
    then some (idx, distance r idx)
    else best)

unfoldable pub pin_break_select_victim : Region → Option ℕ
unfolding coldest
pin_break_select_victim r = elim (coldest r (entries r.pinned) none) [
  | none ↦ none
  | some b ↦ some b.0
]
