-- ===== src/Retain/Refines.antt =====
-- The retention queue as a bounded list, oldest first.
use residctl.Prelude.{
  ℕ, zero, suc, ◌+◌, ◌<◌, ◌≡◌, refl, sym, ◌∙◌, ap, ◌⊎◌, inl, inr, List, [], ◌∷◌, ◌++◌, none, some,
  arith, leb, leb→le, ◌==◌, ==_iff, if◌then◌else◌, get_elem?, length, Bool-cases,
}
use residctl.State.{Region, PinnedQueue}
use residctl.Retain.{
  tabulate, entries, find_entry, drop_oldest, prefetch_retain_on_resident, prefetch_retain_release,
}
use residctl.Retain.Ring.{
  IsRing, remove_at, entries-remove_entry, entries-drop_oldest, entries-append_entry,
  remove_entry-IsRing, drop_oldest-IsRing, append_entry-IsRing,
}

-- The list without its first `idx`.
abbrev pub remove_first : ℕ → List ℕ → List ℕ
remove_first idx [] = []
remove_first idx (e ∷ es) = if e == idx then es else e ∷ remove_first idx es

abbrev pub tail_of : List ℕ → List ℕ
tail_of [] = []
tail_of (e ∷ es) = es

-- The list after one more entry, in a queue that holds at most `cap`.
abbrev pub push_bounded : ℕ → List ℕ → ℕ → List ℕ
push_bounded cap es idx = (if leb cap (length es) then tail_of es else es) ++ (idx ∷ [])

length-tabulate : (f : ℕ → ℕ) (left i : ℕ) → length (tabulate f left i) ≡ left
length-tabulate f zero i = refl
length-tabulate f (suc left) i = ap suc (length-tabulate f left (i + 1))

pub length-entries : (q : PinnedQueue) → length (entries q) ≡ q.len
length-entries q = length-tabulate _ q.len 0

pub find_entry_cases :
    (idx : ℕ) (es : List ℕ) (i : ℕ)
    → ((find_entry idx es i ≡ none) × (remove_first idx es ≡ es))
      ⊎ ((k : ℕ) × (find_entry idx es i ≡ some (i + k))
          × (k < length es)
          × (get_elem? es k ≡ some idx)
          × (remove_first idx es ≡ remove_at k es))
unfolding find_entry
find_entry_cases idx [] i = inl (refl, refl)
find_entry_cases idx (e ∷ es) i = elim (Bool-cases (e == idx)) [
  | inl hit ↦
      let same : e ≡ idx = (==_iff e idx).0 hit in
      let at_i : i + 0 ≡ i = omega arith in
      inr (0, rw (hit, at_i), omega arith, ap some same, rw hit)
  | inr miss ↦ elim (find_entry_cases idx es (i + 1)) [
    | inl (absent, same) ↦ inl (rw miss absent, rw (miss, same))
    | inr (k, found, lt, got, same) ↦
        let at_k : i + 1 + k ≡ i + suc k = omega arith in
        inr (suc k, rw miss (rw at_k at found), omega arith, got, rw (miss, same))
  ]
]

-- On a sound queue, `prefetch_retain_on_resident` drops the oldest entry if the queue is full, adds the
-- chunk at the end, and leaves the queue sound.
pub prefetch_retain_on_resident_refines :
    (r : Region) (idx : ℕ)
    → IsRing r.pinned
    → let q = (prefetch_retain_on_resident r idx).pinned in
      (entries q ≡ push_bounded r.pinned.cap (entries r.pinned) idx)
      × IsRing q
      × (q.cap ≡ r.pinned.cap)
unfolding prefetch_retain_on_resident
prefetch_retain_on_resident_refines r idx v = elim (Bool-cases (leb r.pinned.cap r.pinned.len)) [
  | inl full ↦
      let some_entry : 0 < r.pinned.len = omega (arith, leb→le _ _ full, v.some_room) in
      let dropped = drop_oldest-IsRing r.pinned v some_entry in
      rw (full, length-entries r.pinned, full)
        (
          entries-append_entry (drop_oldest r.pinned) dropped idx (omega arith)
              ∙ ap (λ es. tail_of es ++ (idx ∷ []))
                  (sym (entries-drop_oldest r.pinned v some_entry)),
          append_entry-IsRing (drop_oldest r.pinned) idx dropped (omega arith),
          refl,
        )
  | inr free ↦
      let room : r.pinned.len < r.pinned.cap = ground arith in
      rw (free, length-entries r.pinned, free)
        (entries-append_entry r.pinned v idx room, append_entry-IsRing r.pinned idx v room, refl)
]

-- On a sound queue, `prefetch_retain_release` takes the chunk's first entry out, wherever it stands, and
-- keeps the others in order; a chunk with no entry changes nothing.
pub prefetch_retain_release_refines :
    (r : Region) (idx : ℕ)
    → IsRing r.pinned
    → let q = (prefetch_retain_release r idx).pinned in
      (entries q ≡ remove_first idx (entries r.pinned)) × IsRing q × (q.cap ≡ r.pinned.cap)
unfolding prefetch_retain_release
prefetch_retain_release_refines r idx v = elim (find_entry_cases idx (entries r.pinned) 0) [
  | inl (absent, same) ↦ rw (absent, prefetch_retain_release) (rw same (refl, v, refl))
  | inr (k, found, lt, got, same) ↦
      let at_k : 0 + k ≡ k = omega arith in
      let inside : k < r.pinned.len = omega (arith, length-entries r.pinned) in
      rw (rw at_k at found, prefetch_retain_release)
        (rw same
          (entries-remove_entry r.pinned v k inside, remove_entry-IsRing r.pinned k v inside, refl))
]
