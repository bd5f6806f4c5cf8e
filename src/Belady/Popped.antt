-- ===== src/Belady/Popped.antt =====
-- `heap_pop_max`, src/belady.c: it takes the greatest entry and keeps the order of the others.
use residctl.Prelude.{
  get_or-set_self, get_or-set_ne, ℕ, zero, suc, ◌+◌, ◌-◌, ◌*◌, ◌/◌, ◌==◌, ◌≡◌, ◌≤◌, ◌<◌, refl, sym,
  ap, subst, ◌∙◌, ◌⊎◌, inl, inr, [], ◌∷◌, some, arith, length, set, ℕ_discrete, if-cases,
  length-set,
}
use residctl.Belady.{Entry, Heap, at, key, heap_swap, larger, sift_down, drop_last, heap_pop_max}
use residctl.Belady.Entries.{Holds, length-heap_swap, length-drop_last, at-drop_last}
use residctl.Belady.Heap.{IsHeap, Shuffled, Shuffled-refl, Shuffled-swap}
use residctl.Belady.Largest.{IsHeapBelow, IsLargest, larger-IsLargest, IsHeapBelow-swap}

sift_down-IsHeap :
    (fuel i : ℕ) (h : Heap) → length h ≤ i + fuel → IsHeapBelow i h → IsHeap (sift_down fuel i h)
unfolding sift_down
sift_down-IsHeap zero i h enough o =
    λ j pos inside. o.edges j pos inside (λ e. omega (arith, e, enough, inside, pos))
sift_down-IsHeap (suc fuel) i h enough o =
    let m : ℕ = larger h (larger h i (2 * i + 1)) (2 * i + 2) in
    let l = larger-IsLargest h i in
    if-cases IsHeap (m == i) (λ e. whole m (ground (arith, e)) l)
      (λ e. elim l.place [
        | inl same ↦ absurd (ground (arith, e, same))
        | inr (pos, inside, under, less) ↦
            sift_down-IsHeap fuel m (heap_swap h i m)
              (omega (arith, enough, under, pos, length-heap_swap h i m))
              (IsHeapBelow-swap i m h (omega (arith, inside, under, pos)) pos inside under less
                l.most o)
      ])
  where
    whole : (m : ℕ) → m ≡ i → IsLargest h i m → IsHeap h
    whole m same l j pos inside = elim (ℕ_discrete i ((j - 1) / 2)) [
      | yes child ↦ subst (λ x. key h j ≤ key h x) (same ∙ child) (l.most j pos inside (sym child))
      | no ne ↦ o.edges j pos inside (λ e. ne (sym e))
    ]

sift_down-Shuffled : (fuel i : ℕ) (h : Heap) → Shuffled h (sift_down fuel i h)
unfolding sift_down
sift_down-Shuffled zero i h = Shuffled-refl h
sift_down-Shuffled (suc fuel) i h =
    let m : ℕ = larger h (larger h i (2 * i + 1)) (2 * i + 2) in
    let l = larger-IsLargest h i in
    if-cases (Shuffled h) (m == i) (λ e. Shuffled-refl h)
      (λ e. elim l.place [
        | inl same ↦ absurd (ground (arith, e, same))
        | inr (pos, inside, under, less) ↦
            Shuffled-swap h (sift_down fuel m (heap_swap h i m)) i m
              (omega (arith, inside, under, pos)) inside
              (sift_down-Shuffled fuel m (heap_swap h i m))
      ])

-- The root has the greatest key.
root-most : (h : Heap) → IsHeap h → (fuel j : ℕ) → j ≤ fuel → j < length h → key h j ≤ key h 0
root-most h o zero j enough inside =
    let root : 0 ≡ j = omega (arith, enough) in subst (λ x. key h x ≤ key h 0) root (omega arith)
root-most h o (suc fuel) zero enough inside = omega arith
root-most h o (suc fuel) (suc j) enough inside =
    let edge = o (suc j) (omega arith) inside in
    let up = root-most h o fuel ((suc j - 1) / 2) (omega (arith, enough)) (omega (arith, inside)) in
    omega (arith, edge, up)

-- What a pop takes and leaves.
pub record IsPopped (h : Heap) (top : Entry) (rest : Heap) : Type 0 where
  pub held : Holds h top
  pub size : suc (length rest) ≡ length h
  pub order : IsHeap rest
  pub most : (e : Entry) → Holds h e → e.priority ≤ top.priority
  pub kept : (e : Entry) → Holds h e → (e ≡ top) ⊎ Holds rest e
  pub old : (e : Entry) → Holds rest e → Holds h e

-- On a heap that is in order and not empty, `heap_pop_max` takes an entry with the greatest priority and leaves
-- the others, in order: one entry fewer, each of which was there, and every entry but the one that is taken.
pub heap_pop_max-IsPopped :
    (h : Heap)
    → IsHeap h
    → 0 < length h
    → (top : Entry) × (rest : Heap) × (heap_pop_max h ≡ some (top, rest)) × IsPopped h top rest
unfolding heap_pop_max
heap_pop_max-IsPopped [] o pos = absurd (omega arith)
heap_pop_max-IsPopped (e ∷ t) o pos = (
  e,
  sift_down (length moved) 0 moved,
  refl,
  record {
    held = (0, omega arith, refl);
    size = omega (arith, shuffled.size, size);
    order = sift_down-IsHeap (length moved) 0 moved (omega arith) (record {
      edges = λ j some_j inside out.
          let low : suc j < length (e ∷ t) = omega (arith, inside, size) in
          let here : key moved j ≡ key (e ∷ t) j = ap (λ x. x.priority) (later j some_j low) in
          let there : key moved ((j - 1) / 2) ≡ key (e ∷ t) ((j - 1) / 2) =
            ap (λ x. x.priority) (later ((j - 1) / 2) (omega (arith, out)) (omega (arith, low))) in
          omega (arith, here, there, o j some_j (omega (arith, low)));
      across = λ j some_j inside none_above under. absurd (omega (arith, none_above));
    });
    most = λ x (j, inside, here).
        subst (λ y. y.priority ≤ e.priority) here (root-most (e ∷ t) o j j (omega arith) inside);
    kept = λ x (j, inside, here). elim (ℕ_discrete 0 j) [
      | yes root ↦ inl (sym (subst (λ k. at (e ∷ t) k ≡ x) (sym root) here))
      | no ne ↦ inr (
          shuffled.to x (elim (ℕ_discrete (length t) j) [
            | yes end ↦
                let some_left : 0 < length t = omega (arith, ne, end) in
                (
                  0,
                  omega (arith, some_left, size),
                  first some_left ∙ subst (λ k. at (e ∷ t) k ≡ x) (sym end) here,
                )
            | no inner ↦
                let low : suc j < length (e ∷ t) = omega (arith, inside, inner) in
                (j, omega (arith, low, size), later j (omega (arith, ne)) low ∙ here)
          ]))
    ];
    old = λ x got.
        let (j, inside, here) = shuffled.from x got in
        elim (ℕ_discrete 0 j) [
          | yes root ↦
              let some_left : 0 < length t = omega (arith, inside, size) in
              (
                length t,
                omega arith,
                sym (first some_left) ∙ subst (λ k. at moved k ≡ x) (sym root) here,
              )
          | no ne ↦
              let low : suc j < length (e ∷ t) = omega (arith, inside, size) in
              (j, omega (arith, low), sym (later j (omega (arith, ne)) low) ∙ here)
        ];
  },
)
  where
    last : Entry
    last = at (e ∷ t) (length t)

    moved : Heap
    moved = set (drop_last (e ∷ t)) 0 last

    size : length moved ≡ length t
    size = omega (arith, length-set (drop_last (e ∷ t)) 0 last, length-drop_last (e ∷ t))

    shuffled : Shuffled moved (sift_down (length moved) 0 moved)
    shuffled = sift_down-Shuffled (length moved) 0 moved

    later : (j : ℕ) → 0 < j → suc j < length (e ∷ t) → at moved j ≡ at (e ∷ t) j
    later j some_j low =
        get_or-set_ne (drop_last (e ∷ t)) 0 j last (record { priority = 0; chunk_id = 0 })
          (λ same. omega (arith, same, some_j))
        ∙ at-drop_last (e ∷ t) j low

    first : 0 < length t → at moved 0 ≡ last
    first some_left =
        get_or-set_self (drop_last (e ∷ t)) 0 last (record { priority = 0; chunk_id = 0 })
          (omega (arith, some_left, length-drop_last (e ∷ t)))
