-- ===== src/Belady/Heap.antt =====
-- The order of the heap, src/belady.c: `heap_push` and `heap_pop_max`.
use residctl.Prelude.{
  leb→le, if-cases, ℕ, zero, suc, ◌-◌, ◌/◌, ◌==◌, ◌≡◌, ◌≢◌, ◌≤◌, ◌<◌, refl, sym, ap, subst, ◌∙◌,
  ◌↔◌, ◌⊎◌, [], ◌∷◌, ◌++◌, arith, length, leb, ℕ_discrete, length-append,
}
use residctl.Belady.{Entry, Heap, key, heap_swap, sift_up, heap_push}
use residctl.Belady.Entries.{
  Holds, length-heap_swap, at-heap_swap_left, at-heap_swap_right, at-heap_swap_ne, Holds-heap_swap,
  at-append_old, Holds-append,
}

-- No key is greater than its parent's.
abbrev pub IsHeap : Heap → Type 0
IsHeap h = (j : ℕ) → 0 < j → j < length h → key h j ≤ key h ((j - 1) / 2)

-- The order but for the edge above `i`, past which it holds.
record IsHeapAbove (i : ℕ) (h : Heap) : Type 0 where
  edges : (j : ℕ) → 0 < j → j < length h → j ≢ i → key h j ≤ key h ((j - 1) / 2)
  across : (j : ℕ) → 0 < j → j < length h → 0 < i → (j - 1) / 2 ≡ i → key h j ≤ key h ((i - 1) / 2)

IsHeapAbove-swap :
    (i : ℕ) (h : Heap)
    → 0 < i
    → i < length h
    → key h ((i - 1) / 2) < key h i
    → IsHeapAbove i h
    → IsHeapAbove ((i - 1) / 2) (heap_swap h ((i - 1) / 2) i)
IsHeapAbove-swap i h pos low up o = record { edges = edges; across = across }
  where
    p : ℕ
    p = (i - 1) / 2

    h' : Heap
    h' = heap_swap h p i

    size : length h' ≡ length h
    size = length-heap_swap h p i

    at_p : key h' p ≡ key h i
    at_p = ap (λ e. e.priority) (at-heap_swap_left h p i (omega (arith, pos, low)))

    at_i : key h' i ≡ key h p
    at_i = ap (λ e. e.priority) (at-heap_swap_right h p i low)

    apart : (k : ℕ) → p ≢ k → i ≢ k → key h' k ≡ key h k
    apart k ne ne' = ap (λ e. e.priority) (at-heap_swap_ne h p i k ne ne')

    edges : (j : ℕ) → 0 < j → j < length h' → j ≢ p → key h' j ≤ key h' ((j - 1) / 2)
    edges j some_j inside ne = elim (ℕ_discrete i j) [
      | yes same ↦ subst (λ x. key h' x ≤ key h' ((x - 1) / 2)) same (omega (arith, at_p, at_i, up))
      | no ne' ↦
          let kept : key h' j ≡ key h j = apart j (λ e. ne (sym e)) ne' in
          elim (ℕ_discrete i ((j - 1) / 2)) [
            | yes under ↦
                let below = o.across j some_j (omega (arith, inside, size)) pos (sym under) in
                subst (λ x. key h' j ≤ key h' x) under (omega (arith, kept, at_i, below))
            | no out ↦
                let edge : key h j ≤ key h ((j - 1) / 2) =
                  o.edges j some_j (omega (arith, inside, size)) (λ e. ne' (sym e)) in
                elim (ℕ_discrete p ((j - 1) / 2)) [
                  | yes beside ↦
                      let edge' : key h j ≤ key h p =
                        subst (λ x. key h j ≤ key h x) (sym beside) edge in
                      subst (λ x. key h' j ≤ key h' x) beside (omega (arith, kept, at_p, edge', up))
                  | no far ↦ omega (arith, kept, edge, apart ((j - 1) / 2) far out)
                ]
          ]
    ]

    across :
        (j : ℕ) → 0 < j → j < length h' → 0 < p → (j - 1) / 2 ≡ p → key h' j ≤ key h' ((p - 1) / 2)
    across j some_j inside some_p under =
        let top : key h' ((p - 1) / 2) ≡ key h ((p - 1) / 2) =
          apart ((p - 1) / 2) (λ e. omega (arith, e, some_p)) (λ e. omega (arith, e, some_p)) in
        let edge : key h p ≤ key h ((p - 1) / 2) =
          o.edges p some_p (omega (arith, low)) (λ e. omega (arith, e, pos)) in
        elim (ℕ_discrete i j) [
          | yes same ↦
              subst (λ x. key h' x ≤ key h' ((p - 1) / 2)) same (omega (arith, at_i, top, edge))
          | no ne ↦
              let kept : key h' j ≡ key h j = apart j (λ e. omega (arith, e, under, some_j)) ne in
              let edge' : key h j ≤ key h p =
                subst (λ x. key h j ≤ key h x) under
                  (o.edges j some_j (omega (arith, inside, size)) (λ e. ne (sym e))) in
              omega (arith, kept, top, edge, edge')
        ]

sift_up-IsHeap :
    (fuel i : ℕ) (h : Heap) → i ≤ fuel → i < length h → IsHeapAbove i h → IsHeap (sift_up fuel i h)
unfolding sift_up
sift_up-IsHeap zero i h enough low o =
    λ j pos inside. o.edges j pos inside (λ e. omega (arith, e, enough, pos))
sift_up-IsHeap (suc fuel) i h enough low o =
    let p : ℕ = (i - 1) / 2 in
    if-cases IsHeap (i == 0)
      (λ e. λ j pos inside. o.edges j pos inside (λ same. ground (arith, e, same, pos)))
      (λ e.
        let inner : 0 < i = ground (arith, e) in
        if-cases IsHeap (leb (key h i) (key h p)) (λ le. whole (leb→le (key h i) (key h p) le))
          (λ gt.
            let up : key h p < key h i = ground (arith, gt) in
            sift_up-IsHeap fuel p (heap_swap h p i) (omega (arith, enough, inner))
              (omega (arith, low, inner, length-heap_swap h p i))
              (IsHeapAbove-swap i h inner low up o)))
  where
    whole : key h i ≤ key h ((i - 1) / 2) → IsHeap h
    whole le j pos inside = elim (ℕ_discrete i j) [
      | yes same ↦ subst (λ x. key h x ≤ key h ((x - 1) / 2)) same le
      | no ne ↦ o.edges j pos inside (λ e. ne (sym e))
    ]

-- The same entries, in another order.
pub record Shuffled (h h' : Heap) : Type 0 where
  pub size : length h' ≡ length h
  pub to : (e : Entry) → Holds h e → Holds h' e
  pub from : (e : Entry) → Holds h' e → Holds h e

pub Shuffled-refl : (h : Heap) → Shuffled h h
Shuffled-refl h = record { size = refl; to = λ e x. x; from = λ e x. x }

pub Shuffled-swap :
    (h h' : Heap) (i j : ℕ)
    → i < length h
    → j < length h
    → Shuffled (heap_swap h i j) h'
    → Shuffled h h'
Shuffled-swap h h' i j low low' s = record {
  size = s.size ∙ length-heap_swap h i j;
  to = λ e x. s.to e ((Holds-heap_swap h i j e low low').0 x);
  from = λ e x. (Holds-heap_swap h i j e low low').1 (s.from e x);
}

sift_up-Shuffled : (fuel i : ℕ) (h : Heap) → i < length h → Shuffled h (sift_up fuel i h)
unfolding sift_up
sift_up-Shuffled zero i h low = Shuffled-refl h
sift_up-Shuffled (suc fuel) i h low =
    let p : ℕ = (i - 1) / 2 in
    if-cases (Shuffled h) (i == 0) (λ e. Shuffled-refl h)
      (λ e.
        if-cases (Shuffled h) (leb (key h i) (key h p)) (λ le. Shuffled-refl h)
          (λ gt. Shuffled-swap h (sift_up fuel p (heap_swap h p i)) p i (omega (arith, low)) low (
            sift_up-Shuffled fuel p (heap_swap h p i)
              (omega (arith, low, length-heap_swap h p i)))))

-- `heap_push` keeps the order, and adds the entry to those of the heap.
pub heap_push-IsHeap : (h : Heap) (prio c : ℕ) → IsHeap h → IsHeap (heap_push h prio c)
unfolding heap_push
heap_push-IsHeap h prio c o =
    sift_up-IsHeap (length h) (length h) (h ++ (e ∷ [])) (omega arith) (omega (arith, size))
      (record {
        edges = λ j pos inside ne.
            let low : j < length h = omega (arith, inside, ne, size) in
            let here : key (h ++ (e ∷ [])) j ≡ key h j =
              ap (λ x. x.priority) (at-append_old h e j low) in
            let there : key (h ++ (e ∷ [])) ((j - 1) / 2) ≡ key h ((j - 1) / 2) =
              ap (λ x. x.priority) (at-append_old h e ((j - 1) / 2) (omega (arith, low))) in
            omega (arith, here, there, o j pos low);
        across = λ j pos inside some_i under. absurd (omega (arith, inside, under, size, pos));
      })
  where
    e : Entry
    e = record { priority = prio; chunk_id = c }

    size : length (h ++ (e ∷ [])) ≡ suc (length h)
    size = omega (arith, length-append h (e ∷ []))

pub heap_push-Holds :
    (h : Heap) (prio c : ℕ) (e : Entry)
    → Holds (heap_push h prio c) e ↔ (Holds h e ⊎ (record { priority = prio; chunk_id = c } ≡ e))
unfolding heap_push
heap_push-Holds h prio c e =
    let new : Entry = record { priority = prio; chunk_id = c } in
    let s =
      sift_up-Shuffled (length h) (length h) (h ++ (new ∷ []))
        (omega (arith, length-append h (new ∷ []))) in
    (λ x. (Holds-append h new e).0 (s.from e x), λ x. s.to e ((Holds-append h new e).1 x))

pub length-heap_push : (h : Heap) (prio c : ℕ) → length (heap_push h prio c) ≡ suc (length h)
unfolding heap_push
length-heap_push h prio c =
    let new : Entry = record { priority = prio; chunk_id = c } in
    let size : length (h ++ (new ∷ [])) ≡ suc (length h) =
      omega (arith, length-append h (new ∷ [])) in
    (sift_up-Shuffled (length h) (length h) (h ++ (new ∷ [])) (omega (arith, size))).size ∙ size
