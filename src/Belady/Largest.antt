-- ===== src/Belady/Largest.antt =====
-- The exchanges of `heap_pop_max` with the larger child, src/belady.c.
use residctl.Prelude.{
  ℕ, ◌+◌, ◌-◌, ◌*◌, ◌/◌, ◌≡◌, ◌≢◌, ◌≤◌, ◌<◌, refl, sym, ap, subst, ◌∙◌, ◌⊎◌, inl, inr, ◌&&◌, arith,
  length, ltb, ℕ_discrete, if-cases,
}
use residctl.Belady.{Heap, key, heap_swap, larger}
use residctl.Belady.Entries.{
  length-heap_swap, at-heap_swap_left, at-heap_swap_right, at-heap_swap_ne,
}

-- The order but for the edges below `i`, past which it holds.
pub record IsHeapBelow (i : ℕ) (h : Heap) : Type 0 where
  pub edges : (j : ℕ) → 0 < j → j < length h → (j - 1) / 2 ≢ i → key h j ≤ key h ((j - 1) / 2)
  pub across :
      (j : ℕ) → 0 < j → j < length h → 0 < i → (j - 1) / 2 ≡ i → key h j ≤ key h ((i - 1) / 2)

-- The largest of a node and its children.
pub record IsLargest (h : Heap) (i m : ℕ) : Type 0 where
  pub place : (m ≡ i) ⊎ ((0 < m) × (m < length h) × ((m - 1) / 2 ≡ i) × (key h i < key h m))
  pub most : (j : ℕ) → 0 < j → j < length h → (j - 1) / 2 ≡ i → key h j ≤ key h m

larger-most :
    (h : Heap) (m child : ℕ)
    → (child < length h → key h child ≤ key h (larger h m child))
      × (key h m ≤ key h (larger h m child))
larger-most h m child =
    if-cases (λ x. (child < length h → key h child ≤ key h x) × (key h m ≤ key h x))
      (ltb child (length h) && ltb (key h m) (key h child))
      (λ e. (λ _. omega arith, ground (arith, e)))
      (λ e. (λ inside. ground (arith, e, inside), omega arith))

larger-place :
    (h : Heap) (m child : ℕ)
    → (larger h m child ≡ m)
      ⊎ ((larger h m child ≡ child) × (child < length h) × (key h m < key h (larger h m child)))
larger-place h m child =
    if-cases (λ x. (x ≡ m) ⊎ ((x ≡ child) × (child < length h) × (key h m < key h x)))
      (ltb child (length h) && ltb (key h m) (key h child))
      (λ e. inr (refl, ground (arith, e), ground (arith, e))) (λ e. inl refl)

pub larger-IsLargest :
    (h : Heap) (i : ℕ) → IsLargest h i (larger h (larger h i (2 * i + 1)) (2 * i + 2))
larger-IsLargest h i = record { place = place; most = most }
  where
    a : ℕ
    a = larger h i (2 * i + 1)

    b : ℕ
    b = larger h a (2 * i + 2)

    left : (2 * i + 1 < length h → key h (2 * i + 1) ≤ key h a) × (key h i ≤ key h a)
    left = larger-most h i (2 * i + 1)

    right : (2 * i + 2 < length h → key h (2 * i + 2) ≤ key h b) × (key h a ≤ key h b)
    right = larger-most h a (2 * i + 2)

    place : (b ≡ i) ⊎ ((0 < b) × (b < length h) × ((b - 1) / 2 ≡ i) × (key h i < key h b))
    place = elim (larger-place h a (2 * i + 2)) [
      | inr (e, inside, less) ↦ inr (
        omega (arith, e),
        omega (arith, e, inside),
        omega (arith, e),
        omega (arith, less, left.1),
      )
      | inl same ↦ elim (larger-place h i (2 * i + 1)) [
        | inl root ↦ inl (same ∙ root)
        | inr (e, inside, less) ↦
            let keys : key h b ≡ key h a = ap (key h) same in
            inr (
              omega (arith, e, same),
              omega (arith, e, same, inside),
              omega (arith, e, same),
              omega (arith, less, keys),
            )
      ]
    ]

    most : (j : ℕ) → 0 < j → j < length h → (j - 1) / 2 ≡ i → key h j ≤ key h b
    most j pos inside under = elim (ℕ_discrete (2 * i + 1) j) [
      | yes same ↦
          subst (λ x. key h x ≤ key h b) same
            (omega (arith, left.0 (omega (arith, same, inside)), right.1))
      | no ne ↦
          let same : 2 * i + 2 ≡ j = omega (arith, ne, under, pos) in
          subst (λ x. key h x ≤ key h b) same (right.0 (omega (arith, same, inside)))
    ]

pub IsHeapBelow-swap :
    (i m : ℕ) (h : Heap)
    → i < length h
    → 0 < m
    → m < length h
    → (m - 1) / 2 ≡ i
    → key h i < key h m
    → ((j : ℕ) → 0 < j → j < length h → (j - 1) / 2 ≡ i → key h j ≤ key h m)
    → IsHeapBelow i h
    → IsHeapBelow m (heap_swap h i m)
IsHeapBelow-swap i m h low pos inside under less most o = record { edges = edges; across = across }
  where
    h' : Heap
    h' = heap_swap h i m

    size : length h' ≡ length h
    size = length-heap_swap h i m

    at_i : key h' i ≡ key h m
    at_i = ap (λ e. e.priority) (at-heap_swap_left h i m low)

    at_m : key h' m ≡ key h i
    at_m = ap (λ e. e.priority) (at-heap_swap_right h i m inside)

    apart : (k : ℕ) → i ≢ k → m ≢ k → key h' k ≡ key h k
    apart k ne ne' = ap (λ e. e.priority) (at-heap_swap_ne h i m k ne ne')

    edges : (j : ℕ) → 0 < j → j < length h' → (j - 1) / 2 ≢ m → key h' j ≤ key h' ((j - 1) / 2)
    edges j some_j low_j out = elim (ℕ_discrete i ((j - 1) / 2)) [
      | yes child ↦ elim (ℕ_discrete m j) [
        | yes same ↦
            subst (λ x. key h' j ≤ key h' x) child
              (subst (λ x. key h' x ≤ key h' i) same (omega (arith, at_i, at_m, less)))
        | no ne ↦
            let kept : key h' j ≡ key h j = apart j (λ e. omega (arith, e, child, some_j)) ne in
            subst (λ x. key h' j ≤ key h' x) child
              (omega (arith, kept, at_i, most j some_j (omega (arith, low_j, size)) (sym child)))
      ]
      | no far ↦
          let top : key h' ((j - 1) / 2) ≡ key h ((j - 1) / 2) =
            apart ((j - 1) / 2) far (λ e. out (sym e)) in
          elim (ℕ_discrete i j) [
            | yes same ↦
                let over = o.across m pos inside (omega (arith, same, some_j)) under in
                let top' : key h' ((i - 1) / 2) ≡ key h ((i - 1) / 2) =
                  subst (λ x. key h' ((x - 1) / 2) ≡ key h ((x - 1) / 2)) (sym same) top in
                subst (λ x. key h' x ≤ key h' ((x - 1) / 2)) same (omega (arith, at_i, top', over))
            | no ne ↦
                let kept : key h' j ≡ key h j =
                  apart j ne (λ e. far (sym (ap (λ x. (x - 1) / 2) (sym e) ∙ under))) in
                omega (
                  arith,
                  kept,
                  top,
                  o.edges j some_j (omega (arith, low_j, size)) (λ e. far (sym e)),
                )
          ]
    ]

    across :
        (j : ℕ) → 0 < j → j < length h' → 0 < m → (j - 1) / 2 ≡ m → key h' j ≤ key h' ((m - 1) / 2)
    across j some_j low_j _ below =
        let kept : key h' j ≡ key h j =
          apart j (λ e. omega (arith, e, below, under, pos))
            (λ e. omega (arith, e, below, some_j)) in
        let edge : key h j ≤ key h m =
          subst (λ x. key h j ≤ key h x) below
            (o.edges j some_j (omega (arith, low_j, size))
              (λ e. omega (arith, e, below, under, pos))) in
        subst (λ x. key h' j ≤ key h' x) (sym under) (omega (arith, kept, at_i, edge))
