-- ===== src/Belady/Entries.antt =====
-- What a heap holds, by index, src/belady.c.
use residctl.Prelude.{
  inl, inr, ◌⊎◌, ℕ, zero, suc, ◌-◌, ◌≡◌, ◌≢◌, ◌<◌, refl, sym, subst, ◌∙◌, ◌↔◌, [], ◌∷◌, ◌++◌, arith,
  length, set, ℕ_discrete, length-set, length-append, get_or-set_self, get_or-set_ne,
}
use residctl.Belady.{Entry, Heap, at, heap_swap, drop_last}

-- The entry stands in the heap.
abbrev pub Holds : Heap → Entry → Type 0
Holds h e = (i : ℕ) × (i < length h) × (at h i ≡ e)

abbrev nil : Entry
nil = record { priority = 0; chunk_id = 0 }

pub length-heap_swap : (h : Heap) (i j : ℕ) → length (heap_swap h i j) ≡ length h
length-heap_swap h i j = length-set (set h i (at h j)) j (at h i) ∙ length-set h i (at h j)

pub at-heap_swap_right : (h : Heap) (i j : ℕ) → j < length h → at (heap_swap h i j) j ≡ at h i
at-heap_swap_right h i j low =
    get_or-set_self (set h i (at h j)) j (at h i) nil (omega (arith, low, length-set h i (at h j)))

pub at-heap_swap_left : (h : Heap) (i j : ℕ) → i < length h → at (heap_swap h i j) i ≡ at h j
at-heap_swap_left h i j low = elim (ℕ_discrete j i) [
  | yes same ↦
      subst (λ k. at (heap_swap h i k) i ≡ at h k) (sym same) (at-heap_swap_right h i i low)
  | no apart ↦
      get_or-set_ne (set h i (at h j)) j i (at h i) nil apart ∙ get_or-set_self h i (at h j) nil low
]

pub at-heap_swap_ne : (h : Heap) (i j k : ℕ) → i ≢ k → j ≢ k → at (heap_swap h i j) k ≡ at h k
at-heap_swap_ne h i j k ne ne' =
    get_or-set_ne (set h i (at h j)) j k (at h i) nil ne' ∙ get_or-set_ne h i k (at h j) nil ne

-- An exchange keeps what the heap holds.
pub Holds-heap_swap :
    (h : Heap) (i j : ℕ) (e : Entry)
    → i < length h
    → j < length h
    → Holds h e ↔ Holds (heap_swap h i j) e
Holds-heap_swap h i j e low low' = (to, from)
  where
    size : length (heap_swap h i j) ≡ length h
    size = length-heap_swap h i j

    to : Holds h e → Holds (heap_swap h i j) e
    to (k, inside, here) = elim (ℕ_discrete i k) [
      | yes at_i ↦ (
        j,
        omega (arith, low', size),
        at-heap_swap_right h i j low' ∙ subst (λ x. at h x ≡ e) (sym at_i) here,
      )
      | no ne ↦ elim (ℕ_discrete j k) [
        | yes at_j ↦ (
          i,
          omega (arith, low, size),
          at-heap_swap_left h i j low ∙ subst (λ x. at h x ≡ e) (sym at_j) here,
        )
        | no ne' ↦ (k, omega (arith, inside, size), at-heap_swap_ne h i j k ne ne' ∙ here)
      ]
    ]

    from : Holds (heap_swap h i j) e → Holds h e
    from (k, inside, here) = elim (ℕ_discrete i k) [
      | yes at_i ↦ (
        j,
        low',
        sym (at-heap_swap_left h i j low) ∙ subst (λ x. at (heap_swap h i j) x ≡ e) (sym at_i) here,
      )
      | no ne ↦ elim (ℕ_discrete j k) [
        | yes at_j ↦ (
          i,
          low,
          sym (at-heap_swap_right h i j low')
              ∙ subst (λ x. at (heap_swap h i j) x ≡ e) (sym at_j) here,
        )
        | no ne' ↦ (k, omega (arith, inside, size), sym (at-heap_swap_ne h i j k ne ne') ∙ here)
      ]
    ]

pub at-append_old : (h : Heap) (e : Entry) (i : ℕ) → i < length h → at (h ++ (e ∷ [])) i ≡ at h i
at-append_old [] e i low = absurd (omega arith)
at-append_old (x ∷ h) e zero low = refl
at-append_old (x ∷ h) e (suc i) low = at-append_old h e i (omega (arith, low))

pub at-append_new : (h : Heap) (e : Entry) → at (h ++ (e ∷ [])) (length h) ≡ e
at-append_new [] e = refl
at-append_new (x ∷ h) e = at-append_new h e

-- What stands behind the append of an entry.
pub Holds-append : (h : Heap) (e e' : Entry) → Holds (h ++ (e ∷ [])) e' ↔ (Holds h e' ⊎ (e ≡ e'))
Holds-append h e e' = (to, from)
  where
    size : length (h ++ (e ∷ [])) ≡ suc (length h)
    size = omega (arith, length-append h (e ∷ []))

    to : Holds (h ++ (e ∷ [])) e' → Holds h e' ⊎ (e ≡ e')
    to (k, inside, here) = elim (ℕ_discrete (length h) k) [
      | yes last ↦
          inr (sym (at-append_new h e) ∙ subst (λ x. at (h ++ (e ∷ [])) x ≡ e') (sym last) here)
      | no ne ↦
          let low : k < length h = omega (arith, inside, size, ne) in
          inl (k, low, sym (at-append_old h e k low) ∙ here)
    ]

    from : Holds h e' ⊎ (e ≡ e') → Holds (h ++ (e ∷ [])) e'
    from (inl (k, low, here)) = (k, omega (arith, low, size), at-append_old h e k low ∙ here)
    from (inr same) = (length h, omega (arith, size), at-append_new h e ∙ same)

pub length-drop_last : (h : Heap) → length (drop_last h) ≡ length h - 1
length-drop_last [] = refl
length-drop_last (e ∷ []) = refl
length-drop_last (e ∷ e' ∷ h) = omega (arith, length-drop_last (e' ∷ h))

pub at-drop_last : (h : Heap) (i : ℕ) → suc i < length h → at (drop_last h) i ≡ at h i
at-drop_last [] i low = absurd (omega arith)
at-drop_last (e ∷ []) i low = absurd (omega (arith, low))
at-drop_last (e ∷ e' ∷ h) zero low = refl
at-drop_last (e ∷ e' ∷ h) (suc i) low = at-drop_last (e' ∷ h) i (omega (arith, low))
