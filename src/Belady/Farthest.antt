-- ===== src/Belady/Farthest.antt =====
-- The hits, the free slots and the farthest chunk of `naive_belady`, src/belady_main.c.
use residctl.Prelude.{
  true-ne-false, ℕ, zero, suc, ◌+◌, ◌==◌, ◌≡◌, ◌≤◌, ◌<◌, refl, sym, ap, subst, ◌⊎◌, inl, inr, Bool,
  true, false, ◌||◌, List, [], ◌∷◌, some, none, arith, if◌then◌else◌, length, get_elem?, set,
  replicate, ltb, if-cases,
}
use residctl.Belady.Naive.{Slots, is_cached, first_free, farthest}
use residctl.Belady.Sets.{In, Distinct}

-- The chunks in the slots.
abbrev pub chunks_in : Slots → List ℕ
chunks_in [] = []
chunks_in (none ∷ slots) = chunks_in slots
chunks_in (some c ∷ slots) = c ∷ chunks_in slots

pub chunks_in-start : (n : ℕ) → chunks_in (replicate n none) ≡ []
chunks_in-start zero = refl
chunks_in-start (suc n) = chunks_in-start n

-- The search for a hit.
pub is_cached-In :
    (c : ℕ) (slots : Slots)
    → ((is_cached c slots ≡ true) → In c (chunks_in slots))
      × (In c (chunks_in slots) → is_cached c slots ≡ true)
is_cached-In c [] = (λ e. true-ne-false (sym e), λ x. absurd x)
is_cached-In c (none ∷ slots) = is_cached-In c slots
is_cached-In c (some x ∷ slots) = by_test (x == c) refl (is_cached-In c slots)
  where
    by_test :
        (b : Bool)
        → (x == c) ≡ b
        → ((is_cached c slots ≡ true) → In c (chunks_in slots))
          × (In c (chunks_in slots) → is_cached c slots ≡ true)
        → (((if b then true else is_cached c slots) ≡ true) → In c (x ∷ chunks_in slots))
          × (In c (x ∷ chunks_in slots) → (if b then true else is_cached c slots) ≡ true)
    by_test true e rest = (λ _. inl (ground (arith, e)), λ _. refl)
    by_test false e rest = (
      λ on. inr (rest.0 on),
      λ got. elim got [ inl same ↦ absurd (ground (arith, e, same)) | inr there ↦ rest.1 there ],
    )

-- A chunk put in a free slot.
pub record IsAdded (c : ℕ) (xs ys : List ℕ) : Type 0 where
  pub to : (d : ℕ) → In d ys → (c ≡ d) ⊎ In d xs
  pub from : (d : ℕ) → (c ≡ d) ⊎ In d xs → In d ys
  pub distinct : (In c xs → ⊥) → Distinct xs → Distinct ys
  pub size : length ys ≡ suc (length xs)

pub first_free-IsAdded :
    (k : ℕ) (slots : Slots) (c m : ℕ)
    → first_free k slots ≡ some m
    → (j : ℕ) × (m ≡ k + j) × IsAdded c (chunks_in slots) (chunks_in (set slots j (some c)))
first_free-IsAdded k [] c m e = cc e
first_free-IsAdded k (none ∷ slots) c m e = (
  0,
  (let same : k ≡ m = cc e in omega (arith, same)),
  record { to = λ d x. x; from = λ d x. x; distinct = λ out d. (out, d); size = refl },
)
first_free-IsAdded k (some x ∷ slots) c m e =
    let (j, place, a) = first_free-IsAdded (suc k) slots c m e in
    (
      suc j,
      omega (arith, place),
      record {
        to = λ d got. elim got [
          | inl same ↦ inr (inl same)
          | inr there ↦ elim (a.to d there) [ inl new ↦ inl new | inr old ↦ inr (inr old) ]
        ];
        from = λ d got. elim got [
          | inl new ↦ inr (a.from d (inl new))
          | inr old ↦ elim old [ inl same ↦ inl same | inr there ↦ inr (a.from d (inr there)) ]
        ];
        distinct = λ out d. (
          λ got. elim (a.to x got) [ inl new ↦ out (inl (sym new)) | inr old ↦ d.0 old ],
          a.distinct (λ there. out (inr there)) d.1,
        );
        size = ap suc a.size;
      },
    )

-- No slot is free: all hold a chunk.
abbrev pub AreFull : Slots → Type 0
AreFull [] = Unit {0}
AreFull (none ∷ slots) = ⊥
AreFull (some c ∷ slots) = AreFull slots

pub first_free-AreFull :
    (k : ℕ) (slots : Slots)
    → first_free k slots ≡ none
    → AreFull slots × (length (chunks_in slots) ≡ length slots)
first_free-AreFull k [] e = (tt, refl)
first_free-AreFull k (none ∷ slots) e = cc e
first_free-AreFull k (some c ∷ slots) e =
    let (full, size) = first_free-AreFull (suc k) slots e in (full, ap suc size)

-- The slot that the scan for the farthest chunk ends at.
abbrev pub IsFarthest : (next : ℕ → ℕ) (k best_dist best_slot : ℕ) (slots : Slots) (m : ℕ) → Type 0
IsFarthest next k best_dist best_slot slots m =
    ((m ≡ best_slot)
      × (0 < k + length slots → 0 < k)
      × ((d : ℕ) → In d (chunks_in slots) → next d ≤ best_dist))
    ⊎ ((j : ℕ) × (w : ℕ) × (m ≡ k + j)
        × (get_elem? slots j ≡ some (some w))
        × (0 < k → best_dist ≤ next w)
        × ((d : ℕ) → In d (chunks_in slots) → next d ≤ next w))

pub farthest-IsFarthest :
    (next : ℕ → ℕ) (k best_dist best_slot : ℕ) (slots : Slots)
    → AreFull slots
    → IsFarthest next k best_dist best_slot slots (farthest next k best_dist best_slot slots)
unfolding farthest
farthest-IsFarthest next k best_dist best_slot [] full =
    inl (refl, λ some_k. omega (arith, some_k), λ d x. absurd x)
farthest-IsFarthest next k best_dist best_slot (none ∷ slots) full = absurd full
farthest-IsFarthest next k best_dist best_slot (some c ∷ slots) full =
    if-cases (IsFarthest next k best_dist best_slot (some c ∷ slots))
      ((k == 0) || ltb best_dist (next c))
      (λ e.
        taken (farthest next (suc k) (next c) k slots) e
          (farthest-IsFarthest next (suc k) (next c) k slots full))
      (λ e.
        passed (farthest next (suc k) best_dist best_slot slots) e
          (farthest-IsFarthest next (suc k) best_dist best_slot slots full))
  where
    taken :
        (m : ℕ)
        → ((k == 0) || ltb best_dist (next c)) ≡ true
        → IsFarthest next (suc k) (next c) k slots m
        → IsFarthest next k best_dist best_slot (some c ∷ slots) m
    taken m e (inl (place, _, least)) = inr (
      0,
      c,
      omega (arith, place),
      refl,
      λ some_k. ground (arith, e, some_k),
      λ d got. elim got [
        | inl same ↦ subst (λ x. next x ≤ next c) same (omega arith)
        | inr there ↦ least d there
      ],
    )
    taken m e (inr (j, w, place, here, above, least)) =
        let more : next c ≤ next w = above (omega arith) in
        inr (
          suc j,
          w,
          omega (arith, place),
          here,
          λ some_k. ground (arith, e, some_k, more),
          λ d got. elim got [
            | inl same ↦ subst (λ x. next x ≤ next w) same more
            | inr there ↦ least d there
          ],
        )

    passed :
        (m : ℕ)
        → ((k == 0) || ltb best_dist (next c)) ≡ false
        → IsFarthest next (suc k) best_dist best_slot slots m
        → IsFarthest next k best_dist best_slot (some c ∷ slots) m
    passed m e (inl (place, _, least)) =
        let less : next c ≤ best_dist = ground (arith, e) in
        inl (
          place,
          λ _. ground (arith, e),
          λ d got. elim got [
            | inl same ↦ subst (λ x. next x ≤ best_dist) same less
            | inr there ↦ least d there
          ],
        )
    passed m e (inr (j, w, place, here, above, least)) =
        let less : next c ≤ best_dist = ground (arith, e) in
        let more : best_dist ≤ next w = above (omega arith) in
        inr (
          suc j,
          w,
          omega (arith, place),
          here,
          λ _. more,
          λ d got. elim got [
            | inl same ↦ subst (λ x. next x ≤ next w) same (omega (arith, less, more))
            | inr there ↦ least d there
          ],
        )
