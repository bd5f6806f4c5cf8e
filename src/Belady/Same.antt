-- ===== src/Belady/Same.antt =====
-- When the caches of `belady_simulate`, src/belady.c, and of `naive_belady`, src/belady_main.c, hold the same.
use residctl.Prelude.{
  ℕ, suc, ◌+◌, ◌==◌, ◌≡◌, ◌≢◌, ◌≤◌, ◌<◌, refl, sym, ap, ◌∙◌, ◌⊎◌, inl, inr, Bool, true, false, List,
  [], ◌∷◌, arith, if◌then◌else◌, length, uint64_max, ℕ_discrete, if-cases,
}
use residctl.Belady.Naive.{next_occurrence}
use residctl.Belady.Sets.{In, Distinct, remove, In-remove, length-remove, subset-all}
use residctl.Belady.Farthest.{IsAdded}
use residctl.Belady.Slots.{IsReplaced}

pub next_occurrence-bounds :
    (j : ℕ) (rest : List ℕ) (c : ℕ)
    → (next_occurrence j rest c ≡ uint64_max)
      ⊎ ((j ≤ next_occurrence j rest c) × (next_occurrence j rest c < j + length rest))
unfolding next_occurrence
next_occurrence-bounds j [] c = inl refl
next_occurrence-bounds j (x ∷ rest) c =
    if-cases (λ k. (k ≡ uint64_max) ⊎ ((j ≤ k) × (k < j + suc (length rest)))) (x == c)
      (λ _. inr (omega arith, omega arith))
      (λ _. elim (next_occurrence-bounds (suc j) rest c) [
        | inl e ↦ inl e
        | inr (low, high) ↦ inr (omega (arith, low), omega (arith, high))
      ])

-- Two chunks that are used again are not used next at the same position.
pub next_occurrence-inj :
    (j : ℕ) (rest : List ℕ) (c d : ℕ)
    → j + length rest ≤ uint64_max
    → next_occurrence j rest c ≢ uint64_max
    → next_occurrence j rest c ≡ next_occurrence j rest d
    → c ≡ d
unfolding next_occurrence
next_occurrence-inj j [] c d small live same = absurd (live refl)
next_occurrence-inj j (x ∷ rest) c d small live same =
    by_tests (x == c) (x == d) refl refl live same
      (next_occurrence-inj (suc j) rest c d (omega (arith, small)))
  where
    nc : ℕ
    nc = next_occurrence (suc j) rest c

    nd : ℕ
    nd = next_occurrence (suc j) rest d

    off : (e : ℕ) → j ≡ next_occurrence (suc j) rest e → ⊥
    off e here = elim (next_occurrence-bounds (suc j) rest e) [
      | inl gone ↦ omega (arith, gone, here, small)
      | inr (low, _) ↦ omega (arith, low, here)
    ]

    by_tests :
        (b b' : Bool)
        → (x == c) ≡ b
        → (x == d) ≡ b'
        → (if b then j else nc) ≢ uint64_max
        → (if b then j else nc) ≡ (if b' then j else nd)
        → (nc ≢ uint64_max → nc ≡ nd → c ≡ d)
        → c ≡ d
    by_tests true true e e' live same rest_inj = ground (arith, e, e')
    by_tests true false e e' live same rest_inj = absurd (off d same)
    by_tests false true e e' live same rest_inj = absurd (off c (sym same))
    by_tests false false e e' live same rest_inj = rest_inj live same

-- Two caches of the same size hold the same of the chunks that are used again.
pub record IsSame (next : ℕ → ℕ) (xs ys : List ℕ) : Type 0 where
  pub size : length xs ≡ length ys
  pub to : (c : ℕ) → next c ≢ uint64_max → In c xs → In c ys
  pub from : (c : ℕ) → next c ≢ uint64_max → In c ys → In c xs

-- The chunks that the two evict are the same, or neither is used again.
pub same_victims :
    (next : ℕ → ℕ) (xs ys : List ℕ) (v w : ℕ)
    → ((c : ℕ) → next c ≤ uint64_max)
    → ((c d : ℕ) → next c ≢ uint64_max → next c ≡ next d → c ≡ d)
    → IsSame next xs ys
    → Distinct xs
    → Distinct ys
    → In v xs
    → In w ys
    → ((c : ℕ) → In c xs → next c ≤ next v)
    → ((c : ℕ) → In c ys → next c ≤ next w)
    → (v ≡ w) ⊎ ((next v ≡ uint64_max) × (next w ≡ uint64_max))
same_victims next xs ys v w bound inj same dx dy vx wy most_v most_w =
    elim (ℕ_discrete (next v) uint64_max) [
      | no live ↦
          let all : (c : ℕ) → In c xs → In c ys =
            λ c got. same.to c (λ e. live (omega (arith, e, most_v c got, bound v))) got in
          let back = subset-all xs ys dx (omega (arith, same.size)) all in
          inl (inj v w live (omega (arith, most_v w (back w wy), most_w v (all v vx))))
      | yes dead ↦ elim (ℕ_discrete (next w) uint64_max) [
        | yes dead' ↦ inr (dead, dead')
        | no live ↦
            let all : (c : ℕ) → In c ys → In c xs =
              λ c got. same.from c (λ e. live (omega (arith, e, most_w c got, bound w))) got in
            let back = subset-all ys xs dy (omega (arith, same.size)) all in
            inl (sym (inj w v live (omega (arith, most_v w (all w wy), most_w v (back v vx)))))
      ]
    ]

pub next_occurrence-now :
    (i x : ℕ) (rest : List ℕ)
    → i + suc (length rest) ≤ uint64_max
    → next_occurrence i (x ∷ rest) x ≢ uint64_max
unfolding next_occurrence
next_occurrence-now i x rest small =
    if-cases (λ k. k ≢ uint64_max) (x == x) (λ _ e. omega (arith, e, small))
      (λ e. absurd (ground (arith, e)))

-- A chunk that is used again behind a reference was so before it.
live_before :
    (i x c : ℕ) (rest : List ℕ)
    → i + suc (length rest) ≤ uint64_max
    → next_occurrence (suc i) rest c ≢ uint64_max
    → next_occurrence i (x ∷ rest) c ≢ uint64_max
unfolding next_occurrence
live_before i x c rest small live =
    if-cases (λ k. k ≢ uint64_max) (x == c) (λ _ e. omega (arith, e, small)) (λ _. live)

-- The caches stay the same in what is used again.
pub hit-IsSame :
    (i x : ℕ) (rest xs ys : List ℕ)
    → i + suc (length rest) ≤ uint64_max
    → IsSame (next_occurrence i (x ∷ rest)) xs ys
    → IsSame (next_occurrence (suc i) rest) xs ys
hit-IsSame i x rest xs ys small p = record {
  size = p.size;
  to = λ c live got. p.to c (live_before i x c rest small live) got;
  from = λ c live got. p.from c (live_before i x c rest small live) got;
}

pub added-IsSame :
    (next : ℕ → ℕ) (x : ℕ) (xs ys zs : List ℕ)
    → IsSame next xs ys
    → IsAdded x ys zs
    → IsSame next (x ∷ xs) zs
added-IsSame next x xs ys zs p a = record {
  size = omega (arith, p.size, a.size);
  to = λ c live got. elim got [
    | inl here ↦ a.from c (inl here)
    | inr old ↦ a.from c (inr (p.to c live old))
  ];
  from =
      λ c live got. elim (a.to c got) [ inl here ↦ inl here | inr old ↦ inr (p.from c live old) ];
}

pub replaced-IsSame :
    (next : ℕ → ℕ) (x v w : ℕ) (xs ys zs : List ℕ)
    → IsSame next xs ys
    → IsReplaced x w ys zs
    → Distinct xs
    → In v xs
    → (v ≡ w) ⊎ ((next v ≡ uint64_max) × (next w ≡ uint64_max))
    → IsSame next (x ∷ remove v xs) zs
replaced-IsSame next x v w xs ys zs p r dx vx victims = record {
  size = omega (arith, p.size, r.size, length-remove v xs dx vx);
  to = λ c live got. elim got [
    | inl here ↦ r.from c (inl here)
    | inr there ↦
        let (old, ne) = (In-remove c v xs).0 there in
        r.from c (inr (p.to c live old, apart c live ne))
  ];
  from = λ c live got. elim (r.to c got) [
    | inl here ↦ inl here
    | inr (old, ne) ↦ inr ((In-remove c v xs).1 (p.from c live old, apart' c live ne))
  ];
}
  where
    apart : (c : ℕ) → next c ≢ uint64_max → c ≢ v → c ≢ w
    apart c live ne e = elim victims [
      | inl same ↦ ne (e ∙ sym same)
      | inr (_, dead) ↦ live (ap next e ∙ dead)
    ]

    apart' : (c : ℕ) → next c ≢ uint64_max → c ≢ w → c ≢ v
    apart' c live ne e = elim victims [
      | inl same ↦ ne (e ∙ same)
      | inr (dead, _) ↦ live (ap next e ∙ dead)
    ]
