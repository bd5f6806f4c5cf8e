-- ===== src/Belady/Occurrences.antt =====
-- The tables of `belady_simulate`, src/belady.c: what the read pointer of a chunk finds is its next occurrence.
use residctl.Prelude.{
  get_or-replicate, ℕ, zero, suc, ◌+◌, ◌-◌, ◌==◌, ◌^◌, ◌≡◌, ◌≢◌, ◌≤◌, ◌<◌, refl, sym, ap, subst,
  ◌∙◌, Bool, true, false, List, [], ◌∷◌, ◌++◌, arith, if◌then◌else◌, length, get_or, set, replicate,
  ltb, add32, uint64_max, ℕ_discrete, if-cases, length-set, length-replicate, get_or-set_self,
  get_or-set_ne,
}
use mathlib.Core.List.{append-nil, append_assoc}
use residctl.Trace.{drop}
use residctl.Belady.{count_chunks, fill, next_pos}
use residctl.Belady.Naive.{next_occurrence}

-- The positions of a chunk in what is left from position `i` on.
abbrev pub positions : ℕ → List ℕ → ℕ → List ℕ
positions i [] c = []
positions i (x ∷ rest) c = if x == c then i ∷ positions (suc i) rest c else positions (suc i) rest c

-- Every chunk of the string is below a bound.
abbrev pub AreBelow : ℕ → List ℕ → Type 0
AreBelow n [] = Unit {0}
AreBelow n (x ∷ rest) = (x < n) × AreBelow n rest

pub AreBelow-mono : (n m : ℕ) (ref : List ℕ) → n ≤ m → AreBelow n ref → AreBelow m ref
AreBelow-mono n m [] le b = tt
AreBelow-mono n m (x ∷ ref) le (here, b) = (omega (arith, le, here), AreBelow-mono n m ref le b)

count_chunks_mono : (ref : List ℕ) (n : ℕ) → n ≤ count_chunks ref n
unfolding count_chunks
count_chunks_mono [] n = omega arith
count_chunks_mono (x ∷ ref) n =
    if-cases (λ k. n ≤ count_chunks ref k) (ltb n (add32 x 1))
      (λ e.
        let less : n < add32 x 1 = ground (arith, e) in
        omega (arith, count_chunks_mono ref (add32 x 1), less))
      (λ e. count_chunks_mono ref n)

-- No chunk number is the greatest `uint32_t`: then the tables have a row for each chunk.
pub count_chunks-AreBelow :
    (ref : List ℕ) (n : ℕ) → AreBelow (2 ^ 32 - 1) ref → AreBelow (count_chunks ref n) ref
unfolding count_chunks
count_chunks-AreBelow [] n small = tt
count_chunks-AreBelow (x ∷ ref) n (here, small) =
    if-cases (λ k. (x < count_chunks ref k) × AreBelow (count_chunks ref k) ref) (ltb n (add32 x 1))
      (λ e.
        let wrap : add32 x 1 ≡ suc x = omega (arith, here) in
        (
          omega (arith, wrap, count_chunks_mono ref (add32 x 1)),
          count_chunks-AreBelow ref (add32 x 1) small,
        ))
      (λ e. (ground (arith, e, here, count_chunks_mono ref n), count_chunks-AreBelow ref n small))

pub fill-positions :
    (i : ℕ) (ref : List ℕ) (table : List (List ℕ)) (c : ℕ)
    → AreBelow (length table) ref
    → c < length table
    → get_or (fill i ref table) c [] ≡ get_or table c [] ++ positions i ref c
unfolding fill
fill-positions i [] table c small low = sym (append-nil (get_or table c []))
fill-positions i (x ∷ ref) table c (here, small) low =
    let row : List ℕ = get_or table x [] ++ (i ∷ []) in
    let size : length (set table x row) ≡ length table = length-set table x row in
    fill-positions (suc i) ref (set table x row) c
      (AreBelow-mono (length table) (length (set table x row)) ref (omega (arith, size)) small)
      (omega (arith, low, size))
    ∙ if-cases
        (λ ps. get_or (set table x row) c [] ++ positions (suc i) ref c ≡ get_or table c [] ++ ps)
        (x == c)
        (λ e.
          let same : x ≡ c = ground (arith, e) in
          subst
            (λ k.
              get_or (set table x row) k [] ++ positions (suc i) ref c
              ≡ get_or table k [] ++ (i ∷ positions (suc i) ref c))
            same
            (ap (λ r. r ++ positions (suc i) ref c) (get_or-set_self table x row [] here)
              ∙ append_assoc (get_or table x []) (i ∷ []) (positions (suc i) ref c)))
        (λ e.
          ap (λ r. r ++ positions (suc i) ref c)
            (get_or-set_ne table x c row [] (λ same. ground (arith, e, same))))

-- The first of a list of positions, or UINT64_MAX.
abbrev first_or_max : List ℕ → ℕ
first_or_max [] = uint64_max
first_or_max (p ∷ ps) = p

next_pos-first : (occ : List ℕ) (ptr : ℕ) → next_pos occ ptr ≡ first_or_max (drop ptr occ)
next_pos-first [] zero = refl
next_pos-first [] (suc ptr) = ground arith
next_pos-first (p ∷ occ) zero = ground arith
next_pos-first (p ∷ occ) (suc ptr) =
    if-cases (λ k. k ≡ first_or_max (drop ptr occ)) (ltb (suc ptr) (suc (length occ)))
      (λ e.
        if-cases
          (λ k. k ≡ first_or_max (drop ptr occ) → get_or occ ptr 0 ≡ first_or_max (drop ptr occ))
          (ltb ptr (length occ)) (λ _ same. same) (λ e' _. absurd (ground (arith, e, e')))
          (next_pos-first occ ptr))
      (λ e.
        if-cases (λ k. k ≡ first_or_max (drop ptr occ) → uint64_max ≡ first_or_max (drop ptr occ))
          (ltb ptr (length occ)) (λ e' _. absurd (ground (arith, e, e'))) (λ _ same. same)
          (next_pos-first occ ptr))

next_occurrence-first :
    (i : ℕ) (rest : List ℕ) (c : ℕ) → next_occurrence i rest c ≡ first_or_max (positions i rest c)
unfolding next_occurrence
next_occurrence-first i [] c = refl
next_occurrence-first i (x ∷ rest) c = by_test (x == c) (next_occurrence-first (suc i) rest c)
  where
    by_test :
        (b : Bool)
        → next_occurrence (suc i) rest c ≡ first_or_max (positions (suc i) rest c)
        → (if b then i else next_occurrence (suc i) rest c)
          ≡ first_or_max (if b then i ∷ positions (suc i) rest c else positions (suc i) rest c)
    by_test true later = refl
    by_test false later = later

drop-suc :
    (ptr : ℕ) (occ : List ℕ) (p : ℕ) (ps : List ℕ) → drop ptr occ ≡ p ∷ ps → drop (ptr + 1) occ ≡ ps
drop-suc ptr occ p ps e =
    let next : ptr + 1 ≡ suc ptr = omega arith in ap (λ k. drop k occ) next ∙ by_suc ptr occ e
  where
    by_suc : (ptr : ℕ) (occ : List ℕ) → drop ptr occ ≡ p ∷ ps → drop (suc ptr) occ ≡ ps
    by_suc zero [] e = cc e
    by_suc zero (q ∷ occ) e = cc e
    by_suc (suc ptr) [] e = cc e
    by_suc (suc ptr) (q ∷ occ) e = by_suc ptr occ e

-- The read pointers have passed what is behind position `i`.
pub IsRead : (n i : ℕ) (rest : List ℕ) (occurrence : List (List ℕ)) (ptrs : List ℕ) → Type 0
IsRead n i rest occurrence ptrs =
    (length ptrs ≡ n)
    × ((c : ℕ) → c < n → drop (get_or ptrs c 0) (get_or occurrence c []) ≡ positions i rest c)

positions_self : (i x : ℕ) (rest : List ℕ) → positions i (x ∷ rest) x ≡ i ∷ positions (suc i) rest x
positions_self i x rest =
    if-cases (λ ps. ps ≡ i ∷ positions (suc i) rest x) (x == x) (λ _. refl)
      (λ e. absurd (ground (arith, e)))

positions_other :
    (i x c : ℕ) (rest : List ℕ) → c ≢ x → positions i (x ∷ rest) c ≡ positions (suc i) rest c
positions_other i x c rest ne =
    if-cases (λ ps. ps ≡ positions (suc i) rest c) (x == c) (λ e. absurd (ne (ground (arith, e))))
      (λ _. refl)

pub refer-IsRead :
    (n i x : ℕ) (rest : List ℕ) (occurrence : List (List ℕ)) (ptrs : List ℕ)
    → x < n
    → IsRead n i (x ∷ rest) occurrence ptrs
    → IsRead n (suc i) rest occurrence (set ptrs x (get_or ptrs x 0 + 1))
      × (next_pos (get_or occurrence x []) (get_or ptrs x 0 + 1) ≡ next_occurrence (suc i) rest x)
unfolding IsRead
refer-IsRead n i x rest occurrence ptrs low (size, all) = (
  (
    length-set ptrs x (get_or ptrs x 0 + 1) ∙ size,
    λ c low_c. elim (ℕ_discrete x c) [
      | yes same ↦
          subst
            (λ k.
              drop (get_or (set ptrs x (get_or ptrs x 0 + 1)) k 0) (get_or occurrence k [])
              ≡ positions (suc i) rest k)
            same
            (ap (λ k. drop k (get_or occurrence x []))
                (get_or-set_self ptrs x (get_or ptrs x 0 + 1) 0 (omega (arith, low, size)))
              ∙ passed)
      | no ne ↦
          ap (λ k. drop k (get_or occurrence c []))
            (get_or-set_ne ptrs x c (get_or ptrs x 0 + 1) 0 ne)
          ∙ (all c low_c ∙ positions_other i x c rest (λ e. ne (sym e)))
    ],
  ),
  next_pos-first (get_or occurrence x []) (get_or ptrs x 0 + 1)
      ∙ (ap first_or_max passed ∙ sym (next_occurrence-first (suc i) rest x)),
)
  where
    passed : drop (get_or ptrs x 0 + 1) (get_or occurrence x []) ≡ positions (suc i) rest x
    passed =
        drop-suc (get_or ptrs x 0) (get_or occurrence x []) i (positions (suc i) rest x)
          (all x low ∙ positions_self i x rest)

pub fill-IsRead :
    (n : ℕ) (ref : List ℕ)
    → AreBelow n ref
    → IsRead n 0 ref (fill 0 ref (replicate n [])) (replicate n 0)
unfolding IsRead
fill-IsRead n ref below = (
  length-replicate n 0,
  λ c low.
      let table : List (List ℕ) = replicate n [] in
      let size : length table ≡ n = length-replicate n [] in
      ap (λ k. drop k (get_or (fill 0 ref table) c [])) (get_or-replicate n c 0)
      ∙ (fill-positions 0 ref table c
            (AreBelow-mono n (length table) ref (omega (arith, size)) below)
            (omega (arith, low, size))
          ∙ ap (λ r. r ++ positions 0 ref c) (get_or-replicate n c [])),
)

-- Behind a reference the others' next occurrences are the same.
pub next_occurrence-other :
    (i x c : ℕ) (rest : List ℕ)
    → c ≢ x
    → next_occurrence i (x ∷ rest) c ≡ next_occurrence (suc i) rest c
unfolding next_occurrence
next_occurrence-other i x c rest ne =
    if-cases (λ k. k ≡ next_occurrence (suc i) rest c) (x == c)
      (λ e. absurd (ne (ground (arith, e)))) (λ _. refl)
