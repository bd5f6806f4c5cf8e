-- ===== src/Replay/Places.antt =====
-- How many threads have finished a step, by the places where they stand.
use residctl.Prelude.{
  length-set, dec_lt, subst, ℕ, zero, suc, ◌+◌, ◌≡◌, ◌≢◌, ◌≤◌, ◌<◌, refl, sym, ◌∙◌, ◌⊎◌, inl, inr,
  List, [], ◌∷◌, some, arith, if◌then◌else◌, ltb, length, get_elem?, set, replicate, ℕ_discrete,
  get_elem?-set_self, get_elem?-set_ne, get_elem?-lt,
}
use residctl.Replay.{Place, waiting, reading, signalling, emitting}

-- The steps that a thread has marked as done are those before this one.
abbrev pub done : Place → ℕ
done (waiting s) = s
done (reading s) = s
done (signalling s) = suc s
done (emitting s) = suc s

abbrev pub one_above : ℕ → Place → ℕ
one_above s p = if ltb s (done p) then 1 else 0

-- The threads that have marked step `s`.
abbrev pub count_above : ℕ → List Place → ℕ
count_above s [] = 0
count_above s (p ∷ ps) = one_above s p + count_above s ps

-- What stands in a list after a write.
pub get_elem?-set_cases {ℓ} :
    {A : Type ℓ} (xs : List A) (i j : ℕ) (v a : A)
    → get_elem? (set xs i v) j ≡ some a
    → ((j ≡ i) × (a ≡ v)) ⊎ ((i ≢ j) × (get_elem? xs j ≡ some a))
get_elem?-set_cases xs i j v a h = elim (ℕ_discrete i j) [
  | yes same ↦
      let there : get_elem? (set xs i v) i ≡ some a =
        subst (λ k. get_elem? (set xs i v) k ≡ some a) (sym same) h in
      let inside : i < length xs =
        omega (arith, get_elem?-lt (set xs i v) i there, length-set xs i v) in
      let both : some a ≡ some v = sym there ∙ get_elem?-set_self xs i v inside in
      inl (sym same, cc both)
  | no apart ↦ inr (apart, sym (get_elem?-set_ne xs i j v apart) ∙ h)
]

pub count_above-set :
    (s : ℕ) (ps : List Place) (t : ℕ) (p p' : Place)
    → get_elem? ps t ≡ some p
    → count_above s (set ps t p') + one_above s p ≡ count_above s ps + one_above s p'
count_above-set s [] t p p' got = cc
count_above-set s (q ∷ ps) zero p p' got = let same : q ≡ p = ground arith in rw same (omega arith)
count_above-set s (q ∷ ps) (suc t) p p' got = omega (arith, count_above-set s ps t p p' got)

pub count_above-le : (s : ℕ) (ps : List Place) → count_above s ps ≤ length ps
count_above-le s [] = omega arith
count_above-le s (p ∷ ps) = ground (arith, count_above-le s ps)

-- A step that all threads have marked is behind each of them.
pub full-above :
    (s : ℕ) (ps : List Place)
    → length ps ≤ count_above s ps
    → (t : ℕ) (p : Place) → get_elem? ps t ≡ some p
    → s < done p
full-above s [] full t p got = cc
full-above s (q ∷ ps) full zero p got =
    let same : q ≡ p = ground arith in
    let above : s < done q = ground (arith, full, count_above-le s ps) in
    subst (λ x. s < done x) same above
full-above s (q ∷ ps) full (suc t) p got =
    full-above s ps (ground (arith, full, count_above-le s ps)) t p got

-- A step that not all have marked is not behind one of them.
pub behind :
    (s : ℕ) (ps : List Place)
    → count_above s ps < length ps
    → (t : ℕ) × (p : Place) × (get_elem? ps t ≡ some p) × (done p ≤ s)
behind s [] short = absurd (omega arith)
behind s (p ∷ ps) short = elim (dec_lt s (done p)) [
  | yes above ↦
      let (t, q, got, low) = behind s ps (ground (arith, short, above)) in (suc t, q, got, low)
  | no low ↦ (0, p, refl, omega (arith, low))
]

pub above-full :
    (s : ℕ) (ps : List Place)
    → ((t : ℕ) (p : Place) → get_elem? ps t ≡ some p → s < done p)
    → count_above s ps ≡ length ps
above-full s [] all = refl
above-full s (p ∷ ps) all =
    let above : s < done p = all 0 p refl in
    ground (arith, above, above-full s ps (λ t q got. all (suc t) q got))

pub count_above-start : (s n : ℕ) → count_above s (replicate n (waiting 0)) ≡ 0
count_above-start s zero = refl
count_above-start s (suc n) = ground (arith, count_above-start s n)

pub get_elem?-replicate {ℓ} :
    {A : Type ℓ} (n t : ℕ) (a b : A) → get_elem? (replicate n a) t ≡ some b → b ≡ a
get_elem?-replicate zero t a b got = cc
get_elem?-replicate (suc n) zero a b got = cc
get_elem?-replicate (suc n) (suc t) a b got = get_elem?-replicate n t a b got
