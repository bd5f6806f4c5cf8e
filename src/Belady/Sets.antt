-- ===== src/Belady/Sets.antt =====
-- Lists of distinct numbers as sets, for the chunks in a cache of src/belady.c.
use residctl.Prelude.{
  ℕ, suc, ◌==◌, ◌≡◌, ◌≢◌, ◌≤◌, ◌<◌, refl, ap, subst, ◌↔◌, ◌⊎◌, inl, inr, List, [], ◌∷◌, arith,
  if◌then◌else◌, length, ℕ_discrete, if-cases,
}

abbrev pub In : ℕ → List ℕ → Type 0
In c [] = ⊥
In c (x ∷ xs) = (x ≡ c) ⊎ In c xs

abbrev pub Distinct : List ℕ → Type 0
Distinct [] = Unit {0}
Distinct (x ∷ xs) = (In x xs → ⊥) × Distinct xs

pub In-dec : (c : ℕ) (xs : List ℕ) → In c xs ⊎ (In c xs → ⊥)
In-dec c [] = inr (λ x. x)
In-dec c (x ∷ xs) = elim (ℕ_discrete x c) [
  | yes same ↦ inl (inl same)
  | no ne ↦ elim (In-dec c xs) [ inl there ↦ inl (inr there) | inr out ↦ inr (either ne out) ]
]
  where
    either : x ≢ c → (In c xs → ⊥) → In c (x ∷ xs) → ⊥
    either ne out (inl same) = ne same
    either ne out (inr there) = out there

-- All but one.
abbrev pub remove : ℕ → List ℕ → List ℕ
remove c [] = []
remove c (x ∷ xs) = if x == c then remove c xs else x ∷ remove c xs

pub In-remove : (c v : ℕ) (xs : List ℕ) → In c (remove v xs) ↔ (In c xs × (c ≢ v))
In-remove c v xs = (to xs, λ (here, ne). from xs here ne)
  where
    to : (xs : List ℕ) → In c (remove v xs) → In c xs × (c ≢ v)
    to [] h = absurd h
    to (x ∷ xs) h =
        if-cases (λ ys. In c ys → In c (x ∷ xs) × (c ≢ v)) (x == v)
          (λ e got. let (there, ne) = to xs got in (inr there, ne))
          (λ e got. elim got [
            | inl same ↦ (inl same, λ e'. ground (arith, e, e', same))
            | inr later ↦ let (there, ne) = to xs later in (inr there, ne)
          ])
          h

    from : (xs : List ℕ) → In c xs → c ≢ v → In c (remove v xs)
    from [] h ne = h
    from (x ∷ xs) h ne =
        if-cases (λ ys. In c ys) (x == v)
          (λ e. elim h [
            | inl same ↦ absurd (ne (ground (arith, e, same)))
            | inr there ↦ from xs there ne
          ])
          (λ e. elim h [ inl same ↦ inl same | inr there ↦ inr (from xs there ne) ])

pub Distinct-remove : (v : ℕ) (xs : List ℕ) → Distinct xs → Distinct (remove v xs)
Distinct-remove v [] d = tt
Distinct-remove v (x ∷ xs) (out, d) =
    if-cases Distinct (x == v) (λ e. Distinct-remove v xs d)
      (λ e. (λ got. out ((In-remove x v xs).0 got).0, Distinct-remove v xs d))

length-remove_out : (v : ℕ) (xs : List ℕ) → (In v xs → ⊥) → length (remove v xs) ≡ length xs
length-remove_out v [] out = refl
length-remove_out v (x ∷ xs) out =
    if-cases (λ ys. length ys ≡ suc (length xs)) (x == v)
      (λ e. absurd (out (inl (ground (arith, e)))))
      (λ e. ap suc (length-remove_out v xs (λ there. out (inr there))))

pub length-remove :
    (v : ℕ) (xs : List ℕ) → Distinct xs → In v xs → suc (length (remove v xs)) ≡ length xs
length-remove v [] d got = absurd got
length-remove v (x ∷ xs) (out, d) got =
    if-cases (λ ys. suc (length ys) ≡ suc (length xs)) (x == v)
      (λ e.
        let same : x ≡ v = ground (arith, e) in
        ap suc (length-remove_out v xs (subst (λ k. In k xs → ⊥) same out)))
      (λ e. elim got [
        | inl same ↦ absurd (ground (arith, e, same))
        | inr there ↦ ap suc (length-remove v xs d there)
      ])

length-remove_lt : (v : ℕ) (xs : List ℕ) → In v xs → length (remove v xs) < length xs
length-remove_lt v [] got = absurd got
length-remove_lt v (x ∷ xs) got =
    if-cases (λ ys. length ys < suc (length xs)) (x == v) (λ e. short xs)
      (λ e. elim got [
        | inl same ↦ absurd (ground (arith, e, same))
        | inr there ↦ omega (arith, length-remove_lt v xs there)
      ])
  where
    short : (xs : List ℕ) → length (remove v xs) < suc (length xs)
    short [] = omega arith
    short (x ∷ xs) =
        if-cases (λ ys. length ys < suc (suc (length xs))) (x == v) (λ e. omega (arith, short xs))
          (λ e. omega (arith, short xs))

-- A set within another is no larger.
pub length-subset :
    (xs ys : List ℕ) → Distinct xs → ((c : ℕ) → In c xs → In c ys) → length xs ≤ length ys
length-subset [] ys d within = omega arith
length-subset (x ∷ xs) ys (out, d) within =
    let fewer = length-remove_lt x ys (within x (inl refl)) in
    let rest = length-subset xs (remove x ys) d (λ c got.
      (In-remove c x ys).1 (within c (inr got), λ same. out (subst (λ k. In k xs) same got))) in
    omega (arith, fewer, rest)

-- A set within another that is no larger is all of it.
pub subset-all :
    (xs ys : List ℕ)
    → Distinct xs
    → length ys ≤ length xs
    → ((c : ℕ) → In c xs → In c ys)
    → (c : ℕ) → In c ys
    → In c xs
subset-all xs ys d small within c got = elim (In-dec c xs) [
  | inl here ↦ here
  | inr out ↦ absurd (omega (arith, small, length-subset (c ∷ xs) ys (out, d) (both)))
]
  where
    both : (k : ℕ) → In k (c ∷ xs) → In k ys
    both k (inl same) = subst (λ j. In j ys) same got
    both k (inr there) = within k there
