-- ===== src/Belady/Floor/Strings.antt =====
-- The string that the loops of `detect_cyclic_scan` accept, src/belady_main.c.
use residctl.Prelude.{
  ==_iff, true-ne-false, ℕ, zero, suc, ◌+◌, ◌-◌, ◌*◌, ◌%◌, ◌==◌, ◌≡◌, ◌≤◌, ◌<◌, refl, sym, ap,
  subst, ◌∙◌, inl, inr, Bool, true, false, not, ◌||◌, List, [], ◌∷◌, ◌++◌, arith, length, get_or,
  set, ltb, if-cases, dec_lt, ℕ_discrete, length-append, get_or-set_self, get_or-set_ne, length-set,
  ltb→lt,
}
use native.Mathlib.Nat.{mod-eq_of_lt, add-mod_left}
use residctl.Trace.{take}
use residctl.Belady.Floor.{is_periodic, is_permutation}
use residctl.Belady.Floor.Bound.{passes_of}
use residctl.Belady.Sets.{In, Distinct}

pub list_ext :
    (xs ys : List ℕ)
    → length xs ≡ length ys
    → ((i : ℕ) → i < length xs → get_or xs i 0 ≡ get_or ys i 0)
    → xs ≡ ys
list_ext [] [] size all = refl
list_ext [] (y ∷ ys) size all = absurd (omega (arith, size))
list_ext (x ∷ xs) [] size all = absurd (omega (arith, size))
list_ext (x ∷ xs) (y ∷ ys) size all =
    let here : x ≡ y = all 0 (omega arith) in
    let rest : xs ≡ ys =
      list_ext xs ys (omega (arith, size)) (λ i low. all (suc i) (omega (arith, low))) in
    cc (here, rest)

get_or-append_left :
    (xs ys : List ℕ) (i : ℕ) → i < length xs → get_or (xs ++ ys) i 0 ≡ get_or xs i 0
get_or-append_left [] ys i low = absurd (omega (arith, low))
get_or-append_left (x ∷ xs) ys zero low = refl
get_or-append_left (x ∷ xs) ys (suc i) low = get_or-append_left xs ys i (omega (arith, low))

get_or-append_right : (xs ys : List ℕ) (i : ℕ) → get_or (xs ++ ys) (length xs + i) 0 ≡ get_or ys i 0
get_or-append_right [] ys i = let same : 0 + i ≡ i = omega arith in ap (λ k. get_or ys k 0) same
get_or-append_right (x ∷ xs) ys i =
    let next : suc (length xs) + i ≡ suc (length xs + i) = omega arith in
    ap (λ k. get_or (x ∷ (xs ++ ys)) k 0) next ∙ get_or-append_right xs ys i

pub length-passes_of : (p : ℕ) (ws : List ℕ) → length (passes_of p ws) ≡ p * length ws
length-passes_of zero ws = omega arith
length-passes_of (suc p) ws =
    let sum : suc p * length ws ≡ length ws + p * length ws = omega arith in
    omega (arith, sum, length-append ws (passes_of p ws), length-passes_of p ws)

pub get_or-passes_of :
    (p : ℕ) (ws : List ℕ) (i : ℕ)
    → i < p * length ws
    → get_or (passes_of p ws) i 0 ≡ get_or ws (i % length ws) 0
get_or-passes_of zero ws i low = absurd (omega (arith, low))
get_or-passes_of (suc p) ws i low = elim (dec_lt i (length ws)) [
  | yes first ↦
      get_or-append_left ws (passes_of p ws) i first
      ∙ ap (λ k. get_or ws k 0) (sym (mod-eq_of_lt first))
  | no later ↦
      let j : ℕ = i - length ws in
      let place : i ≡ length ws + j = omega (arith, later) in
      let left : j < p * length ws = omega (arith, low, later) in
      let turn : j % length ws ≡ i % length ws =
        sym (add-mod_left (length ws) j) ∙ ap (λ k. k % length ws) (sym place) in
      ap (λ k. get_or (ws ++ passes_of p ws) k 0) place
      ∙ (get_or-append_right ws (passes_of p ws) j
          ∙ (get_or-passes_of p ws j left ∙ ap (λ k. get_or ws k 0) turn))
]

pub length-take : (n : ℕ) (xs : List ℕ) → n ≤ length xs → length (take n xs) ≡ n
length-take zero xs le = refl
length-take (suc n) [] le = absurd (omega (arith, le))
length-take (suc n) (x ∷ xs) le = ap suc (length-take n xs (omega (arith, le)))

pub get_or-take : (n : ℕ) (xs : List ℕ) (i : ℕ) → i < n → get_or (take n xs) i 0 ≡ get_or xs i 0
get_or-take zero xs i low = absurd (omega (arith, low))
get_or-take (suc n) [] i low = refl
get_or-take (suc n) (x ∷ xs) zero low = refl
get_or-take (suc n) (x ∷ xs) (suc i) low = get_or-take n xs i (omega (arith, low))

pub is_periodic-get_or :
    (n : ℕ) (ref : List ℕ) (i : ℕ) (rest : List ℕ)
    → is_periodic n ref i rest ≡ true
    → (j : ℕ) → j < length rest
    → get_or rest j 0 ≡ get_or ref ((i + j) % n) 0
is_periodic-get_or n ref i [] e = λ j low. absurd (omega (arith, low))
is_periodic-get_or n ref i (x ∷ rest) e =
    if-cases
      (λ b.
        b ≡ true
        → (j : ℕ) → j < suc (length rest)
        → get_or (x ∷ rest) j 0 ≡ get_or ref ((i + j) % n) 0)
      (x == get_or ref (i % n) 0)
      (λ same later. go same (is_periodic-get_or n ref (suc i) rest later))
      (λ _ off. absurd (true-ne-false (sym off))) e
  where
    go :
        (x == get_or ref (i % n) 0) ≡ true
        → ((j : ℕ) → j < length rest → get_or rest j 0 ≡ get_or ref ((suc i + j) % n) 0)
        → (j : ℕ) → j < suc (length rest)
        → get_or (x ∷ rest) j 0 ≡ get_or ref ((i + j) % n) 0
    go same later zero low =
        let here : x ≡ get_or ref (i % n) 0 = (==_iff x (get_or ref (i % n) 0)).0 same in
        let place : i ≡ i + 0 = omega arith in here ∙ ap (λ k. get_or ref (k % n) 0) place
    go same later (suc j) low =
        let place : suc i + j ≡ i + suc j = omega arith in
        later j (omega (arith, low)) ∙ ap (λ k. get_or ref (k % n) 0) place

pub is_permutation-Distinct :
    (n left : ℕ) (ref : List ℕ) (seen : List Bool)
    → length seen ≡ n
    → is_permutation n left ref seen ≡ true
    → Distinct (take left ref) × ((c : ℕ) → In c (take left ref) → get_or seen c false ≡ false)
is_permutation-Distinct n zero ref seen size e = (tt, λ c x. absurd x)
is_permutation-Distinct n (suc left) [] seen size e = (tt, λ c x. absurd x)
is_permutation-Distinct n (suc left) (x ∷ ref) seen size e =
    if-cases
      (λ b.
        b ≡ true
        → Distinct (x ∷ take left ref)
          × ((c : ℕ) → In c (x ∷ take left ref) → get_or seen c false ≡ false))
      (not (ltb x n) || get_or seen x false) (λ _ off. absurd (true-ne-false (sym off)))
      (λ fresh later. go fresh (
        is_permutation-Distinct n left ref (set seen x true) (length-set seen x true ∙ size) later))
      e
  where
    neither : (a b : Bool) → (not a || b) ≡ false → (a ≡ true) × (b ≡ false)
    neither true b e = (refl, e)
    neither false b e = cc e

    go :
        (not (ltb x n) || get_or seen x false) ≡ false
        → Distinct (take left ref)
          × ((c : ℕ) → In c (take left ref) → get_or (set seen x true) c false ≡ false)
        → Distinct (x ∷ take left ref)
          × ((c : ℕ) → In c (x ∷ take left ref) → get_or seen c false ≡ false)
    go fresh (d, out) =
        let (inside, unseen) = neither (ltb x n) (get_or seen x false) fresh in
        let low : x < n = ltb→lt x n inside in
        let on : get_or (set seen x true) x false ≡ true =
          get_or-set_self seen x true false (omega (arith, low, size)) in
        (
          (λ got. true-ne-false (sym on ∙ out x got), d),
          λ c got. elim got [
            | inl same ↦ subst (λ k. get_or seen k false ≡ false) same unseen
            | inr there ↦ elim (ℕ_discrete x c) [
              | yes same ↦ subst (λ k. get_or seen k false ≡ false) same unseen
              | no ne ↦ sym (get_or-set_ne seen x c true false ne) ∙ out c there
            ]
          ],
        )
