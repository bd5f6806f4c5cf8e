-- ===== src/Belady/Floor/Bound.antt =====
-- The misses of a scan over distinct chunks, src/belady_main.c: a chunk is hit only if it was cached before.
use residctl.Prelude.{
  true-ne-false, ℕ, zero, suc, ◌+◌, ◌-◌, ◌*◌, ◌==◌, ◌≡◌, ◌≢◌, ◌≤◌, refl, sym, ap, subst, ◌∙◌, inl,
  inr, true, false, List, [], ◌∷◌, ◌++◌, some, none, arith, if◌then◌else◌, length, set, replicate,
  if-cases, length-set, length-replicate, Bool-cases,
}
use residctl.Belady.Naive.{Slots, holds, is_cached, choose_slot, next_occurrence, naive_from}
use residctl.Belady.Sets.{In, Distinct, length-subset}
use residctl.Belady.Farthest.{chunks_in, is_cached-In}
use residctl.Belady.Slots.{length-chunks_in}

-- How many of the chunks are cached.
abbrev pub count_cached : List ℕ → Slots → ℕ
count_cached [] slots = 0
count_cached (x ∷ xs) slots = (if is_cached x slots then 1 else 0) + count_cached xs slots

-- A chunk that comes into the cache brings in no other.
is_cached-set :
    (slots : Slots) (k x y : ℕ)
    → x ≢ y
    → is_cached y (set slots k (some x)) ≡ true
    → is_cached y slots ≡ true
is_cached-set [] k x y ne e = e
is_cached-set (s ∷ slots) zero x y ne e =
    let test : (x == y) ≡ false = ground (arith, ne) in
    if-cases (λ b. b ≡ true) (holds y s) (λ _. refl)
      (λ _.
        if-cases (λ b. b ≡ true → is_cached y slots ≡ true) (x == y)
          (λ on. absurd (true-ne-false (sym on ∙ test))) (λ _ there. there) e)
is_cached-set (s ∷ slots) (suc k) x y ne e =
    if-cases (λ b. b ≡ true) (holds y s) (λ _. refl)
      (λ off. is_cached-set slots k x y ne (
        if-cases (λ b. b ≡ true → is_cached y (set slots k (some x)) ≡ true) (holds y s)
          (λ on. absurd (true-ne-false (sym on ∙ off))) (λ _ there. there) e))

count_cached-set :
    (xs : List ℕ) (slots : Slots) (k x : ℕ)
    → (In x xs → ⊥)
    → count_cached xs (set slots k (some x)) ≤ count_cached xs slots
count_cached-set [] slots k x out = omega arith
count_cached-set (y ∷ xs) slots k x out =
    let rest = count_cached-set xs slots k x (λ there. out (inr there)) in
    let kept = is_cached-set slots k x y (λ e. out (inl (sym e))) in
    if-cases
      (λ one.
        one + count_cached xs (set slots k (some x))
        ≤ (if is_cached y slots then 1 else 0) + count_cached xs slots)
      (is_cached y (set slots k (some x)))
      (λ e. let here : is_cached y slots ≡ true = kept e in ground (arith, here, rest))
      (λ _. ground (arith, rest))

-- The misses on distinct chunks that come next, and the slots behind them.
pub naive_from-append :
    (ws rest : List ℕ) (i : ℕ) (slots : Slots)
    → Distinct ws
    → (slots' : Slots) × (length slots' ≡ length slots)
      × (length ws + naive_from (i + length ws) rest slots'
          ≤ naive_from i (ws ++ rest) slots + count_cached ws slots)
unfolding naive_from
naive_from-append [] rest i slots d =
    let here : i + 0 ≡ i = omega arith in
    (slots, refl, omega (arith, ap (λ j. naive_from j rest slots) here))
naive_from-append (x ∷ ws) rest i slots (out, d) = elim (Bool-cases (is_cached x slots)) [
  | inl on ↦
      let (slots', size, less) = naive_from-append ws rest (suc i) slots d in
      let now : count_cached (x ∷ ws) slots ≡ suc (count_cached ws slots) = ground (arith, on) in
      let go : naive_from i (x ∷ (ws ++ rest)) slots ≡ naive_from (suc i) (ws ++ rest) slots =
        if-cases (λ k. k ≡ naive_from (suc i) (ws ++ rest) slots) (is_cached x slots) (λ _. refl)
          (λ off. absurd (true-ne-false (sym on ∙ off))) in
      (slots', size, omega (arith, now, go, less, shift rest slots'))
  | inr off ↦
      let slot : ℕ = choose_slot (next_occurrence (suc i) (ws ++ rest)) slots in
      let (slots', size, less) = naive_from-append ws rest (suc i) (set slots slot (some x)) d in
      let fewer = count_cached-set ws slots slot x out in
      let now : count_cached (x ∷ ws) slots ≡ count_cached ws slots = ground (arith, off) in
      let go : naive_from i (x ∷ (ws ++ rest)) slots
          ≡ suc (naive_from (suc i) (ws ++ rest) (set slots slot (some x))) =
        if-cases (λ k. k ≡ suc (naive_from (suc i) (ws ++ rest) (set slots slot (some x))))
          (is_cached x slots) (λ on. absurd (true-ne-false (sym on ∙ off))) (λ _. refl) in
      (
        slots',
        size ∙ length-set slots slot (some x),
        omega (arith, now, go, less, fewer, shift rest slots'),
      )
]
  where
    shift :
        (rest : List ℕ) (slots' : Slots)
        → naive_from (i + suc (length ws)) rest slots' ≡ naive_from (suc i + length ws) rest slots'
    shift rest slots' =
        let next : i + suc (length ws) ≡ suc i + length ws = omega arith in
        ap (λ j. naive_from j rest slots') next

-- Those of the chunks that are cached.
abbrev only_cached : List ℕ → Slots → List ℕ
only_cached [] slots = []
only_cached (x ∷ xs) slots =
    if is_cached x slots then x ∷ only_cached xs slots else only_cached xs slots

length-only_cached :
    (xs : List ℕ) (slots : Slots) → length (only_cached xs slots) ≡ count_cached xs slots
length-only_cached [] slots = refl
length-only_cached (x ∷ xs) slots = ground (arith, length-only_cached xs slots)

In-only_cached :
    (xs : List ℕ) (slots : Slots) (c : ℕ)
    → In c (only_cached xs slots)
    → In c xs × (is_cached c slots ≡ true)
In-only_cached [] slots c got = absurd got
In-only_cached (x ∷ xs) slots c got =
    if-cases (λ ys. In c ys → In c (x ∷ xs) × (is_cached c slots ≡ true)) (is_cached x slots)
      (λ on here. elim here [
        | inl same ↦ (inl same, subst (λ k. is_cached k slots ≡ true) same on)
        | inr later ↦ let (there, e) = In-only_cached xs slots c later in (inr there, e)
      ])
      (λ _ later. let (there, e) = In-only_cached xs slots c later in (inr there, e)) got

Distinct-only_cached : (xs : List ℕ) (slots : Slots) → Distinct xs → Distinct (only_cached xs slots)
Distinct-only_cached [] slots d = tt
Distinct-only_cached (x ∷ xs) slots (out, d) =
    if-cases Distinct (is_cached x slots)
      (λ _. (λ got. out (In-only_cached xs slots x got).0, Distinct-only_cached xs slots d))
      (λ _. Distinct-only_cached xs slots d)

-- No more of distinct chunks are cached than there are slots.
pub count_cached-le :
    (ws : List ℕ) (slots : Slots) → Distinct ws → count_cached ws slots ≤ length slots
count_cached-le ws slots d = omega (
  arith,
  length-only_cached ws slots,
  length-chunks_in slots,
  length-subset (only_cached ws slots) (chunks_in slots) (Distinct-only_cached ws slots d)
      (λ c got. (is_cached-In c slots).0 (In-only_cached ws slots c got).1),
)

pub count_cached-start : (ws : List ℕ) (n : ℕ) → count_cached ws (replicate n none) ≡ 0
count_cached-start [] n = refl
count_cached-start (x ∷ ws) n = ground (arith, count_cached-start ws n, never n)
  where
    never : (n : ℕ) → is_cached x (replicate n none) ≡ false
    never zero = refl
    never (suc n) = never n

count_cached-small : (ws : List ℕ) (slots : Slots) → count_cached ws slots ≤ length ws
count_cached-small [] slots = omega arith
count_cached-small (x ∷ ws) slots = ground (arith, count_cached-small ws slots)

-- A scan, pass after pass.
abbrev pub passes_of : ℕ → List ℕ → List ℕ
passes_of zero ws = []
passes_of (suc p) ws = ws ++ passes_of p ws

-- Each pass misses but for as many chunks as there are slots.
later_passes :
    (p : ℕ) (ws : List ℕ) (i : ℕ) (slots : Slots)
    → Distinct ws
    → p * (length ws - length slots) ≤ naive_from i (passes_of p ws) slots
later_passes zero ws i slots d = omega arith
later_passes (suc p) ws i slots d =
    let (slots', size, less) = naive_from-append ws (passes_of p ws) i slots d in
    let hits = count_cached-le ws slots d in
    let same : p * (length ws - length slots') ≡ p * (length ws - length slots) =
      ap (λ k. p * (length ws - k)) size in
    let sum : suc p * (length ws - length slots)
        ≡ (length ws - length slots) + p * (length ws - length slots) =
      omega arith in
    omega (
      arith,
      less,
      hits,
      count_cached-small ws slots,
      same,
      sum,
      later_passes p ws (i + length ws) slots' d,
    )

-- The first pass misses every chunk.
pub all_passes :
    (p : ℕ) (ws : List ℕ) (capacity : ℕ)
    → Distinct ws
    → length ws + p * (length ws - capacity)
      ≤ naive_from 0 (passes_of (suc p) ws) (replicate capacity none)
all_passes p ws capacity d =
    let slots : Slots = replicate capacity none in
    let (slots', size, less) = naive_from-append ws (passes_of p ws) 0 slots d in
    let same : p * (length ws - length slots') ≡ p * (length ws - capacity) =
      ap (λ k. p * (length ws - k)) (size ∙ length-replicate capacity none) in
    omega (
      arith,
      less,
      same,
      count_cached-start ws capacity,
      later_passes p ws (0 + length ws) slots' d,
    )
