-- ===== src/Policy/Scan.antt =====
-- The scan that every `select_victim` of src/policy.c makes over the chunk table: skip the chunks that
-- are not resident or are pinned, keep the first of the best by a key.
use residctl.Prelude.{
  true-ne-false, ℕ, zero, suc, ◌+◌, ◌≡◌, refl, sym, ◌∙◌, ◌⊎◌, inl, inr, Bool, true, false, ◌&&◌,
  List, [], ◌∷◌, Option, none, some, arith, get_elem?, ◌==◌, if◌then◌else◌, Bool-cases,
}
use residctl.State.{Chunk, ChunkState, absent, fetching, resident}

abbrev pub is_resident : ChunkState → Bool
is_resident absent = false
is_resident fetching = false
is_resident resident = true

-- !(c->state != CHUNK_RESIDENT || c->pin != 0)
abbrev pub evictable : Chunk → Bool
evictable c = is_resident c.state && c.pin == 0

pair-eq : (a b c d : ℕ) → ◌≡◌ {A = Option (ℕ × ℕ)} (some (a, b)) (some (c, d)) → (a ≡ c) × (b ≡ d)
pair-eq a b c d e = ground arith

-- No chunk of the table can be evicted.
abbrev pub NoneEvictable : List Chunk → Type 0
NoneEvictable [] = Unit {0}
NoneEvictable (c ∷ cs) = (evictable c ≡ false) × NoneEvictable cs

pub NoneEvictable-get_elem? :
    (cs : List Chunk) (n : ℕ) (c : Chunk)
    → NoneEvictable cs
    → get_elem? cs n ≡ some c
    → evictable c ≡ false
NoneEvictable-get_elem? [] n c out got = cc
NoneEvictable-get_elem? (d ∷ cs) zero c out got =
    let same : d ≡ c = ground arith in rw (← same) out.0
NoneEvictable-get_elem? (d ∷ cs) (suc n) c out got = NoneEvictable-get_elem? cs n c out.1 got

-- `better new old`: the new key replaces the old one.
module _ (better : ℕ → ℕ → Bool) (key : ℕ → Chunk → ℕ) where
  -- best == CHUNK_NONE || better
  abbrev pub improves : Option (ℕ × ℕ) → ℕ → Bool
  improves none k = true
  improves (some b) k = better k b.1

  -- The body of the loop at chunk `c` with index `i`.
  unfoldable pub offer : ℕ → Chunk → Option (ℕ × ℕ) → Option (ℕ × ℕ)
  offer i c best = if evictable c && improves best (key i c) then some (i, key i c) else best

  -- The loop from index `i` on, with the best index so far and its key.
  unfoldable pub pick : List Chunk → ℕ → Option (ℕ × ℕ) → Option (ℕ × ℕ)
  unfolding offer
  pick [] i best = best
  pick (c ∷ cs) i best = pick cs (i + 1) (offer i c best)

  -- No evictable chunk of `cs`, which starts at index `i`, has a better key than `k`.
  abbrev pub NoneBetter : List Chunk → ℕ → ℕ → Type 0
  NoneBetter [] i k = Unit {0}
  NoneBetter (c ∷ cs) i k =
      (evictable c ≡ true → better (key i c) k ≡ false) × NoneBetter cs (i + 1) k

  -- Index `j` is that of an evictable chunk of `cs`, with key `k`.
  abbrev pub Found : List Chunk → ℕ → ℕ → ℕ → Type 0
  Found [] i j k = ⊥
  Found (c ∷ cs) i j k = ((j ≡ i) × (evictable c ≡ true) × (k ≡ key i c)) ⊎ Found cs (i + 1) j k

  abbrev pub NotBeaten : Option (ℕ × ℕ) → ℕ → Type 0
  NotBeaten none k = Unit {0}
  NotBeaten (some b) k = better b.1 k ≡ false

  pub Found-get_elem? :
      (cs : List Chunk) (i j k : ℕ)
      → Found cs i j k
      → (n : ℕ) × (c : Chunk) × (j ≡ i + n)
        × (get_elem? cs n ≡ some c)
        × (evictable c ≡ true)
        × (k ≡ key j c)
  Found-get_elem? [] i j k f = elim f [ ]
  Found-get_elem? (c ∷ cs) i j k (inl (e, fit, v)) = (0, c, omega arith, refl, fit, rw e v)
  Found-get_elem? (c ∷ cs) i j k (inr f) =
      let (n, d, e, got, fit, v) = Found-get_elem? cs (i + 1) j k f in
      (suc n, d, omega arith, got, fit, v)

  pub NoneBetter-get_elem? :
      (cs : List Chunk) (i k n j : ℕ) (c : Chunk)
      → NoneBetter cs i k
      → j ≡ i + n
      → get_elem? cs n ≡ some c
      → evictable c ≡ true
      → better (key j c) k ≡ false
  NoneBetter-get_elem? [] i k n j c b e got fit = cc
  NoneBetter-get_elem? (d ∷ cs) i k zero j c b e got fit =
      let same : d ≡ c = ground arith in
      let here : j ≡ i = omega arith in rw (here, ← same) (b.0 (rw same fit))
  NoneBetter-get_elem? (d ∷ cs) i k (suc n) j c b e got fit =
      NoneBetter-get_elem? cs (i + 1) k n j c b.1 (omega arith) got fit

  offer_cases :
      (i : ℕ) (c : Chunk) (best : Option (ℕ × ℕ))
      → ((offer i c best ≡ best) × (evictable c ≡ true → improves best (key i c) ≡ false))
        ⊎ ((offer i c best ≡ some (i, key i c))
            × (evictable c ≡ true)
            × (improves best (key i c) ≡ true))
  unfolding offer
  offer_cases i c best = elim (Bool-cases (evictable c)) [
    | inr out ↦ inl (rw out, λ e. cc)
    | inl fit ↦ elim (Bool-cases (improves best (key i c))) [
      | inl better ↦ inr (rw (fit, better), fit, better)
      | inr worse ↦ inl (rw (fit, worse), λ _. worse)
    ]
  ]

  pub pick-Found :
      (cs : List Chunk) (i : ℕ) (best : Option (ℕ × ℕ)) (j k : ℕ)
      → pick cs i best ≡ some (j, k)
      → (best ≡ some (j, k)) ⊎ Found cs i j k
  unfolding pick
  pick-Found [] i best j k e = inl e
  pick-Found (c ∷ cs) i best j k e = elim (pick-Found cs (i + 1) (offer i c best) j k e) [
    | inr later ↦ inr (inr later)
    | inl now ↦ elim (offer_cases i c best) [
      | inl (same, _) ↦ inl (sym same ∙ now)
      | inr (new, fit, _) ↦
          let (index, value) = pair-eq i (key i c) j k (sym new ∙ now) in
          inr (inl (sym index, fit, sym value))
    ]
  ]

  pub pick-none :
      (cs : List Chunk) (i : ℕ) (best : Option (ℕ × ℕ))
      → pick cs i best ≡ none
      → (best ≡ none) × NoneEvictable cs
  unfolding pick
  pick-none [] i best e = (e, tt)
  pick-none (c ∷ cs) i best e =
      let (now, rest) = pick-none cs (i + 1) (offer i c best) e in
      elim (offer_cases i c best) [
        | inr (new, _, _) ↦ absurd (ground arith)
        | inl (same, stuck) ↦
            let old : best ≡ none = sym same ∙ now in
            let out : evictable c ≡ false = elim (Bool-cases (evictable c)) [
              | inr out ↦ out
              | inl fit ↦ absurd (true-ne-false (rw old at (stuck fit)))
            ] in
            (old, (out, rest))
      ]

-- Laws of a strict order in which any two keys compare.
module _ (better : ℕ → ℕ → Bool) (key : ℕ → Chunk → ℕ) (irrefl : (k : ℕ) → better k k ≡ false)
    (keep : (a b k : ℕ) → better a b ≡ false → better b k ≡ false → better a k ≡ false)
    (replace : (a b k : ℕ) → better a b ≡ true → better a k ≡ false → better b k ≡ false) where
  worse-NotBeaten :
      (best : Option (ℕ × ℕ)) (a k : ℕ)
      → improves better key best a ≡ false
      → NotBeaten better key best k
      → better a k ≡ false
  worse-NotBeaten none a k e n = absurd (true-ne-false e)
  worse-NotBeaten (some b) a k e n = keep a b.1 k e n

  better-NotBeaten :
      (best : Option (ℕ × ℕ)) (a k : ℕ)
      → improves better key best a ≡ true
      → better a k ≡ false
      → NotBeaten better key best k
  better-NotBeaten none a k e n = tt
  better-NotBeaten (some b) a k e n = replace a b.1 k e n

  pub pick-NoneBetter :
      (cs : List Chunk) (i : ℕ) (best : Option (ℕ × ℕ)) (j k : ℕ)
      → pick better key cs i best ≡ some (j, k)
      → NotBeaten better key best k × NoneBetter better key cs i k
  unfolding pick
  pick-NoneBetter [] i best j k e = (rw e (irrefl k), tt)
  pick-NoneBetter (c ∷ cs) i best j k e =
      let (kept, rest) = pick-NoneBetter cs (i + 1) (offer better key i c best) j k e in
      elim (offer_cases better key i c best) [
        | inl (same, worse) ↦
            let kept' : NotBeaten better key best k = rw same at kept in
            (kept', (λ fit. worse-NotBeaten best (key i c) k (worse fit) kept', rest))
        | inr (new, _, wins) ↦
            let kept' : better (key i c) k ≡ false = rw new at kept in
            (better-NotBeaten best (key i c) k wins kept', (λ _. kept', rest))
      ]
