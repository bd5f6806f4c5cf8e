-- ===== src/Replay/Lookahead.antt =====
-- How far the threads of a replay run ahead of each other, and that one of them can always go on,
-- src/replay.c: the comment above `lookahead_wait_to_start`.
use residctl.Prelude.{
  ℕ, zero, suc, ◌+◌, ◌-◌, ◌≡◌, ◌≢◌, ◌≤◌, ◌<◌, refl, sym, ap, subst, ◌∙◌, ◌⊎◌, inl, inr, true, ◌&&◌,
  List, [], ◌∷◌, some, arith, ltb, length, get_elem?, ℕ_discrete, dec_lt,
}
use residctl.Replay.{
  Config, total_steps, Place, waiting, reading, signalling, emitting, Driver, is_full, may_start,
  start_step, emit, step_from, advance, Run,
}
use residctl.Replay.Places.{done, above-full}
use residctl.Replay.Invariant.{IsConfig, IsPlaced, IsDriver, Fits}
use residctl.Replay.Reaching.{Run-IsDriver}

-- The thread that is behind all others.
last :
    (ps : List Place)
    → 0 < length ps
    → (t : ℕ) × (p : Place) × (get_elem? ps t ≡ some p)
      × ((u : ℕ) (q : Place) → get_elem? ps u ≡ some q → done p ≤ done q)
last [] pos = absurd (omega arith)
last (p ∷ []) pos = (0, p, refl, alone)
  where
    alone : (u : ℕ) (q : Place) → get_elem? (p ∷ []) u ≡ some q → done p ≤ done q
    alone zero q got = let same : p ≡ q = cc got in subst (λ x. done p ≤ done x) same (omega arith)
    alone (suc u) q got = cc got
last (p ∷ p' ∷ ps) pos =
    let (t, q, got, low) = last (p' ∷ ps) (omega arith) in
    elim (dec_lt (done p) (done q)) [
      | yes first ↦ (0, p, refl, below p (λ u r at. omega (arith, first, low u r at)) (omega arith))
      | no later ↦ (suc t, q, got, below q low (omega (arith, later)))
    ]
  where
    below :
        (x : Place)
        → ((u : ℕ) (r : Place) → get_elem? (p' ∷ ps) u ≡ some r → done x ≤ done r)
        → done x ≤ done p
        → (u : ℕ) (r : Place) → get_elem? (p ∷ p' ∷ ps) u ≡ some r
        → done x ≤ done r
    below x all here zero r at = let same : p ≡ r = cc at in subst (λ y. done x ≤ done y) same here
    below x all here (suc u) r at = all u r at

-- A step that every thread has marked is full.
above-is_full :
    (cfg : Config) (cs : List ℕ) (ps : List Place) (s : ℕ)
    → IsPlaced cfg cs ps
    → s < total_steps cfg
    → ((u : ℕ) (q : Place) → get_elem? ps u ≡ some q → s < done q)
    → is_full cfg s cs ≡ true
above-is_full cfg cs ps s i low all = ground (arith, above-full s ps all, i.counts s low, i.width)

done-small : (cfg : Config) (t : ℕ) (p : Place) → Fits cfg t p → done p ≤ total_steps cfg
done-small cfg t (waiting s) fit = fit
done-small cfg t (reading s) fit = omega (arith, fit)
done-small cfg t (signalling s) fit = omega (arith, fit)
done-small cfg t (emitting s) fit = omega (arith, fit.0)

-- In every state that the threads reach, in any order and in both modes of the signal, the steps that they
-- read lie within one window: there is a step such that all steps before it are full, and every thread that
-- reads a chunk reads it for this step or one of the `window` steps behind it.
pub Run-window :
    (cfg : Config) {n : ℕ} {d : Driver}
    → IsConfig cfg
    → Run cfg n d
    → (m : ℕ) × (m ≤ total_steps cfg)
      × ((s : ℕ) → s < m → is_full cfg s d.completed ≡ true)
      × ((t s : ℕ) → get_elem? d.places t ≡ some (reading s) → (m ≤ s) × (s ≤ m + cfg.window))
Run-window cfg {n} {d} ok run =
    let i = Run-IsDriver cfg ok run in
    let (t, p, got, low) = last d.places (omega (arith, i.placed.width, ok.some_thread)) in
    let small : done p ≤ total_steps cfg = done-small cfg t p (i.placed.fits t p got) in
    (
      done p,
      small,
      λ s before.
          above-is_full cfg d.completed d.places s i.placed (omega (arith, before, small))
            (λ u q at. omega (arith, before, low u q at)),
      λ u s at. (low u (reading s) at, i.placed.ahead u t s p at got),
    )

abbrev pub Finished : Config → Driver → Type 0
Finished cfg d = (t : ℕ) (p : Place) → get_elem? d.places t ≡ some p → p ≡ waiting (total_steps cfg)

abbrev CanStep : Config → Driver → Type 0
CanStep cfg d = (t : ℕ) × (d' : Driver) × (advance cfg t d ≡ some d')

advance-at :
    (cfg : Config) (t : ℕ) (p : Place) (d : Driver) {d' : Driver}
    → get_elem? d.places t ≡ some p
    → step_from cfg t p d ≡ some d'
    → CanStep cfg d
unfolding advance
advance-at cfg t p d {d'} got e = (t, d', rw (advance, got) e)

-- A thread goes on if no other is behind it, unless its loop has ended.
goes_on :
    (cfg : Config) (d : Driver) (t : ℕ) (p : Place)
    → IsDriver cfg d
    → get_elem? d.places t ≡ some p
    → p ≢ waiting (total_steps cfg)
    → ((u : ℕ) (q : Place) → get_elem? d.places u ≡ some q → done p ≤ done q)
    → CanStep cfg d
unfolding may_start
goes_on cfg d t (reading s) i got going low = advance-at cfg t (reading s) d got refl
goes_on cfg d t (signalling s) i got going low = advance-at cfg t (signalling s) d got refl
goes_on cfg d t (emitting s) i got going low =
    let full : is_full cfg s d.completed ≡ true =
      above-is_full cfg d.completed d.places s i.placed (i.placed.fits t (emitting s) got).0 low in
    advance-at cfg t (emitting s) d {d' = emit cfg t s d} got (rw full refl)
goes_on cfg d t (waiting s) i got going low =
    let more : s < total_steps cfg =
      ground (arith, i.placed.fits t (waiting s) got, short s going) in
    let may : may_start cfg s d.completed ≡ true = elim (dec_lt s (cfg.window + 1)) [
      | yes early ↦ ground (arith, early)
      | no late ↦
          let full : is_full cfg (s - (cfg.window + 1)) d.completed ≡ true =
            above-is_full cfg d.completed d.places (s - (cfg.window + 1)) i.placed
              (omega (arith, more)) (λ u q at. omega (arith, late, low u q at)) in
          ground (arith, late, full)
    ] in
    let both : (ltb s (total_steps cfg) && may_start cfg s d.completed) ≡ true =
      ground (arith, more, may) in
    advance-at cfg t (waiting s) d {d' = start_step cfg t s d} got (rw both refl)
  where
    short : (s : ℕ) → waiting s ≢ waiting (total_steps cfg) → s ≢ total_steps cfg
    short s apart e = apart (ap waiting e)

ended : (k : ℕ) (p : Place) → (p ≡ waiting k) ⊎ (p ≢ waiting k)
ended k (waiting s) = elim (ℕ_discrete s k) [
  | yes e ↦ inl (ap waiting e)
  | no ne ↦ inr (λ e. ne (ap done e))
]
ended k (reading s) = inr (λ e. cc e)
ended k (signalling s) = inr (λ e. cc e)
ended k (emitting s) = inr (λ e. cc e)

all_ended :
    (k : ℕ) (ps : List Place)
    → ((t : ℕ) (p : Place) → get_elem? ps t ≡ some p → p ≡ waiting k)
      ⊎ ((t : ℕ) × (p : Place) × (get_elem? ps t ≡ some p) × (p ≢ waiting k))
all_ended k [] = inl (λ t p got. cc got)
all_ended k (p ∷ ps) = elim (ended k p) [
  | inr ne ↦ inr (0, p, refl, ne)
  | inl e ↦ elim (all_ended k ps) [
    | inr (t, q, got, ne) ↦ inr (suc t, q, got, ne)
    | inl all ↦ inl (both e all)
  ]
]
  where
    both :
        p ≡ waiting k
        → ((t : ℕ) (q : Place) → get_elem? ps t ≡ some q → q ≡ waiting k)
        → (t : ℕ) (q : Place) → get_elem? (p ∷ ps) t ≡ some q
        → q ≡ waiting k
    both e all zero q got = let same : p ≡ q = cc got in sym same ∙ e
    both e all (suc t) q got = all t q got

-- In every state that the threads reach, in any order, all of them
-- have ended their loops or one of them can take a step.
pub Run-progress :
    (cfg : Config) {n : ℕ} {d : Driver}
    → IsConfig cfg
    → Run cfg n d
    → Finished cfg d ⊎ CanStep cfg d
Run-progress cfg {n} {d} ok run =
    let i = Run-IsDriver cfg ok run in
    let (t, p, got, low) = last d.places (omega (arith, i.placed.width, ok.some_thread)) in
    elim (ended (total_steps cfg) p) [
      | inr going ↦ inr (goes_on cfg d t p i got going low)
      | inl here ↦ elim (all_ended (total_steps cfg) d.places) [
        | inl all ↦ inl all
        | inr (u, q, at, going) ↦
            let top : done p ≡ total_steps cfg = ap done here in
            let bound : done q ≤ total_steps cfg = done-small cfg u q (i.placed.fits u q at) in
            inr
              (goes_on cfg d u q i at going (λ v r there. omega (arith, top, bound, low v r there)))
      ]
    ]
