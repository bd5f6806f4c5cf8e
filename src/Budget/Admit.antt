-- ===== src/Budget/Admit.antt =====
-- `ensure_budget_prefetch` evicts only what is needed later than its target, src/budget.c.
use residctl.Prelude.{
  ◌≤◌, Option-cases, Option-cases, ℕ, zero, suc, ◌^◌, ◌<◌, ◌≡◌, refl, ◌∙◌, ◌⊎◌, inl, inr, Bool,
  true, false, Option, none, some, arith, ltb, if◌then◌else◌, length, get_elem?, Bool-cases,
  ℕ_discrete,
}
use residctl.Result.{Result, ok, abort, ◌>>=◌}
use residctl.State.{Chunk, Region, Policy, Settings}
use residctl.Kernel.{Kernel}
use residctl.Policy.{choose_victim, next_use_distance}
use residctl.Budget.{
  evict_and_reconcile, over, count_infeasible, count_declined, declines, prefetch_loop,
  ensure_budget_prefetch,
}
use residctl.Budget.Accounts.{resident_count, resident_count-le, Inv}
use residctl.Budget.Rounds.{NothingEvictable, Chosen, choose_victim-Chosen}
use residctl.Budget.Steps.{IsKernelFault, Stepped, evict_and_reconcile-Stepped}
use residctl.Budget.Frame.{Frame, Frame-trans}
use residctl.Budget.Ensure.{Kept, Granted, reserve-Granted, Kept-counters, scheduled_reconcile-Kept}

-- The chunk is needed strictly later than the target, by the distances of the policy; or no policy is set,
-- or the admission mode is `always`.
abbrev pub NeededLater : Region → ℕ → ℕ → Type 0
NeededLater r i target =
    (r.policy ≡ none)
    ⊎ ((r.prefetch_admission_always ≡ true)
        ⊎ ((p : Policy) × (r.policy ≡ some p)
            × (next_use_distance r.modes p target < next_use_distance r.modes p i)))

-- The admission mode is guarded, and the chunk is needed no later than the target.
abbrev pub NotLater : Region → ℕ → ℕ → Type 0
NotLater r i target =
    (r.prefetch_admission_always ≡ false)
    × ((p : Policy) × (r.policy ≡ some p)
        × (next_use_distance r.modes p i ≤ next_use_distance r.modes p target))

-- A chunk that changed was needed strictly later than the target, or nothing decides by distance.
abbrev pub Spared : Region → ℕ → Region → Type 0
Spared r target r' =
    (i : ℕ) → (get_elem? r'.chunks i ≡ get_elem? r.chunks i) ⊎ NeededLater r i target

-- Why a prefetch is turned down: there is nothing to evict, or the victim is not needed later.
abbrev pub TurnedDown : Region → ℕ → ℕ → Region → Type 0
TurnedDown r target need r' =
    (r'.reserved_bytes ≡ r.reserved_bytes)
    × (over r' need ≡ true)
    × (NothingEvictable r'.chunks
        ⊎ ((victim : ℕ) × (choose_victim r'.modes r'.policy r'.chunks ≡ some victim)
            × NotLater r' victim target))

abbrev pub Admitted : Region → ℕ → ℕ → Result (Bool × Region) → Type 0
Admitted r target need (abort x) = IsKernelFault x
Admitted r target need (ok (true, r')) =
    Granted r need r' × (r'.pinned ≡ r.pinned) × Spared r target r'
Admitted r target need (ok (false, r')) =
    Kept r r' × (r'.pinned ≡ r.pinned) × Spared r target r' × TurnedDown r target need r'

-- What the admission test decides.
declines-cases :
    (r : Region) (i target : ℕ)
    → ((declines r i target ≡ false) × NeededLater r i target)
      ⊎ ((declines r i target ≡ true) × NotLater r i target)
declines-cases r i target = elim (Option-cases r.policy) [
  | inl unset ↦ inl (rw unset refl, inl unset)
  | inr (p, set_to) ↦ elim (Bool-cases r.prefetch_admission_always) [
    | inl always ↦ inl (rw (set_to, always) refl, inr (inl always))
    | inr guarded ↦
        elim (Bool-cases
          (ltb (next_use_distance r.modes p target) (next_use_distance r.modes p i))) [
            | inl later ↦
                inl (rw (set_to, guarded, later) refl, inr (inr (p, set_to, ground arith)))
            | inr sooner ↦
                inr (rw (set_to, guarded, sooner) refl, (guarded, (p, set_to, ground arith)))
          ]
  ]
]

NeededLater-Frame :
    (r s : Region) (i target : ℕ) → Frame r s → NeededLater s i target → NeededLater r i target
NeededLater-Frame r s i target f later = both s.settings s.policy f.settings f.policy later
  where
    both :
        (t : Settings) (o : Option Policy)
        → t ≡ r.settings
        → o ≡ r.policy
        → (o ≡ none)
          ⊎ ((t.prefetch_admission_always ≡ true)
              ⊎ ((p : Policy) × (o ≡ some p)
                  × (next_use_distance t.modes p target < next_use_distance t.modes p i)))
        → NeededLater r i target
    both t o e e' h = rw (e, e') at h

Spared-trans :
    (r s t : Region) (target : ℕ)
    → Frame r s
    → Spared r target s
    → Spared s target t
    → Spared r target t
Spared-trans r s t target f a b i = elim (b i) [
  | inr later ↦ inr (NeededLater-Frame r s i target f later)
  | inl same ↦ elim (a i) [ inr later ↦ inr later | inl before ↦ inl (same ∙ before) ]
]

Admitted-trans :
    (r s : Region) (target need : ℕ)
    → Frame r s
    → s.reserved_bytes ≡ r.reserved_bytes
    → s.pinned ≡ r.pinned
    → Spared r target s
    → (o : Result (Bool × Region)) → Admitted s target need o
    → Admitted r target need o
Admitted-trans r s target need f e q a (abort x) h = h
Admitted-trans r s target need f e q a (ok (true, t)) (((v, g), exact), queue, b) =
    (((v, Frame-trans f g), ground arith), queue ∙ q, Spared-trans r s t target f a b)
Admitted-trans r s target need f e q a (ok (false, t)) ((v, g), queue, b, (same, too_much, why)) =
    ((v, Frame-trans f g), queue ∙ q, Spared-trans r s t target f a b, (same ∙ e, too_much, why))

prefetch_loop-Admitted :
    (k : Kernel) (target need fuel : ℕ) (r : Region)
    → need < 2 ^ 62
    → Inv r
    → resident_count r.chunks < fuel
    → Admitted r target need (prefetch_loop k target need fuel r)
unfolding prefetch_loop
prefetch_loop-Admitted k target need zero r small v enough = absurd (omega arith)
prefetch_loop-Admitted k target need (suc fuel) r small v enough = elim (Bool-cases (over r need)) [
  | inr fits ↦ rw fits (reserve-Granted r need v small fits, refl, λ i. inl refl)
  | inl too_much ↦ rw too_much (
      round (λ s w enough'. prefetch_loop-Admitted k target need fuel s small w enough') too_much
        (choose_victim r.modes r.policy r.chunks) refl
        (choose_victim-Chosen r.modes r.policy r.chunks))
]
  where
    Rest : Type 0
    Rest =
        (s : Region)
        → Inv s
        → resident_count s.chunks < fuel
        → Admitted s target need (prefetch_loop k target need fuel s)

    further :
        Rest
        → (i : ℕ) → NeededLater r i target
        → (o : Result Region) → Stepped r i o
        → Admitted r target need (o >>= prefetch_loop k target need fuel)
    further rest i admits (abort x) fault = fault
    further rest i admits (ok s) (w, f, less, same, queue, only) =
        Admitted-trans r s target need f same queue spared (prefetch_loop k target need fuel s)
          (rest s w (omega arith))
      where
        spared : Spared r target s
        spared j = elim (ℕ_discrete i j) [
          | yes here ↦ inr (rw (← here) admits)
          | no apart ↦ inl (only j apart)
        ]

    round :
        Rest
        → over r need ≡ true
        → (o : Option ℕ) → choose_victim r.modes r.policy r.chunks ≡ o
        → Chosen r.chunks o
        → Admitted r target need (elim o [
          | none ↦ ok (false, count_infeasible r)
          | some victim ↦
              if declines r victim target
              then ok (false, count_declined r)
              else (evict_and_reconcile k r victim >>= prefetch_loop k target need fuel)
        ])
    round rest too_much none e absent =
        (Kept-counters r _ _ _ v, refl, λ i. inl refl, (refl, too_much, inl absent))
    round rest too_much (some i) e at_i = elim (declines-cases r i target) [
      | inr (declined, sooner) ↦
          rw declined
            (Kept-counters r _ _ _ v, refl, λ j. inl refl, (refl, too_much, inr (i, e, sooner)))
      | inl (admits, later) ↦ rw admits (
          further rest i later (evict_and_reconcile k r i)
            (evict_and_reconcile-Stepped k r i at_i v))
    ]

-- From a sound region and for a target in the table with fewer than 2^62 bytes, `ensure_budget_prefetch`
-- ends in one of three ways. It grants the request: exactly the target's bytes are reserved more, within
-- the budget. It turns the request down with the reservations unchanged when the bytes do not fit: no
-- chunk is evictable, or the victim of the policy is not needed strictly later than the target. Or it
-- ends the process for what the kernel did. In the first two cases no prefetched chunk loses its pin, and
-- every chunk that was evicted was needed strictly later than the target, unless no policy is set or the
-- admission mode is `always`.
pub ensure_budget_prefetch-Admitted :
    (k : Kernel) (r : Region) (target : ℕ) (c : Chunk)
    → get_elem? r.chunks target ≡ some c
    → c.len < 2 ^ 62
    → Inv r
    → Admitted r target c.len (ensure_budget_prefetch k r target)
unfolding ensure_budget_prefetch
ensure_budget_prefetch-Admitted k r target c got small v = elim (scheduled_reconcile-Kept k r v) [
  | inr (x, e, fault) ↦ rw e fault
  | inl (s, e, w, f, same, chunks, queue) ↦
      let here : get_elem? s.chunks target ≡ some c = rw chunks got in
      rw (e, here)
        (Admitted-trans r s target c.len f same queue (λ i. inl (rw chunks))
          (prefetch_loop k target c.len (suc (length s.chunks)) s)
          (prefetch_loop-Admitted k target c.len (suc (length s.chunks)) s small w
            (omega (arith, resident_count-le s.chunks))))
]
