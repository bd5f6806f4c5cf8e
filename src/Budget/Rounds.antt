-- ===== src/Budget/Rounds.antt =====
-- One round of the eviction loops: whom it picks, and what an eviction and a broken pin leave.
use residctl.Prelude.{
  ℕ, zero, suc, ◌+◌, ◌≡◌, refl, sym, ◌∙◌, ◌⊎◌, inl, inr, true, false, List, [], ◌∷◌, Option, none,
  some, arith, if◌then◌else◌, get_elem?, Bool-cases, true-ne-false,
}
use residctl.State.{Chunk, Region, Policy, Modes}
use residctl.Policy.Scan.{is_resident, evictable}
use residctl.Policy.{choose_victim, default_select_victim, select_victim}
use residctl.Policy.Victims.{select_victim-IsVictim, IsVictim}
use residctl.Retain.{entries, coldest, beats, state_is_resident, distance, pin_break_select_victim}
use residctl.Budget.{Round, evicts, breaks, stuck, demand_round}
use residctl.Budget.Accounts.{Held, IsRetained}

-- Index `i` names an evictable chunk.
abbrev pub EvictableAt : List Chunk → ℕ → Type 0
EvictableAt cs i = (c : Chunk) × (get_elem? cs i ≡ some c) × (evictable c ≡ true)

abbrev pub NothingEvictable : List Chunk → Type 0
NothingEvictable cs = (j : ℕ) (c : Chunk) → get_elem? cs j ≡ some c → evictable c ≡ false

abbrev DefaultFound : List Chunk → ℕ → Option ℕ → Type 0
DefaultFound cs i none = NothingEvictable cs
DefaultFound cs i (some j) = (n : ℕ) × (j ≡ i + n) × EvictableAt cs n

default_select_victim-DefaultFound :
    (cs : List Chunk) (i : ℕ) → DefaultFound cs i (default_select_victim i cs)
unfolding default_select_victim
default_select_victim-DefaultFound [] i = λ j c got. absurd (ground arith)
default_select_victim-DefaultFound (x ∷ cs) i = elim (Bool-cases (evictable x)) [
  | inl fit ↦ rw fit (0, omega arith, (x, refl, fit))
  | inr out ↦
      rw out (
        later (default_select_victim (i + 1) cs) out
          (default_select_victim-DefaultFound cs (i + 1)))
]
  where
    later :
        (o : Option ℕ) → evictable x ≡ false → DefaultFound cs (i + 1) o → DefaultFound (x ∷ cs) i o
    later (some j) out (n, e, at_n) = (suc n, omega arith, at_n)
    later none out absent = λ j c got. below j c got
      where
        below : (j : ℕ) (c : Chunk) → get_elem? (x ∷ cs) j ≡ some c → evictable c ≡ false
        below zero c got = let same : x ≡ c = ground arith in rw (← same) out
        below (suc j) c got = absent j c got

abbrev pub Chosen : List Chunk → Option ℕ → Type 0
Chosen cs none = NothingEvictable cs
Chosen cs (some i) = EvictableAt cs i

pub choose_victim-Chosen :
    (m : Modes) (p : Option Policy) (cs : List Chunk) → Chosen cs (choose_victim m p cs)
unfolding choose_victim
choose_victim-Chosen m none cs =
    narrow (default_select_victim 0 cs) (default_select_victim-DefaultFound cs 0)
  where
    narrow : (o : Option ℕ) → DefaultFound cs 0 o → Chosen cs o
    narrow none absent = absent
    narrow (some j) (n, e, at_n) = let same : j ≡ n = omega arith in rw same at_n
choose_victim-Chosen m (some p) cs = narrow (select_victim m p cs) (select_victim-IsVictim m p cs)
  where
    narrow : (o : Option ℕ) → IsVictim m p cs o → Chosen cs o
    narrow none absent = absent
    narrow (some j) (c, got, fit, _) = (c, got, fit)

abbrev pub In : ℕ → List ℕ → Type 0
In i [] = ⊥
In i (e ∷ es) = (i ≡ e) ⊎ In i es

-- Index `i` names a chunk that the queue holds.
abbrev pub HeldAt : List Chunk → ℕ → Type 0
HeldAt cs i = (c : Chunk) × (get_elem? cs i ≡ some c) × (is_resident c.state ≡ true) × (c.pin ≡ 1)

abbrev Coldest : Region → List ℕ → Option (ℕ × ℕ) → Option (ℕ × ℕ) → Type 0
Coldest r es best none = (best ≡ none) × (es ≡ [])
Coldest r es best (some b) = (best ≡ some b) ⊎ (In b.0 es × HeldAt r.chunks b.0)

coldest-Coldest :
    (r : Region) (es : List ℕ) (best : Option (ℕ × ℕ))
    → Held r.chunks es
    → Coldest r es best (coldest r es best)
unfolding coldest
coldest-Coldest r [] none h = (refl, refl)
coldest-Coldest r [] (some b) h = inl refl
coldest-Coldest r (e ∷ es) best (here, fresh, rest) =
    let taken : state_is_resident r.chunks e ≡ true = ground arith in
    elim (Bool-cases (beats best (distance r e))) [
      | inl better ↦
          rw (taken, better)
            (later (some (e, distance r e)) _ (inr refl)
              (coldest-Coldest r es (some (e, distance r e)) rest))
      | inr worse ↦
          rw (taken, worse) (later best _ (inl (refl, worse)) (coldest-Coldest r es best rest))
    ]
  where
    later :
        (new o : Option (ℕ × ℕ))
        → ((new ≡ best) × (beats best (distance r e) ≡ false)) ⊎ (new ≡ some (e, distance r e))
        → Coldest r es new o
        → Coldest r (e ∷ es) best o
    later new none (inl (same, beaten)) (empty, _) =
        let bare : best ≡ none = sym same ∙ empty in absurd (true-ne-false (rw bare at beaten))
    later new none (inr chosen) (empty, _) = absurd (ground arith)
    later new (some b) (inl (same, _)) (inl kept) = inl (sym same ∙ kept)
    later new (some b) (inr chosen) (inl kept) =
        let first : b.0 ≡ e = ground arith in inr (inl first, rw first here)
    later new (some b) from (inr (inside, at_b)) = inr (inr inside, at_b)

pin_break-Coldest :
    (r : Region)
    → Held r.chunks (entries r.pinned)
    → ((pin_break_select_victim r ≡ none) × (entries r.pinned ≡ []))
      ⊎ ((i : ℕ) × (pin_break_select_victim r ≡ some i)
          × In i (entries r.pinned)
          × HeldAt r.chunks i)
unfolding pin_break_select_victim
pin_break-Coldest r h =
    finish (coldest r (entries r.pinned) none) (coldest-Coldest r (entries r.pinned) none h)
  where
    finish :
        (o : Option (ℕ × ℕ))
        → Coldest r (entries r.pinned) none o
        → (((elim o [ none ↦ none | some b ↦ some b.0 ]) ≡ none) × (entries r.pinned ≡ []))
          ⊎ ((i : ℕ) × ((elim o [ none ↦ none | some b ↦ some b.0 ]) ≡ some i)
              × In i (entries r.pinned)
              × HeldAt r.chunks i)
    finish none (_, empty) = inl (refl, empty)
    finish (some b) (inl never) = absurd (ground arith)
    finish (some b) (inr (inside, at_b)) = inr (b.0, refl, inside, at_b)

-- What a round promises of the victim, and when it finds none.
abbrev pub RoundOk : Region → Round → Type 0
RoundOk r (evicts i) = EvictableAt r.chunks i
RoundOk r (breaks i) = In i (entries r.pinned) × HeldAt r.chunks i
RoundOk r stuck =
    NothingEvictable r.chunks × (r.prefetch_retention_pinned ≡ true → entries r.pinned ≡ [])

pub demand_round-RoundOk : (r : Region) → IsRetained r → RoundOk r (demand_round r)
unfolding demand_round
demand_round-RoundOk r v =
    finish (choose_victim r.modes r.policy r.chunks)
      (choose_victim-Chosen r.modes r.policy r.chunks)
  where
    finish :
        (o : Option ℕ)
        → Chosen r.chunks o
        → RoundOk r (elim o [
          | some victim ↦ evicts victim
          | none ↦
              if r.prefetch_retention_pinned
              then (elim (pin_break_select_victim r) [ some victim ↦ breaks victim | none ↦ stuck ])
              else stuck
        ])
    finish (some i) at_i = at_i
    finish none absent = elim (Bool-cases r.prefetch_retention_pinned) [
      | inr off ↦ rw off (absent, λ on. absurd (true-ne-false (sym on)))
      | inl on ↦ rw on (elim (pin_break-Coldest r v.held) [
        | inl (e, empty) ↦ rw e (absent, λ _. empty)
        | inr (i, e, inside, at_i) ↦ rw e (inside, at_i)
      ])
    ]
