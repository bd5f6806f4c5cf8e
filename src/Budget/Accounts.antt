-- ===== src/Budget/Accounts.antt =====
-- What the counters of the region stand for, and how an update of one chunk changes it.
use residctl.Prelude.{
  ℕ, zero, suc, ◌+◌, ◌^◌, ◌≤◌, ◌<◌, ◌≡◌, ◌≢◌, ◌∙◌, ◌⊎◌, inl, inr, true, false, List, [], ◌∷◌, some,
  arith, ◌==◌, ==_iff, if◌then◌else◌, get_elem?, set, length, get_elem?-set_ne, Bool-cases,
}
use residctl.State.{Chunk, Region}
use residctl.Policy.Scan.{is_resident}
use residctl.Retain.{entries}
use residctl.Retain.Ring.{IsRing}
use residctl.Retain.Refines.{remove_first}

-- The bytes that a chunk holds in memory.
abbrev pub weight : Chunk → ℕ
weight c = if is_resident c.state then c.len else 0

abbrev pub resident_sum : List Chunk → ℕ
resident_sum [] = 0
resident_sum (c ∷ cs) = weight c + resident_sum cs

abbrev pub resident_count : List Chunk → ℕ
resident_count [] = 0
resident_count (c ∷ cs) = (if is_resident c.state then 1 else 0) + resident_count cs

pub resident_sum-set :
    (cs : List Chunk) (i : ℕ) (c d : Chunk)
    → get_elem? cs i ≡ some c
    → resident_sum (set cs i d) + weight c ≡ resident_sum cs + weight d
resident_sum-set [] i c d h = cc
resident_sum-set (x ∷ cs) zero c d h = let same : x ≡ c = ground arith in rw same (omega arith)
resident_sum-set (x ∷ cs) (suc i) c d h = omega (arith, resident_sum-set cs i c d h)

pub resident_count-set :
    (cs : List Chunk) (i : ℕ) (c d : Chunk)
    → get_elem? cs i ≡ some c
    → resident_count (set cs i d) + (if is_resident c.state then 1 else 0)
      ≡ resident_count cs + (if is_resident d.state then 1 else 0)
resident_count-set [] i c d h = cc
resident_count-set (x ∷ cs) zero c d h = let same : x ≡ c = ground arith in rw same (omega arith)
resident_count-set (x ∷ cs) (suc i) c d h = omega (arith, resident_count-set cs i c d h)

pub resident_count-le : (cs : List Chunk) → resident_count cs ≤ length cs
resident_count-le [] = omega arith
resident_count-le (c ∷ cs) = ground (arith, resident_count-le cs)

abbrev pub NotIn : ℕ → List ℕ → Type 0
NotIn i [] = Unit {0}
NotIn i (e ∷ es) = (i ≢ e) × NotIn i es

-- The entries are distinct, and each names a resident chunk whose one pin is the queue's.
abbrev pub Held : List Chunk → List ℕ → Type 0
Held cs [] = Unit {0}
Held cs (e ∷ es) =
    ((c : Chunk) × (get_elem? cs e ≡ some c) × (is_resident c.state ≡ true) × (c.pin ≡ 1))
    × NotIn e es
    × Held cs es

pub Held-set :
    (cs : List Chunk) (es : List ℕ) (i : ℕ) (d : Chunk)
    → Held cs es
    → NotIn i es
    → Held (set cs i d) es
Held-set cs [] i d h n = tt
Held-set cs (e ∷ es) i d ((c, got, res, pin), fresh, rest) (ne, n) =
    ((c, get_elem?-set_ne cs i e d ne ∙ got, res, pin), fresh, Held-set cs es i d rest n)

pub Held-NotIn :
    (cs : List Chunk) (es : List ℕ) (i : ℕ) (c : Chunk)
    → Held cs es
    → get_elem? cs i ≡ some c
    → ((is_resident c.state ≡ false) ⊎ (c.pin ≢ 1))
    → NotIn i es
Held-NotIn cs [] i c h got other = tt
Held-NotIn cs (e ∷ es) i c ((d, got', res, pin), fresh, rest) got other =
    (λ same. differs same other, Held-NotIn cs es i c rest got other)
  where
    differs : i ≡ e → ((is_resident c.state ≡ false) ⊎ (c.pin ≢ 1)) → ⊥
    differs same (inl out) = let here : d ≡ c = ground arith in ground arith
    differs same (inr free) = let here : d ≡ c = ground arith in free (ground arith)

pub NotIn-remove_first : (i j : ℕ) (es : List ℕ) → NotIn i es → NotIn i (remove_first j es)
NotIn-remove_first i j [] n = tt
NotIn-remove_first i j (e ∷ es) (ne, n) = elim (Bool-cases (e == j)) [
  | inl hit ↦ rw hit n
  | inr miss ↦ rw miss (ne, NotIn-remove_first i j es n)
]

pub Held-remove_first :
    (cs : List Chunk) (j : ℕ) (es : List ℕ)
    → Held cs es
    → Held cs (remove_first j es) × NotIn j (remove_first j es)
Held-remove_first cs j [] h = (tt, tt)
Held-remove_first cs j (e ∷ es) (here, fresh, rest) = elim (Bool-cases (e == j)) [
  | inl hit ↦ let same : e ≡ j = (==_iff e j).0 hit in rw hit (rest, rw same at fresh)
  | inr miss ↦
      let (h, n) = Held-remove_first cs j es rest in
      rw miss ((here, NotIn-remove_first e j es fresh, h), (λ same. absurd (ground arith), n))
]

-- The region's accounts: what it counts as resident is what its chunks hold, and with the reserved bytes
-- it fits the budget.
pub record IsAccounted (r : Region) : Type 0 where
  pub resident : r.resident_bytes ≡ resident_sum r.chunks
  pub within : r.resident_bytes + r.reserved_bytes ≤ r.budget_bytes
  pub small : r.budget_bytes < 2 ^ 62

-- The retention queue is sound and holds each of its chunks by one pin.
pub record IsRetained (r : Region) : Type 0 where
  pub ring : IsRing r.pinned
  pub held : Held r.chunks (entries r.pinned)

pub record Inv (r : Region) : Type 0 where
  pub accounted : IsAccounted r
  pub retained : IsRetained r
