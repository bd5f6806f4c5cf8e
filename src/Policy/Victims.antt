-- ===== src/Policy/Victims.antt =====
-- What `select_victim` and `next_use_distance` guarantee together, for every policy.
use residctl.Prelude.{
  ℕ, zero, suc, ◌≤◌, ◌≡◌, inl, inr, Bool, true, false, List, [], ◌∷◌, Option, none, some, arith,
  ltb, ltb→le, ◌==◌, uint32_max, get_elem?, get_or, set, replicate, add32, Bool-cases, Option-cases,
}
use residctl.State.{Chunk, Modes, Policy, LearnedState, DeclaredState, lru, learned, declared}
use residctl.Policy.Scan.{
  pick, evictable, NoneEvictable, NoneEvictable-get_elem?, Found-get_elem?, NoneBetter-get_elem?,
  pick-Found, pick-none, pick-NoneBetter,
}
use residctl.Policy.Learned
use residctl.Policy.Learned.{further, compute_dist, walk}
use residctl.Policy.Declared
use residctl.Policy.Declared.{declared_dist}
use residctl.Policy.{index_of, lru_select_victim, select_victim, next_use_distance}

-- What a scan that starts with no best has found.
abbrev Picked : (ℕ → ℕ → Bool) → (ℕ → Chunk → ℕ) → List Chunk → Option (ℕ × ℕ) → Type 0
Picked better key cs none = NoneEvictable cs
Picked better key cs (some b) =
    (c : Chunk) × (get_elem? cs b.0 ≡ some c)
    × (evictable c ≡ true)
    × (b.1 ≡ key b.0 c)
    × ((j : ℕ) (d : Chunk)
        → get_elem? cs j ≡ some d
        → evictable d ≡ true
        → better (key j d) b.1 ≡ false)

module _ (better : ℕ → ℕ → Bool) (key : ℕ → Chunk → ℕ) (irrefl : (k : ℕ) → better k k ≡ false)
    (keep : (a b k : ℕ) → better a b ≡ false → better b k ≡ false → better a k ≡ false)
    (replace : (a b k : ℕ) → better a b ≡ true → better a k ≡ false → better b k ≡ false) where
  pick-Picked : (cs : List Chunk) → Picked better key cs (pick better key cs 0 none)
  pick-Picked cs = elim (Option-cases (pick better key cs 0 none)) [
    | inl e ↦ rw e (pick-none better key cs 0 none e).1
    | inr (b, e) ↦ rw e (chosen b.0 b.1 e)
  ]
    where
      chosen :
          (j k : ℕ) → pick better key cs 0 none ≡ some (j, k) → Picked better key cs (some (j, k))
      chosen j k e = elim (pick-Found better key cs 0 none j k e) [
        | inl never ↦ absurd (ground arith)
        | inr f ↦
            let (n, c, at_n, got, fit, v) = Found-get_elem? better key cs 0 j k f in
            let same : n ≡ j = omega arith in
            (
              c,
              rw same at got,
              fit,
              v,
              λ i d got' fit'.
                  NoneBetter-get_elem? better key cs 0 k i i d
                    (pick-NoneBetter better key irrefl keep replace cs 0 none j k e).1 (omega arith)
                    got' fit',
            )
      ]

oldest-Picked : (key : ℕ → Chunk → ℕ) (cs : List Chunk) → Picked ltb key cs (pick ltb key cs 0 none)
oldest-Picked key cs =
    pick-Picked ltb key (λ k. ground arith) (λ a b k p q. ground arith) (λ a b k p q. ground arith)
      cs

furthest-Picked :
    (key : ℕ → Chunk → ℕ) (cs : List Chunk) → Picked further key cs (pick further key cs 0 none)
furthest-Picked key cs =
    pick-Picked further key (λ k. ground arith) (λ a b k p q. ground arith)
      (λ a b k p q. ground arith) cs

-- Every distance of the learned walk is a `uint32_t`.
abbrev Bounded : List ℕ → Type 0
Bounded dist = (j : ℕ) → get_or dist j uint32_max ≤ uint32_max

set-Bounded : (dist : List ℕ) (i v : ℕ) → v ≤ uint32_max → Bounded dist → Bounded (set dist i v)
set-Bounded [] i v h b j = b j
set-Bounded (x ∷ xs) zero v h b zero = h
set-Bounded (x ∷ xs) zero v h b (suc j) = b (suc j)
set-Bounded (x ∷ xs) (suc i) v h b zero = b 0
set-Bounded (x ∷ xs) (suc i) v h b (suc j) = set-Bounded xs i v h (λ k. b (suc k)) j

replicate-Bounded : (n : ℕ) → Bounded (replicate n uint32_max)
replicate-Bounded zero j = omega arith
replicate-Bounded (suc n) zero = omega arith
replicate-Bounded (suc n) (suc j) = replicate-Bounded n j

walk-Bounded :
    (succ : List (Option ℕ)) (hops node d : ℕ) (dist : List ℕ)
    → d ≤ uint32_max
    → Bounded dist
    → Bounded (walk succ hops node d dist)
unfolding walk
walk-Bounded succ zero node d dist h b = b
walk-Bounded succ (suc hops) node d dist h b = elim (Option-cases (get_or succ node none)) [
  | inl end ↦ rw (end, walk) b
  | inr (next, e) ↦
      rw (e, walk)
        (elim (Bool-cases (get_or dist next 0 == uint32_max)) [
          | inl new ↦ rw new (
              walk-Bounded succ hops next (add32 d 1) (set dist next d) (omega arith)
                (set-Bounded dist next d h b))
          | inr seen ↦ rw seen b
        ])
]

compute_dist-Bounded : (st : LearnedState) → Bounded (compute_dist st)
unfolding compute_dist
compute_dist-Bounded st = elim (Option-cases st.last_fetched) [
  | inl e ↦ rw e (replicate-Bounded st.n_chunks)
  | inr (last, e) ↦ rw e (
      walk-Bounded st.successor st.n_chunks last 1 (replicate st.n_chunks uint32_max) (omega arith)
        (replicate-Bounded st.n_chunks))
]

-- Why the policy prefers chunk `i`, which is `c`, to every other that could be evicted.
abbrev pub Preferred : Modes → Policy → List Chunk → ℕ → Chunk → Type 0
Preferred m lru cs i c =
    (j : ℕ) (d : Chunk)
    → get_elem? cs j ≡ some d
    → evictable d ≡ true
    → c.last_fault_seq ≤ d.last_fault_seq
Preferred m p cs i c =
    (j : ℕ) (d : Chunk)
    → get_elem? cs j ≡ some d
    → evictable d ≡ true
    → next_use_distance m p j ≤ next_use_distance m p i

-- A correct answer of `select_victim`.
abbrev pub IsVictim : Modes → Policy → List Chunk → Option ℕ → Type 0
IsVictim m p cs none = (j : ℕ) (d : Chunk) → get_elem? cs j ≡ some d → evictable d ≡ false
IsVictim m p cs (some i) =
    (c : Chunk) × (get_elem? cs i ≡ some c) × (evictable c ≡ true) × Preferred m p cs i c

lru-IsVictim : (m : Modes) (cs : List Chunk) → IsVictim m lru cs (select_victim m lru cs)
unfolding select_victim
lru-IsVictim m cs = finish (lru_select_victim cs) (oldest-Picked (λ _ c. c.last_fault_seq) cs)
  where
    finish :
        (o : Option (ℕ × ℕ))
        → Picked ltb (λ _ c. c.last_fault_seq) cs o
        → IsVictim m lru cs (index_of o)
    finish none out = λ j d got. NoneEvictable-get_elem? cs j d out got
    finish (some b) (c, got, fit, v, best) =
        (c, got, fit, λ j d got' fit'. rw (← v) (ltb→le _ _ (best j d got' fit')))

learned-IsVictim :
    (m : Modes) (st : LearnedState) (cs : List Chunk)
    → IsVictim m (learned st) cs (select_victim m (learned st) cs)
unfolding select_victim next_use_distance
learned-IsVictim m st cs = finish (Learned.select_victim st cs) (furthest-Picked key cs)
  where
    key : ℕ → Chunk → ℕ
    key = λ i _. get_or (compute_dist st) i uint32_max

    finish :
        (o : Option (ℕ × ℕ)) → Picked further key cs o → IsVictim m (learned st) cs (index_of o)
    finish none out = λ j d got. NoneEvictable-get_elem? cs j d out got
    finish (some b) (c, got, fit, v, best) = (
      c,
      got,
      fit,
      λ j d got' fit'.
          let far = ltb→le _ _ (best j d got' fit') in
          ground (arith, compute_dist-Bounded st j, compute_dist-Bounded st b.0),
    )

declared-IsVictim :
    (m : Modes) (st : DeclaredState) (cs : List Chunk)
    → IsVictim m (declared st) cs (select_victim m (declared st) cs)
unfolding select_victim next_use_distance
declared-IsVictim m st cs =
    finish (Declared.select_victim m st cs) (furthest-Picked (λ i _. declared_dist m st i) cs)
  where
    finish :
        (o : Option (ℕ × ℕ))
        → Picked further (λ i _. declared_dist m st i) cs o
        → IsVictim m (declared st) cs (index_of o)
    finish none out = λ j d got. NoneEvictable-get_elem? cs j d out got
    finish (some b) (c, got, fit, v, best) =
        (c, got, fit, λ j d got' fit'. rw (← v) (ltb→le _ _ (best j d got' fit')))

-- Under every policy `select_victim` gives none only if no chunk is resident and unpinned, and otherwise
-- a resident, unpinned chunk: under lru one with the least fault number among all such, under the layer
-- orders one that is, by the policy's own `next_use_distance`, at least as far as each of them.
pub select_victim-IsVictim :
    (m : Modes) (p : Policy) (cs : List Chunk) → IsVictim m p cs (select_victim m p cs)
select_victim-IsVictim m lru cs = lru-IsVictim m cs
select_victim-IsVictim m (learned st) cs = learned-IsVictim m st cs
select_victim-IsVictim m (declared st) cs = declared-IsVictim m st cs
