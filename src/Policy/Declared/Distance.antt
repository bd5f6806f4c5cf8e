-- ===== src/Policy/Declared/Distance.antt =====
-- The next-use distance of the declared policy, against the positions of the declared sequence.
use native.Mathlib.Nat.{mod-eq_of_lt, mod-eq-sub-mod}
use residctl.Prelude.{
  ℕ, zero, suc, ◌+◌, ◌-◌, ◌%◌, ◌≤◌, ◌<◌, ◌≡◌, refl, ◌⊎◌, inl, inr, true, false, List, arith, add32,
  add64, uint32_max, int64_max, length, Bool-cases, ℕ_discrete, dec_le,
}
use residctl.State.{DeclaredState, Modes}
use residctl.Policy.Declared.{holds, base, scan_ahead, origin, declared_dist}

-- `x` stands `d` steps after position `from` of the sequence of length `n`, going round at the end.
abbrev pub StandsAt : List ℕ → ℕ → ℕ → ℕ → ℕ → Type 0
StandsAt seq n from x d = holds seq ((from + d) % n) x ≡ true

-- It stands at no distance from `lo` on below `hi`.
abbrev pub MissesBetween : List ℕ → ℕ → ℕ → ℕ → ℕ → ℕ → Type 0
MissesBetween seq n from x lo hi = (k : ℕ) → lo ≤ k → k < hi → holds seq ((from + k) % n) x ≡ false

-- `r` is the least distance in [lo, hi) at which `x` stands, or INT64_MAX if there is none.
abbrev pub IsFirstUse : List ℕ → ℕ → ℕ → ℕ → ℕ → ℕ → ℕ → Type 0
IsFirstUse seq n from x lo hi r =
    ((r ≡ int64_max) × MissesBetween seq n from x lo hi)
    ⊎ ((lo ≤ r) × (r < hi) × StandsAt seq n from x r × MissesBetween seq n from x lo r)

module _ (seq : List ℕ) (n from x : ℕ) (small : n < uint32_max) (inside : from ≤ n) where
  pub misses_after :
      (d hi : ℕ)
      → holds seq ((from + d) % n) x ≡ false
      → MissesBetween seq n from x (d + 1) hi
      → MissesBetween seq n from x d hi
  misses_after d hi here later k lo up = elim (ℕ_discrete d k) [
    | yes e ↦ rw (← e) here
    | no ne ↦ later k (omega arith) up
  ]

  -- The scan stops at the first distance from `d` on at which `x` stands.
  scan_ahead-IsFirstUse :
      (left d : ℕ)
      → d + left ≤ n + 1
      → IsFirstUse seq n from x d (d + left) (scan_ahead seq n from x left d)
  unfolding scan_ahead
  scan_ahead-IsFirstUse zero d h = inl (refl, λ k a b. absurd (omega arith))
  scan_ahead-IsFirstUse (suc left) d h =
      let at_d : add64 from d ≡ from + d = omega arith in
      let next : add32 d 1 ≡ d + 1 = omega arith in
      let far : d + 1 + left ≡ d + suc left = omega arith in
      elim (Bool-cases (holds seq ((from + d) % n) x)) [
        | inl hit ↦
            rw (at_d, hit) (inr (omega arith, omega arith, hit, λ k a b. absurd (omega arith)))
        | inr miss ↦
            rw (at_d, miss, next)
              (elim (scan_ahead-IsFirstUse left (d + 1) (omega arith)) [
                | inl (e, absent) ↦ inl (e, misses_after d (d + suc left) miss (rw far at absent))
                | inr (lo, hi, here, before) ↦
                    inr (omega arith, omega arith, here, misses_after d _ miss before)
              ])
      ]

  -- One round of the sequence from any start meets every element.
  covers_round :
      (lo j : ℕ) → from + lo ≤ n → j < n → (d : ℕ) × (lo ≤ d) × (d < lo + n) × ((from + d) % n ≡ j)
  covers_round lo j room h = elim (dec_le (from + lo) j) [
    | yes ahead ↦
        let e : from + (j - from) ≡ j = omega arith in
        (j - from, omega arith, omega arith, rw e (mod-eq_of_lt h))
    | no behind ↦
        let e : from + (j + n - from) ≡ j + n = omega arith in
        let e' : j + n - n ≡ j = omega arith in
        (
          j + n - from,
          omega arith,
          omega arith,
          rw (e, mod-eq-sub-mod {n = j + n} {m = n} (omega arith), e') (mod-eq_of_lt h),
        )
  ]

  -- So what misses a whole round stands nowhere.
  pub stands_nowhere :
      (lo : ℕ)
      → from + lo ≤ n
      → MissesBetween seq n from x lo (lo + n)
      → (j : ℕ) → j < n
      → holds seq j x ≡ false
  stands_nowhere lo room absent j h =
      let (d, a, b, e) = covers_round lo j room h in rw e at (absent d a b)

-- The state of a policy whose workload has declared a sequence of fewer than 2^32 - 1 accesses.
pub record IsDeclared (st : DeclaredState) : Type 0 where
  pub len : st.seq_len ≡ length st.seq
  pub some_access : 0 < st.seq_len
  pub few : st.seq_len < uint32_max
  pub pos_in : base st.pos < st.seq_len

declared_dist_unprotected :
    (m : Modes) (st : DeclaredState) (x : ℕ)
    → IsDeclared st
    → m.protect_current ≡ false
    → declared_dist m st x ≡ scan_ahead st.seq st.seq_len (base st.pos) x st.seq_len (origin m)
unfolding declared_dist
declared_dist_unprotected m st x v off = ground arith

origin-le : (m : Modes) → origin m ≤ 1
origin-le m = ground arith

-- Either the distance is INT64_MAX and the chunk stands nowhere in the sequence, or it is the least
-- number of steps, from `lo` on, after which the sequence read cyclically from `from` has the chunk; it
-- is found within one round.
abbrev pub IsNextUse : List ℕ → ℕ → ℕ → ℕ → ℕ → ℕ → Type 0
IsNextUse seq n from x lo r =
    ((r ≡ int64_max) × ((j : ℕ) → j < n → holds seq j x ≡ false))
    ⊎ ((lo ≤ r) × (r < lo + n) × StandsAt seq n from x r × MissesBetween seq n from x lo r)

-- After a sequence of fewer than 2^32 - 1 accesses is declared, with --protect-current off, the distance
-- of a chunk is the number of steps from the cursor to its next use, counted from 0 if the signal comes
-- before consumption and from 1 if it comes after, and INT64_MAX if the chunk is not in the sequence.
pub declared_dist_exact :
    (m : Modes) (st : DeclaredState) (x : ℕ)
    → IsDeclared st
    → m.protect_current ≡ false
    → IsNextUse st.seq st.seq_len (base st.pos) x (origin m) (declared_dist m st x)
declared_dist_exact m st x v off =
    rw (declared_dist_unprotected m st x v off)
      (elim (scan_ahead-IsFirstUse st.seq st.seq_len (base st.pos) x v.few (omega arith) st.seq_len
        (origin m) (omega (arith, origin-le m))) [
          | inl (e, absent) ↦ inl (
            e,
            stands_nowhere st.seq st.seq_len (base st.pos) x v.few (omega arith) (origin m)
                (omega (arith, origin-le m)) absent,
          )
          | inr first ↦ inr first
        ])
