-- ===== src/Policy/Declared/Cursor.antt =====
-- How the consumption signal moves the cursor of the declared policy.
use native.Mathlib.Nat.{mod-lt, mod-eq_of_lt, mod-eq-sub-mod, add-zero}
use residctl.Prelude.{
  ℕ, zero, suc, ◌+◌, ◌%◌, ◌≤◌, ◌<◌, ◌≡◌, refl, sym, ◌∙◌, dec_lt, ◌-◌, true-ne-false, ◌⊎◌, inl, inr,
  true, false, List, Option, none, some, arith, add64, uint32_max, Bool-cases, Option-cases,
  if◌then◌else◌,
}
use residctl.State.{DeclaredState, Modes}
use residctl.Policy.Declared.{holds, declared_dist, find_slot, after_pos, on_access, origin}
use residctl.Policy.Declared.Distance.{
  StandsAt, MissesBetween, IsDeclared, misses_after, stands_nowhere, declared_dist_exact,
}

-- What the forward search gives: the first slot that holds `x`, or none in the rounds searched.
abbrev IsSlot : List ℕ → ℕ → ℕ → ℕ → ℕ → ℕ → Option ℕ → Type 0
IsSlot seq n from x lo hi none = MissesBetween seq n from x lo hi
IsSlot seq n from x lo hi (some q) =
    (k : ℕ) × (lo ≤ k)
    × (k < hi)
    × (q ≡ (from + k) % n)
    × StandsAt seq n from x k
    × MissesBetween seq n from x lo k

module _ (seq : List ℕ) (n from x : ℕ) (small : n < uint32_max) (inside : from ≤ n) where
  find_slot-IsSlot :
      (left k : ℕ) → k + left ≤ n → IsSlot seq n from x k (k + left) (find_slot seq n from x left k)
  unfolding find_slot
  find_slot-IsSlot zero k h = λ i a b. absurd (omega arith)
  find_slot-IsSlot (suc left) k h =
      let at_k : add64 from k ≡ from + k = omega arith in
      let far : k + 1 + left ≡ k + suc left = omega arith in
      elim (Bool-cases (holds seq ((from + k) % n) x)) [
        | inl hit ↦
            rw (at_k, hit) (k, omega arith, omega arith, refl, hit, λ i a b. absurd (omega arith))
        | inr miss ↦
            rw (at_k, miss)
              (further (find_slot seq n from x left (k + 1)) miss
                (rw far at (find_slot-IsSlot left (k + 1) (omega arith))))
      ]
    where
      further :
          (o : Option ℕ)
          → holds seq ((from + k) % n) x ≡ false
          → IsSlot seq n from x (k + 1) (k + suc left) o
          → IsSlot seq n from x k (k + suc left) o
      further none miss absent = misses_after seq n from x small inside k _ miss absent
      further (some q) miss (i, lo, hi, e, here, before) =
          (i, omega arith, hi, e, here, misses_after seq n from x small inside k i miss before)

-- The cursor after the signal for `x`: the first slot with `x` after the old one, going round at the
-- end; a chunk outside the sequence moves nothing.
abbrev pub Advances : DeclaredState → ℕ → DeclaredState → Type 0
Advances st x st' =
    ((st' ≡ st) × ((j : ℕ) → j < st.seq_len → holds st.seq j x ≡ false))
    ⊎ ((q : ℕ) × (k : ℕ) × (st' ≡ record st { pos = some q })
        × (q ≡ (after_pos st.pos + k) % st.seq_len)
        × (k < st.seq_len)
        × (holds st.seq q x ≡ true)
        × MissesBetween st.seq st.seq_len (after_pos st.pos) x 0 k)

after_pos-le : (st : DeclaredState) → IsDeclared st → after_pos st.pos ≤ st.seq_len
after_pos-le st v = ground arith

-- After a sequence of fewer than 2^32 - 1 accesses is declared, `on_access` puts the cursor on the first
-- slot with the chunk after the slot consumed last, going round at the end, and changes nothing else;
-- for a chunk that is not in the sequence it changes nothing.
pub on_access-Advances :
    (st : DeclaredState) (x : ℕ) → IsDeclared st → Advances st x (on_access st x)
unfolding on_access
on_access-Advances st x v = elim (Option-cases slot) [
  | inl e ↦ inl (
    ground (arith, e),
    stands_nowhere seq n from x v.few inside 0 (omega (arith, inside)) (rw e at is_slot),
  )
  | inr (q, e) ↦
      let (k, lo, hi, at_k, here, before) = narrow q (rw e at is_slot) in
      inr (q, k, ground (arith, e), at_k, hi, rw (← at_k) at here, before)
]
  where
    open st use {seq, seq_len as n}

    from : ℕ
    from = after_pos st.pos

    slot : Option ℕ
    slot = find_slot seq n from x n 0

    inside : from ≤ n
    inside = after_pos-le st v

    is_slot : IsSlot seq n from x 0 (0 + n) slot
    is_slot = find_slot-IsSlot seq n from x v.few inside n 0 (omega arith)

    narrow :
        (q : ℕ)
        → IsSlot seq n from x 0 (0 + n) (some q)
        → (k : ℕ) × (0 ≤ k)
          × (k < n)
          × (q ≡ (from + k) % n)
          × StandsAt seq n from x k
          × MissesBetween seq n from x 0 k
    narrow q (k, lo, hi, e, here, before) = (k, lo, omega arith, e, here, before)

pub on_access-IsDeclared :
    (st : DeclaredState) (x : ℕ) → IsDeclared st → IsDeclared (on_access st x)
on_access-IsDeclared st x v = elim (on_access-Advances st x v) [
  | inl (same, _) ↦ rw same v
  | inr (q, k, moved, at_k, _, _, _) ↦ rw moved (record {
    len = v.len;
    some_access = v.some_access;
    few = v.few;
    pos_in = rw at_k (mod-lt (after_pos st.pos + k) v.some_access);
  })
]

-- A chunk that stands in the sequence once, at slot `j`.
abbrev pub StandsOnce : DeclaredState → ℕ → ℕ → Type 0
StandsOnce st x j =
    (j < st.seq_len)
    × (holds st.seq j x ≡ true)
    × ((i : ℕ) → i < st.seq_len → holds st.seq i x ≡ true → i ≡ j)

-- Within one pass only a whole pass comes back to the slot.
round_back : (q r n : ℕ) → q < n → 1 ≤ r → r ≤ n → (q + r) % n ≡ q → r ≡ n
round_back q r n lt one le e = elim (dec_lt (q + r) n) [
  | yes short ↦ absurd (omega (arith, mod-eq_of_lt short))
  | no long ↦ omega (
    arith,
    mod-eq-sub-mod {n = q + r} {m = n} (omega arith),
    mod-eq_of_lt {n = q + r - n} {m = n} (omega arith),
  )
]

next_of_once :
    (m : Modes) (seq : List ℕ) (n q x r : ℕ)
    → q < n
    → holds seq q x ≡ true
    → (q + r) % n ≡ q
    → origin m ≤ r
    → r < origin m + n
    → MissesBetween seq n q x (origin m) r
    → r ≡ (if m.signal_pre then 0 else n)
next_of_once m seq n q x r lt here back lo hi before = elim (Bool-cases m.signal_pre) [
  | inl pre ↦ rw pre (at_once pre r refl)
  | inr post ↦ rw post (round_back q r n lt (ground arith) (ground arith) back)
]
  where
    at_q : (q + 0) % n ≡ q
    at_q = rw add-zero (mod-eq_of_lt lt)

    at_once : m.signal_pre ≡ true → (r' : ℕ) → r' ≡ r → r ≡ 0
    at_once pre zero e = sym e
    at_once pre (suc r') e =
        absurd (true-ne-false (sym here ∙ rw at_q at (before 0 (ground arith) (omega arith))))

-- With --protect-current off, right after the signal for a chunk that the declared sequence has once, its
-- next use is at distance 0 if the signal comes before consumption, and a whole pass away if after it.
pub declared_dist-on_access :
    (m : Modes) (st : DeclaredState) (x j : ℕ)
    → IsDeclared st
    → m.protect_current ≡ false
    → StandsOnce st x j
    → declared_dist m (on_access st x) x ≡ (if m.signal_pre then 0 else st.seq_len)
declared_dist-on_access m st x j v off (lt, here, once) = elim (on_access-Advances st x v) [
  | inl (_, nowhere) ↦ absurd (true-ne-false (sym here ∙ nowhere j lt))
  | inr (q, k, moved, at_k, _, at_q, _) ↦
      let in_pass : q < st.seq_len = rw at_k (mod-lt (after_pos st.pos + k) v.some_access) in
      rw moved (at_cursor q in_pass at_q)
]
  where
    at_cursor :
        (q : ℕ)
        → q < st.seq_len
        → holds st.seq q x ≡ true
        → declared_dist m (record st { pos = some q }) x ≡ (if m.signal_pre then 0 else st.seq_len)
    at_cursor q in_pass at_q =
        elim (declared_dist_exact m (record st { pos = some q }) x moved_valid off) [
          | inl (_, nowhere) ↦ absurd (true-ne-false (sym at_q ∙ nowhere q in_pass))
          | inr (lo, hi, at_r, before) ↦
              next_of_once m st.seq st.seq_len q x _ in_pass at_q
                (once _ (mod-lt _ v.some_access) at_r ∙ sym (once q in_pass at_q)) lo hi before
        ]
      where
        moved_valid : IsDeclared (record st { pos = some q })
        moved_valid = record {
          len = v.len;
          some_access = v.some_access;
          few = v.few;
          pos_in = in_pass;
        }
