-- ===== src/Belady/Floor/Periods.antt =====
-- What `detect_cyclic_scan` finds, src/belady_main.c: a string that is one list of distinct chunks, pass after pass.
use residctl.Prelude.{
  ==_iff, ℕ, suc, ◌+◌, ◌-◌, ◌*◌, ◌/◌, ◌%◌, ◌^◌, ◌==◌, ◌≡◌, ◌≤◌, ◌<◌, refl, sym, ap, ◌∙◌, Bool, true,
  false, not, ◌||◌, List, [], ◌∷◌, Option, some, arith, length, get_or, replicate, ltb, add32,
  if-cases, length-replicate,
}
use native.Mathlib.Nat.{mod-lt, mod-add-div', mod-le}
use residctl.Trace.{take}
use residctl.Belady.Floor.{max_id, is_periodic, is_permutation, detect_cyclic_scan}
use residctl.Belady.Floor.Bound.{passes_of}
use residctl.Belady.Sets.{Distinct}
use residctl.Belady.Occurrences.{AreBelow}
use residctl.Belady.Floor.Strings.{
  list_ext, length-passes_of, get_or-passes_of, length-take, get_or-take, is_periodic-get_or,
  is_permutation-Distinct,
}

max_id-AreBelow : (b : ℕ) (ref : List ℕ) (m : ℕ) → AreBelow b ref → m < b → max_id ref m < b
max_id-AreBelow b [] m small low = low
max_id-AreBelow b (x ∷ ref) m (here, small) low =
    if-cases (λ k. max_id ref k < b) (ltb m x) (λ _. max_id-AreBelow b ref x small here)
      (λ _. max_id-AreBelow b ref m small low)

-- A cyclic scan: the passes counted are no more than there are.
abbrev pub IsScan : (ref : List ℕ) (n passes : ℕ) → Type 0
IsScan ref n passes =
    (ws : List ℕ) × (p : ℕ) × (ref ≡ passes_of (suc p) ws)
    × (Distinct ws)
    × (length ws ≡ n)
    × (0 < passes)
    × (passes ≤ suc p)

some_pair : {a b c d : ℕ} → ◌≡◌ {A = Option (ℕ × ℕ)} (some (a, b)) (some (c, d)) → (a ≡ c) × (b ≡ d)
some_pair {a} {b} {c} {d} e =
    let same : ◌≡◌ {A = ℕ × ℕ} (a, b) (c, d) = cc e in (ap (λ p. p.0) same, ap (λ p. p.1) same)

pub detect_cyclic_scan-IsScan :
    (ref : List ℕ) (n passes : ℕ)
    → AreBelow (2 ^ 32 - 1) ref
    → detect_cyclic_scan ref ≡ some (n, passes)
    → IsScan ref n passes
unfolding detect_cyclic_scan
detect_cyclic_scan-IsScan ref n passes small e =
    if-cases (λ o. o ≡ some (n, passes) → IsScan ref n passes)
      ((length ref == 0) || ((m == 0) || not ((length ref % m) == 0))) (λ _ off. cc off)
      (λ shape.
        if-cases (λ o. o ≡ some (n, passes) → IsScan ref n passes) (ltb count 1) (λ _ off. cc off)
          (λ some_pass.
            if-cases (λ o. o ≡ some (n, passes) → IsScan ref n passes)
              (not (is_periodic m ref 0 ref)) (λ _ off. cc off)
              (λ periodic.
                if-cases (λ o. o ≡ some (n, passes) → IsScan ref n passes)
                  (is_permutation m m ref (replicate m false))
                  (λ perm same. found shape some_pass periodic perm (some_pair same))
                  (λ _ off. cc off))))
      e
  where
    m : ℕ
    m = add32 (max_id ref 0) 1

    count : ℕ
    count = (length ref / m) % 2 ^ 32

    found :
        ((length ref == 0) || ((m == 0) || not ((length ref % m) == 0))) ≡ false
        → ltb count 1 ≡ false
        → not (is_periodic m ref 0 ref) ≡ false
        → is_permutation m m ref (replicate m false) ≡ true
        → (m ≡ n) × (count ≡ passes)
        → IsScan ref n passes
    found shape some_pass periodic perm (same_n, same_passes) =
        let pos : 0 < m = positive in
        let whole : length ref % m ≡ 0 = (==_iff (length ref % m) 0).0 (divides shape) in
        let parts : length ref % m + length ref / m * m ≡ length ref =
          mod-add-div' (length ref) m in
        let some_left : 0 < length ref / m =
          ground (arith, some_pass, mod-le (length ref / m) (2 ^ 32)) in
        let p : ℕ = length ref / m - 1 in
        let again : suc p ≡ length ref / m = omega (arith, some_left) in
        let long : suc p * m ≡ length ref = ap (λ k. k * m) again ∙ omega (arith, whole, parts) in
        let once : suc p * m ≡ m + p * m = omega arith in
        let size : length (take m ref) ≡ m = length-take m ref (omega (arith, long, once)) in
        let total : suc p * length (take m ref) ≡ length ref = ap (λ k. suc p * k) size ∙ long in
        (
          take m ref,
          p,
          list_ext ref (passes_of (suc p) (take m ref))
              (sym (length-passes_of (suc p) (take m ref) ∙ total))
              (λ i low.
                let turn : i % length (take m ref) < m =
                  omega (arith, ap (λ k. i % k) size, mod-lt i pos) in
                let place : (0 + i) % m ≡ i % length (take m ref) =
                  ap (λ k. k % m) (omega arith) ∙ ap (λ k. i % k) (sym size) in
                is_periodic-get_or m ref 0 ref (on (is_periodic m ref 0 ref) periodic) i low
                ∙ (ap (λ k. get_or ref k 0) place
                    ∙ (sym (get_or-take m ref (i % length (take m ref)) turn)
                        ∙ sym (
                            get_or-passes_of (suc p) (take m ref) i (omega (arith, low, total)))))),
          (is_permutation-Distinct m m ref (replicate m false) (length-replicate m false) perm).0,
          size ∙ same_n,
          ground (arith, some_pass, same_passes),
          omega (arith, same_passes, again, mod-le (length ref / m) (2 ^ 32)),
        )
      where
        positive : 0 < m
        positive = omega (arith, max_id-AreBelow (2 ^ 32 - 1) ref 0 small (omega arith))

        divides :
            ((length ref == 0) || ((m == 0) || not ((length ref % m) == 0))) ≡ false
            → ((length ref % m) == 0) ≡ true
        divides h = third (length ref == 0) (m == 0) ((length ref % m) == 0) h
          where
            third : (a b c : Bool) → (a || (b || not c)) ≡ false → c ≡ true
            third true b c h = cc h
            third false true c h = cc h
            third false false true h = refl
            third false false false h = cc h

        on : (b : Bool) → not b ≡ false → b ≡ true
        on true h = refl
        on false h = cc h
