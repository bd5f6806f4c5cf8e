-- ===== src/Belady/Floor.antt =====
-- The check of the solver against the cyclic floor, src/belady_main.c: `detect_cyclic_scan`, `cyclic_floor` and
-- `check_cyclic_floor_or_abort`.
pub mod Bound
pub mod Strings
pub mod Periods
pub mod Check
use residctl.Prelude.{
  ℕ, zero, suc, ◌+◌, ◌-◌, ◌*◌, ◌/◌, ◌%◌, ◌^◌, ◌==◌, List, [], ◌∷◌, Bool, true, false, not, ◌&&◌,
  ◌||◌, Option, none, some, if◌then◌else◌, length, get_or, set, replicate, ltb, add32,
}
use residctl.Result.{Result, ok, abort, guard, ◌>>◌}
use residctl.Result

-- `max_id`
abbrev pub max_id : List ℕ → ℕ → ℕ
max_id [] m = m
max_id (x ∷ ref) m = max_id ref (if ltb m x then x else m)

-- The loop that compares each reference, from position `i` on, with the one at its place in the first period.
abbrev pub is_periodic : (n : ℕ) (ref : List ℕ) (i : ℕ) → List ℕ → Bool
is_periodic n ref i [] = true
is_periodic n ref i (x ∷ rest) =
    let later = is_periodic n ref (suc i) rest in if x == get_or ref (i % n) 0 then later else false

-- The loop over the first `left` references, by the chunks `seen` so far.
abbrev pub is_permutation : (n left : ℕ) → List ℕ → List Bool → Bool
is_permutation n zero ref seen = true
is_permutation n (suc left) [] seen = true
is_permutation n (suc left) (x ∷ ref) seen =
    let later = is_permutation n left ref (set seen x true) in
    if not (ltb x n) || get_or seen x false then false else later

-- `detect_cyclic_scan`: the chunks and the passes of a cyclic scan.
unfoldable pub detect_cyclic_scan : List ℕ → Option (ℕ × ℕ)
detect_cyclic_scan ref =
    let n = add32 (max_id ref 0) 1 in
    let passes = (length ref / n) % 2 ^ 32 in
    if (length ref == 0) || ((n == 0) || not ((length ref % n) == 0))
    then none
    else if ltb passes 1
    then none
    else if not (is_periodic n ref 0 ref)
    then none
    else if is_permutation n n ref (replicate n false)
    then some (n, passes)
    else none

unfoldable pub cyclic_floor : (n passes k : ℕ) → ℕ
cyclic_floor n passes k = n + (passes - 1) * (if ltb k n then n - k else 0)

-- `check_cyclic_floor_or_abort`: whether the string is a cyclic scan.
unfoldable pub check_cyclic_floor_or_abort : List ℕ → (capacity misses : ℕ) → Result Bool
check_cyclic_floor_or_abort ref capacity misses = elim (detect_cyclic_scan ref) [
  | none ↦ ok false
  | some (n, passes) ↦ do
    guard (not (ltb misses (cyclic_floor n passes capacity))) Result.below_floor
    ok true
]
