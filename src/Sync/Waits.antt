-- ===== src/Sync/Waits.antt =====
-- What others may do while `handle_absent` waits for its bytes, src/pager.c.
use residctl.Prelude.{
  ◌≤◌, zero, suc, ℕ, ◌^◌, ◌<◌, ◌≡◌, ◌∙◌, ap, inl, inr, Bool, true, false, not, ◌||◌, some, arith,
  get_elem?, if◌then◌else◌, Bool-cases, ltb,
}
use residctl.Result.{Result, ok, abort, ◌>>=◌}
use residctl.State.{Chunk, Region}
use residctl.Kernel.{Kernel}
use residctl.Retain.{entries}
use residctl.Policy.Scan.{evictable}
use residctl.Fetch.Reads.{IsInFile}
use residctl.Budget.{ensure_budget}
use residctl.Budget.Accounts.{NotIn, Held-NotIn, Inv}
use residctl.Budget.Frame.{Frame}
use residctl.Budget.Ensure.{Ensured, ensure_budget-Ensured}
use residctl.Pool.{is_absent}
use residctl.Worker.{is_fetching, retry}
use residctl.System.Owners.{fetching-evictable}
use residctl.Budget.Steps.{IsKernelFault}
use residctl.System.Prefetches.{absent-resident}
use residctl.Sync.{reserve_fault}

-- Every chunk lies in the file, and an absent one has no pin.
abbrev pub Fetchable : Region → Type 0
Fetchable r =
    (i : ℕ) (c : Chunk)
    → get_elem? r.chunks i ≡ some c
    → (c.len < 2 ^ 62) × IsInFile r c × (is_absent c.state ≡ true → c.pin ≡ 0)

-- Evictions keep that.
Fetchable-Frame : (r s : Region) → Frame r s → Inv r → Inv s → Fetchable r → Fetchable s
Fetchable-Frame r s f v w h i d got =
    let (c, before, shape, pin) = f.from i d got in
    let (small, within, free) = h i c before in
    (
      ground (arith, small, shape),
      record {
        identity = ground (arith, within.identity, shape);
        small = ground (arith, within.small, shape);
        some_bytes = ground (arith, within.some_bytes, shape);
        starts_inside = rw (ap (λ t. t.model_file_size) f.settings, shape.1) within.starts_inside;
      },
      λ away. elim pin [
        | inl none_left ↦ none_left
        | inr (same, back) ↦
            let out =
              Held-NotIn s.chunks (entries s.pinned) i d w.retained.held got
                (inl (absent-resident d away)) in
            elim (Bool-cases (evictable c)) [
              | inl fit ↦ same ∙ unpinned c fit
              | inr busy ↦
                  let kept = f.kept i c before busy (back out) in
                  let is_d : c ≡ d = ground arith in same ∙ free (rw is_d away)
            ]
      ],
    )
  where
    unpinned : (c : Chunk) → evictable c ≡ true → c.pin ≡ 0
    unpinned c fit = ground arith

-- What the other threads may do around the chunk while its handler sleeps: it stays as it is if it is in
-- flight outside the retention queue, and the chunks stay in the file, the absent ones with no pin.
pub record Around (idx : ℕ) (r r' : Region) : Type 0 where
  pub kept :
      (c : Chunk)
      → get_elem? r.chunks idx ≡ some c
      → is_fetching c.state ≡ true
      → NotIn idx (entries r.pinned)
      → (get_elem? r'.chunks idx ≡ some c) × NotIn idx (entries r'.pinned)
  pub chunks : Fetchable r → Fetchable r'

Around-refl : (idx : ℕ) (r : Region) → Around idx r r
Around-refl idx r = record { kept = λ c got e out. (got, out); chunks = λ h. h }

Around-trans : (idx : ℕ) (r s t : Region) → Around idx r s → Around idx s t → Around idx r t
Around-trans idx r s t f g = record {
  kept = λ c got e out. let (got', out') = f.kept c got e out in g.kept c got' e out';
  chunks = λ h. g.chunks (f.chunks h);
}

-- Evictions do no more.
Around-Frame : (idx : ℕ) (r s : Region) → Frame r s → Inv r → Inv s → Around idx r s
Around-Frame idx r s f v w = record {
  kept = λ c got e out. (f.kept idx c got (fetching-evictable c e) out, f.queue idx out);
  chunks = λ h. Fetchable-Frame r s f v w h;
}

-- The other threads keep the region sound, and do no more around the chunk.
abbrev pub AreCalm : ℕ → (ℕ → Region → Region) → Type 0
AreCalm idx sleep_others =
    (n : ℕ) (r : Region) → Inv r → Inv (sleep_others n r) × Around idx r (sleep_others n r)

-- The outcome of the tries for the bytes.
abbrev pub Obtained : ℕ → Region → ℕ → Result (Bool × Region) → Type 0
Obtained idx r need (abort x) = IsKernelFault x
Obtained idx r need (ok (true, r')) = Inv r' × Around idx r r' × (need ≤ r'.reserved_bytes)
Obtained idx r need (ok (false, r')) = Inv r' × Around idx r r'

Obtained-trans :
    (idx : ℕ) (r s : Region) (need : ℕ)
    → Around idx r s
    → (o : Result (Bool × Region)) → Obtained idx s need o
    → Obtained idx r need o
Obtained-trans idx r s need f (abort x) h = h
Obtained-trans idx r s need f (ok (true, t)) (v, g, enough) =
    (v, Around-trans idx r s t f g, enough)
Obtained-trans idx r s need f (ok (false, t)) (v, g) = (v, Around-trans idx r s t f g)

-- One call of `ensure_budget`, and what is done if it refuses.
then_Obtained :
    (idx : ℕ) (r : Region) (need : ℕ) (rest : Region → Result (Bool × Region)) (once : Bool)
    → Inv r
    → ((t : Region) → Inv t → Obtained idx t need (rest t))
    → (o : Result (Bool × Region)) → Ensured r need o
    → Obtained idx r need (do (granted, t) ← o; if granted || once then ok (granted, t) else rest t)
then_Obtained idx r need rest once v next (abort x) fault = fault
then_Obtained idx r need rest once v next (ok (true, t)) ((w, f), exact) =
    (w, Around-Frame idx r t f v w, omega (arith, exact))
then_Obtained idx r need rest true v next (ok (false, t)) ((w, f), _, _, _, _) =
    (w, Around-Frame idx r t f v w)
then_Obtained idx r need rest false v next (ok (false, t)) ((w, f), _, _, _, _) =
    Obtained-trans idx r t need (Around-Frame idx r t f v w) (rest t) (next t w)

retry-Obtained :
    (k : Kernel) (sleep_others : ℕ → Region → Region) (idx need attempts : ℕ) (r : Region)
    → AreCalm idx sleep_others
    → need < 2 ^ 62
    → Inv r
    → Obtained idx r need (retry k sleep_others need attempts r)
unfolding retry
retry-Obtained k sleep_others idx need zero r calm small v = (v, Around-refl idx r)
retry-Obtained k sleep_others idx need (suc attempts) r calm small v =
    let (w, f) = calm attempts r v in
    Obtained-trans idx r (sleep_others attempts r) need f _ (
      again (sleep_others attempts r) (ensure_budget k (sleep_others attempts r) need) (
        then_Obtained idx (sleep_others attempts r) need (retry k sleep_others need attempts) false
          w (λ t u. retry-Obtained k sleep_others idx need attempts t calm small u)
          (ensure_budget k (sleep_others attempts r) need)
          (ensure_budget-Ensured k (sleep_others attempts r) need small w)))
  where
    again :
        (s : Region) (o : Result (Bool × Region))
        → Obtained idx s need (do
          (granted, t) ← o
          if granted || false then ok (granted, t) else retry k sleep_others need attempts t)
        → Obtained idx s need (do
          (granted, t) ← o
          if granted then ok (true, t) else retry k sleep_others need attempts t)
    again s (abort x) h = h
    again s (ok (true, t)) h = h
    again s (ok (false, t)) h = h

pub reserve_fault-Obtained :
    (k : Kernel) (sleep_others : ℕ → Region → Region) (idx need : ℕ) (r : Region)
    → AreCalm idx sleep_others
    → need < 2 ^ 62
    → Inv r
    → Obtained idx r need (reserve_fault k sleep_others need r)
unfolding reserve_fault
reserve_fault-Obtained k sleep_others idx need r calm small v =
    then_Obtained idx r need (retry k sleep_others need 200) (not (ltb 1 r.prefetch_depth)) v
      (λ t w. retry-Obtained k sleep_others idx need 200 t calm small w) (ensure_budget k r need)
      (ensure_budget-Ensured k r need small v)
