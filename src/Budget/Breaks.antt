-- ===== src/Budget/Breaks.antt =====
-- What breaking the pin of a prefetched chunk changes and keeps.
use residctl.Prelude.{
  ==_iff, ◌≢◌, ℕ, ◌+◌, ◌≡◌, refl, sym, ◌∙◌, inl, inr, true, List, [], ◌∷◌, some, arith, add64, ◌==◌,
  get_elem?, set, sub32, get_elem?-set_self, get_elem?-set_ne, get_elem?-lt, length-set, Bool-cases,
}
use residctl.State.{Chunk, Region, PinnedQueue, Stats}
use residctl.Policy.Scan.{evictable}
use residctl.Retain.{entries, find_entry, remove_entry, unpin_at, prefetch_retain_release}
use residctl.Retain.Ring.{IsRing}
use residctl.Retain.Refines.{remove_first, prefetch_retain_release_refines}
use residctl.Budget.{break_pin}
use residctl.Budget.Accounts.{
  resident_count, resident_sum-set, resident_count-set, NotIn, Held-set, Held-remove_first,
  NotIn-remove_first, Inv,
}
use residctl.Budget.Rounds.{EvictableAt, HeldAt, In}
use residctl.Budget.Frame.{set-ComesFrom, Frame}

In-NotIn : (i j : ℕ) (es : List ℕ) → In i es → NotIn j es → i ≡ j → ⊥
In-NotIn i j [] inside n same = elim inside [ ]
In-NotIn i j (e ∷ es) (inl here) (ne, n) same = ne (sym same ∙ here)
In-NotIn i j (e ∷ es) (inr later) (ne, n) same = In-NotIn i j es later n same

pub In-found : (i : ℕ) (es : List ℕ) (s : ℕ) → In i es → (k : ℕ) × (find_entry i es s ≡ some k)
unfolding find_entry
In-found i [] s inside = elim inside [ ]
In-found i (e ∷ es) s inside = elim (Bool-cases (e == i)) [
  | inl hit ↦ (s, rw hit)
  | inr miss ↦ elim inside [
    | inl same ↦ absurd (ground arith)
    | inr later ↦ let (k, found) = In-found i es (s + 1) later in (k, rw miss found)
  ]
]

NotIn-of_remove_first : (i j : ℕ) (es : List ℕ) → i ≢ j → NotIn j (remove_first i es) → NotIn j es
NotIn-of_remove_first i j [] apart n = tt
NotIn-of_remove_first i j (e ∷ es) apart n = elim (Bool-cases (e == i)) [
  | inl hit ↦
      let same : e ≡ i = (==_iff e i).0 hit in ((λ here. apart (sym (here ∙ same))), rw hit at n)
  | inr miss ↦ let (ne, rest) = rw miss at n in (ne, NotIn-of_remove_first i j es apart rest)
]

-- `r` with the chunks and the queue given.
abbrev pub with_queue : Region → List Chunk → PinnedQueue → Region
with_queue r chunks q = record r { chunks = chunks; pinned = q }

pub release_eq :
    (r : Region) (i pos : ℕ) (c : Chunk)
    → find_entry i (entries r.pinned) 0 ≡ some pos
    → get_elem? r.chunks i ≡ some c
    → prefetch_retain_release r i
      ≡ with_queue r (set r.chunks i (record c { pin = sub32 c.pin 1 })) (remove_entry r.pinned pos)
unfolding prefetch_retain_release
release_eq r i pos c found got = rw (found, prefetch_retain_release) (rw (got, unpin_at))

break_pin_eq :
    (r : Region) (i pos : ℕ) (c : Chunk)
    → find_entry i (entries r.pinned) 0 ≡ some pos
    → get_elem? r.chunks i ≡ some c
    → break_pin r i
      ≡ record (with_queue r
          (set r.chunks i (record c { pin = sub32 c.pin 1 }))
          (remove_entry r.pinned pos)) {
            stats = record (r.stats) { pin_broken = add64 r.stats.pin_broken 1 };
          }
unfolding break_pin
break_pin_eq r i pos c found got = rw (release_eq r i pos c found got)

-- An entry's pin ends: the queue `q` is the old one without chunk `i`, which has no pin any more.
pub freed_keeps :
    (r : Region) (i : ℕ) (c : Chunk) (q : PinnedQueue) (t : Stats)
    → get_elem? r.chunks i ≡ some c
    → c.pin ≡ 1
    → In i (entries r.pinned)
    → IsRing q
    → entries q ≡ remove_first i (entries r.pinned)
    → Inv r
    → let r' = record (with_queue r (set r.chunks i (record c { pin = sub32 c.pin 1 })) q) {
      stats = t;
    } in
      Inv r' × Frame r r'
freed_keeps r i c q t got pin inside ring list v =
    let (held, out) = Held-remove_first r.chunks i (entries r.pinned) v.retained.held in
    let free = record c { pin = sub32 c.pin 1 } in
    let one : free.pin ≡ 0 = omega arith in
    let sum = resident_sum-set r.chunks i c free got in
    (
      record {
        accounted = record {
          resident = omega (arith, sum, v.accounted.resident);
          within = v.accounted.within;
          small = v.accounted.small;
        };
        retained = record { ring = ring; held = rw list (Held-set r.chunks _ i free held out) };
      },
      record {
        settings = refl;
        policy = refl;
        fault_seq = refl;
        clock_reads = refl;
        table = length-set r.chunks i free;
        queue = λ j n. rw list (NotIn-remove_first j i (entries r.pinned) n);
        kept = λ j d got' _ n.
            get_elem?-set_ne r.chunks i j free
              (λ same. In-NotIn i j (entries r.pinned) inside n same)
            ∙ got';
        from =
            set-ComesFrom r _ i c free got (refl, refl, refl) one
              (λ j apart n. NotIn-of_remove_first i j (entries r.pinned) apart (rw list at n));
      },
    )

-- The release of an entry's pin leaves its chunk resident and free.
pub break_pin_keeps :
    (r : Region) (i : ℕ)
    → In i (entries r.pinned)
    → HeldAt r.chunks i
    → Inv r
    → Inv (break_pin r i)
      × Frame r (break_pin r i)
      × (resident_count (break_pin r i).chunks ≡ resident_count r.chunks)
      × ((break_pin r i).reserved_bytes ≡ r.reserved_bytes)
      × EvictableAt (break_pin r i).chunks i
break_pin_keeps r i inside (c, got, res, pin) v =
    let (pos, found) = In-found i (entries r.pinned) 0 inside in
    let freed = release_eq r i pos c found got in
    let (list, ring, _) = rw freed at (prefetch_retain_release_refines r i v.retained.ring) in
    let free = record c { pin = sub32 c.pin 1 } in
    let one : free.pin ≡ 0 = omega arith in
    let fit : evictable free ≡ true = ground arith in
    let count = resident_count-set r.chunks i c free got in
    let (inv, f) = freed_keeps r i c (remove_entry r.pinned pos) _ got pin inside ring list v in
    rw (break_pin_eq r i pos c found got) (
      inv,
      f,
      omega (arith, count),
      refl,
      (free, get_elem?-set_self r.chunks i free (get_elem?-lt r.chunks i got), fit),
    )
