-- ===== src/Budget/Frame.antt =====
-- What the eviction loops leave alone, and where the chunks of a later state come from.
use residctl.Prelude.{
  List, ℕ_discrete, get_elem?-set_self, get_elem?-lt, ℕ, ◌≡◌, ◌≢◌, refl, sym, ◌∙◌, ◌⊎◌, inl, inr,
  false, some, arith, get_elem?, set, length, get_elem?-set_ne,
}
use residctl.State.{Chunk, Region}
use residctl.Policy.Scan.{evictable}
use residctl.Retain.{entries}
use residctl.Budget.Accounts.{NotIn}

abbrev pub SameShape : Chunk → Chunk → Type 0
SameShape c c' = (c'.len ≡ c.len) × (c'.file_off ≡ c.file_off) × (c'.region_off ≡ c.region_off)

-- Where the chunk `i` of a later state, with the queue `es'`, comes from: its place and length are as before, and so are its pins and its
-- absence from the queue, or it has no pin.
abbrev pub ComesFrom : Region → List ℕ → ℕ → Chunk → Type 0
ComesFrom r es' i c' =
    (c : Chunk) × (get_elem? r.chunks i ≡ some c)
    × SameShape c c'
    × ((c'.pin ≡ 0) ⊎ ((c'.pin ≡ c.pin) × (NotIn i es' → NotIn i (entries r.pinned))))

-- What the eviction loops leave alone: the settings, the policy, the counters of faults and reservations,
-- and every chunk that is not evictable and not in the retention queue.
pub record Frame (r r' : Region) : Type 0 where
  pub settings : r'.settings ≡ r.settings
  pub policy : r'.policy ≡ r.policy
  pub fault_seq : r'.fault_seq ≡ r.fault_seq
  pub clock_reads : r'.clock_reads ≡ r.clock_reads
  pub table : length r'.chunks ≡ length r.chunks
  pub queue : (i : ℕ) → NotIn i (entries r.pinned) → NotIn i (entries r'.pinned)
  pub kept :
      (i : ℕ) (c : Chunk)
      → get_elem? r.chunks i ≡ some c
      → evictable c ≡ false
      → NotIn i (entries r.pinned)
      → get_elem? r'.chunks i ≡ some c
  pub from :
      (i : ℕ) (c' : Chunk) → get_elem? r'.chunks i ≡ some c' → ComesFrom r (entries r'.pinned) i c'

pub Frame-refl : (r : Region) → Frame r r
Frame-refl r = record {
  settings = refl;
  policy = refl;
  fault_seq = refl;
  clock_reads = refl;
  table = refl;
  queue = λ i n. n;
  kept = λ i c got out n. got;
  from = λ i c got. (c, got, (refl, refl, refl), inr (refl, λ n. n));
}

ComesFrom-trans :
    (r s t : Region) (i : ℕ) (c : Chunk)
    → Frame r s
    → ComesFrom s (entries t.pinned) i c
    → ComesFrom r (entries t.pinned) i c
ComesFrom-trans r s t i c f (d, got, shape, here) =
    let (b, before, shape', there) = f.from i d got in
    (b, before, ground (arith, shape, shape'), join b here there)
  where
    join :
        (b : Chunk)
        → ((c.pin ≡ 0)
            ⊎ ((c.pin ≡ d.pin) × (NotIn i (entries t.pinned) → NotIn i (entries s.pinned))))
        → ((d.pin ≡ 0)
            ⊎ ((d.pin ≡ b.pin) × (NotIn i (entries s.pinned) → NotIn i (entries r.pinned))))
        → (c.pin ≡ 0)
          ⊎ ((c.pin ≡ b.pin) × (NotIn i (entries t.pinned) → NotIn i (entries r.pinned)))
    join b (inl none_left) there = inl none_left
    join b (inr (same, n)) (inl none_left) = inl (same ∙ none_left)
    join b (inr (same, n)) (inr (same', n')) = inr (same ∙ same', λ x. n' (n x))

pub Frame-trans : {r s t : Region} → Frame r s → Frame s t → Frame r t
Frame-trans {r} {s} {t} f g = record {
  settings = g.settings ∙ f.settings;
  policy = g.policy ∙ f.policy;
  fault_seq = g.fault_seq ∙ f.fault_seq;
  clock_reads = g.clock_reads ∙ f.clock_reads;
  table = g.table ∙ f.table;
  queue = λ i n. g.queue i (f.queue i n);
  kept = λ i c got out n. g.kept i c (f.kept i c got out n) out (f.queue i n);
  from = λ i c got. ComesFrom-trans r s t i c f (g.from i c got);
}

-- One chunk is replaced by one without a pin, and the queue becomes `es'`.
pub set-ComesFrom :
    (r : Region) (es' : List ℕ) (i : ℕ) (c d : Chunk)
    → get_elem? r.chunks i ≡ some c
    → SameShape c d
    → d.pin ≡ 0
    → ((j : ℕ) → i ≢ j → NotIn j es' → NotIn j (entries r.pinned))
    → (j : ℕ) (e : Chunk) → get_elem? (set r.chunks i d) j ≡ some e
    → ComesFrom r es' j e
set-ComesFrom r es' i c d got shape none_left queue j e got' = elim (ℕ_discrete i j) [
  | yes same ↦
      let here : get_elem? (set r.chunks i d) i ≡ some d =
        get_elem?-set_self r.chunks i d (get_elem?-lt r.chunks i got) in
      let is_d : d ≡ e = ground arith in
      (c, rw same at got, rw is_d at shape, inl (rw is_d at none_left))
  | no apart ↦ (
    e,
    sym (get_elem?-set_ne r.chunks i j d apart) ∙ got',
    (refl, refl, refl),
    inr (refl, queue j apart),
  )
]
