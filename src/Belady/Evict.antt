-- ===== src/Belady/Evict.antt =====
-- The eviction of `belady_simulate`, src/belady.c: the entry that is found is of the cached chunk that is used
-- again last.
use residctl.Prelude.{
  true-ne-false, ℕ, zero, suc, ◌-◌, ◌==◌, ◌≡◌, ◌≢◌, ◌≤◌, ◌<◌, refl, sym, ap, ap₂, subst, ◌∙◌, ◌↔◌,
  inl, inr, Bool, true, false, ◌&&◌, List, [], ◌∷◌, arith, length, get_or, set, ℕ_discrete,
  if-cases, length-set, get_or-set_self, get_or-set_ne, ==_iff,
}
use residctl.Belady.{Entry, Heap, Solver, evict_farthest}
use residctl.Belady.Entries.{Holds}
use residctl.Belady.Heap.{IsHeap}
use residctl.Belady.Popped.{IsPopped, heap_pop_max-IsPopped}
use residctl.Belady.Sets.{In, Distinct, remove, In-remove, Distinct-remove, length-remove}

-- The entry of a chunk that is used again at `prio`.
abbrev pub entry : ℕ → ℕ → Entry
entry prio c = record { priority = prio; chunk_id = c }

-- The chunks in the cache are those of a list of distinct chunks. Each of them for which `P` holds has its
-- next use as its priority, and a live entry in the heap.
pub record IsSolver (n : ℕ) (P : ℕ → Type 0) (next : ℕ → ℕ) (cached : List ℕ) (s : Solver)
    : Type 0 where
  pub order : IsHeap s.heap
  pub priorities : length s.current_priority ≡ n
  pub flags : length s.in_cache ≡ n
  pub members : (c : ℕ) → In c cached ↔ (get_or s.in_cache c false ≡ true)
  pub distinct : Distinct cached
  pub size : s.cache_size ≡ length cached
  pub prio : (c : ℕ) → In c cached → P c → get_or s.current_priority c 0 ≡ next c
  pub live : (c : ℕ) → In c cached → P c → Holds s.heap (entry (next c) c)

abbrev pub Any : ℕ → Type 0
Any c = Unit {0}

-- A flag that is set is within the array.
pub flag-lt : (flags : List Bool) (c : ℕ) → get_or flags c false ≡ true → c < length flags
flag-lt [] c on = cc on
flag-lt (b ∷ flags) zero on = omega arith
flag-lt (b ∷ flags) (suc c) on = omega (arith, flag-lt flags c on)

-- The stale entries are popped.
popped-IsSolver :
    (n : ℕ) (next : ℕ → ℕ) (cached : List ℕ) (s : Solver) (top : Entry) (rest : Heap)
    → IsSolver n Any next cached s
    → IsPopped s.heap top rest
    → ((c : ℕ) → In c cached → entry (next c) c ≢ top)
    → IsSolver n Any next cached (record s { heap = rest })
popped-IsSolver n next cached s top rest i p stale = record {
  order = p.order;
  priorities = i.priorities;
  flags = i.flags;
  members = i.members;
  distinct = i.distinct;
  size = i.size;
  prio = i.prio;
  live = λ c got any. elim (p.kept (entry (next c) c) (i.live c got any)) [
    | inl same ↦ absurd (stale c got same)
    | inr there ↦ there
  ];
}

-- The chunk of a live entry leaves the cache.
evicted-IsSolver :
    (n : ℕ) (next : ℕ → ℕ) (cached : List ℕ) (s : Solver) (top : Entry) (rest : Heap)
    → IsSolver n Any next cached s
    → IsPopped s.heap top rest
    → In top.chunk_id cached
    → IsSolver n Any next (remove top.chunk_id cached) (record s {
      heap = rest;
      in_cache = set s.in_cache top.chunk_id false;
      cache_size = s.cache_size - 1;
    })
evicted-IsSolver n next cached s top rest i p got = record {
  order = p.order;
  priorities = i.priorities;
  flags = length-set s.in_cache v false ∙ i.flags;
  members = λ c. (to c, from c);
  distinct = Distinct-remove v cached i.distinct;
  size = omega (arith, i.size, length-remove v cached i.distinct got);
  prio = λ c there any. i.prio c ((In-remove c v cached).0 there).0 any;
  live = λ c there any.
      let (old, ne) = (In-remove c v cached).0 there in
      elim (p.kept (entry (next c) c) (i.live c old any)) [
        | inl same ↦ absurd (ne (ap (λ e. e.chunk_id) same))
        | inr kept ↦ kept
      ];
}
  where
    v : ℕ
    v = top.chunk_id

    inside : v < length s.in_cache
    inside = flag-lt s.in_cache v ((i.members v).0 got)

    to : (c : ℕ) → In c (remove v cached) → get_or (set s.in_cache v false) c false ≡ true
    to c there =
        let (old, ne) = (In-remove c v cached).0 there in
        get_or-set_ne s.in_cache v c false false (λ e. ne (sym e)) ∙ (i.members c).0 old

    from : (c : ℕ) → get_or (set s.in_cache v false) c false ≡ true → In c (remove v cached)
    from c on = elim (ℕ_discrete v c) [
      | yes same ↦
          let off : get_or (set s.in_cache v false) v false ≡ false =
            get_or-set_self s.in_cache v false false inside in
          absurd (
            true-ne-false
              (sym on ∙ subst (λ k. get_or (set s.in_cache v false) k false ≡ false) same off))
      | no ne ↦ (In-remove c v cached).1 (
        (i.members c).1 (sym (get_or-set_ne s.in_cache v c false false ne) ∙ on),
        λ e. ne (sym e),
      )
    ]

-- What an eviction does: the chunk that leaves is one whose next use is no earlier than any other's.
pub record IsEvicted (n : ℕ) (next : ℕ → ℕ) (cached : List ℕ) (s s' : Solver) : Type 0 where
  pub victim : ℕ
  pub was : In victim cached
  pub last : (c : ℕ) → In c cached → next c ≤ next victim
  pub solver : IsSolver n Any next (remove victim cached) s'
  pub misses : s'.misses ≡ s.misses
  pub read_ptr : s'.read_ptr ≡ s.read_ptr

-- The loop finds a victim: with chunks in the cache, it does not run out of entries.
pub evict_farthest-IsEvicted :
    (n : ℕ) (next : ℕ → ℕ) (cached : List ℕ) (fuel : ℕ) (s : Solver)
    → IsSolver n Any next cached s
    → 0 < length cached
    → length s.heap ≤ fuel
    → IsEvicted n next cached s (evict_farthest fuel s)
unfolding evict_farthest
evict_farthest-IsEvicted n next [] fuel s i pos enough = absurd (omega arith)
evict_farthest-IsEvicted n next (c ∷ cached) zero s i pos enough =
    let (k, inside, _) = i.live c (inl refl) tt in absurd (omega (arith, inside, enough))
evict_farthest-IsEvicted n next (c ∷ cached) (suc fuel) s i pos enough =
    let (k, inside, _) = i.live c (inl refl) tt in
    let (top, rest, popped, p) = heap_pop_max-IsPopped s.heap i.order (omega (arith, inside)) in
    let b : Bool =
      get_or s.in_cache top.chunk_id false
      && (get_or s.current_priority top.chunk_id 0 == top.priority) in
    rw (evict_farthest, popped)
      (if-cases (IsEvicted n next (c ∷ cached) s) b
        (λ e.
          let (on, same) =
            both (get_or s.in_cache top.chunk_id false)
              (get_or s.current_priority top.chunk_id 0 == top.priority) e in
          found top rest p on same)
        (λ e. later (
          evict_farthest-IsEvicted n next (c ∷ cached) fuel (record s { heap = rest })
            (popped-IsSolver n next (c ∷ cached) s top rest i p (stale top e)) pos
            (omega (arith, enough, p.size)))))
  where
    both : (a b : Bool) → (a && b) ≡ true → (a ≡ true) × (b ≡ true)
    both true b e = (refl, e)
    both false b e = cc e

    found :
        (top : Entry) (rest : Heap)
        → IsPopped s.heap top rest
        → get_or s.in_cache top.chunk_id false ≡ true
        → (get_or s.current_priority top.chunk_id 0 == top.priority) ≡ true
        → IsEvicted n next (c ∷ cached) s (record s {
          heap = rest;
          in_cache = set s.in_cache top.chunk_id false;
          cache_size = s.cache_size - 1;
        })
    found top rest p on same =
        let v : ℕ = top.chunk_id in
        let got : In v (c ∷ cached) = (i.members v).1 on in
        let value : next v ≡ top.priority =
          sym (i.prio v got tt) ∙ (==_iff (get_or s.current_priority v 0) top.priority).0 same in
        record {
          victim = v;
          was = got;
          last = λ d there. omega (arith, value, p.most (entry (next d) d) (i.live d there tt));
          solver = evicted-IsSolver n next (c ∷ cached) s top rest i p got;
          misses = refl;
          read_ptr = refl;
        }

    stale :
        (top : Entry)
        → (get_or s.in_cache top.chunk_id false
            && (get_or s.current_priority top.chunk_id 0 == top.priority))
          ≡ false
        → (d : ℕ) → In d (c ∷ cached)
        → entry (next d) d ≢ top
    stale top e d got same =
        let chunk : d ≡ top.chunk_id = ap (λ x. x.chunk_id) same in
        let on : get_or s.in_cache top.chunk_id false ≡ true =
          subst (λ k. get_or s.in_cache k false ≡ true) chunk ((i.members d).0 got) in
        let value : get_or s.current_priority top.chunk_id 0 ≡ top.priority =
          subst (λ k. get_or s.current_priority k 0 ≡ next d) chunk (i.prio d got tt)
          ∙ ap (λ x. x.priority) same in
        true-ne-false (
          sym (
            ap₂ (λ a b. a && b) on
              ((==_iff (get_or s.current_priority top.chunk_id 0) top.priority).1 value))
          ∙ e)

    later :
        {rest : Heap} {s' : Solver}
        → IsEvicted n next (c ∷ cached) (record s { heap = rest }) s'
        → IsEvicted n next (c ∷ cached) s s'
    later r = record {
      victim = r.victim;
      was = r.was;
      last = r.last;
      solver = r.solver;
      misses = r.misses;
      read_ptr = r.read_ptr;
    }
