-- ===== src/Belady/LookUp.antt =====
-- One reference of `belady_simulate`, src/belady.c.
use residctl.Prelude.{
  true-ne-false, ℕ, suc, ◌+◌, ◌==◌, ◌≡◌, ◌≢◌, ◌≤◌, ◌<◌, refl, sym, ap, subst, ◌∙◌, inl, inr, true,
  false, List, ◌∷◌, arith, if◌then◌else◌, length, get_or, set, ltb, ℕ_discrete, if-cases,
  length-set, get_or-set_self, get_or-set_ne,
}
use residctl.Belady.{Solver, evict_farthest, enlist, look_up}
use residctl.Belady.Entries.{Holds}
use residctl.Belady.Heap.{heap_push-IsHeap, heap_push-Holds}
use residctl.Belady.Sets.{In, remove, In-remove, length-remove}
use residctl.Belady.Evict.{IsSolver, Any, entry, flag-lt, evict_farthest-IsEvicted}

-- The new entry of a chunk of the cache is its live one.
enlist-IsSolver :
    (n : ℕ) (next : ℕ → ℕ) (cached : List ℕ) (s : Solver) (x : ℕ)
    → IsSolver n (λ c. c ≢ x) next cached s
    → In x cached
    → IsSolver n Any next cached (enlist x (next x) s)
unfolding enlist
enlist-IsSolver n next cached s x i got = record {
  order = heap_push-IsHeap s.heap (next x) x i.order;
  priorities = length-set s.current_priority x (next x) ∙ i.priorities;
  flags = i.flags;
  members = i.members;
  distinct = i.distinct;
  size = i.size;
  prio = λ c there any. elim (ℕ_discrete x c) [
    | yes same ↦
        subst (λ k. get_or (set s.current_priority x (next x)) k 0 ≡ next k) same
          (get_or-set_self s.current_priority x (next x) 0 inside)
    | no ne ↦ get_or-set_ne s.current_priority x c (next x) 0 ne ∙ i.prio c there (λ e. ne (sym e))
  ];
  live = λ c there any.
      (heap_push-Holds s.heap (next x) x (entry (next c) c)).1 (elim (ℕ_discrete x c) [
        | yes same ↦ inr (ap (λ k. entry (next k) k) same)
        | no ne ↦ inl (i.live c there (λ e. ne (sym e)))
      ]);
}
  where
    inside : x < length s.current_priority
    inside = omega (arith, flag-lt s.in_cache x ((i.members x).0 got), i.flags, i.priorities)

-- A chunk comes into the cache.
joined-IsSolver :
    (n : ℕ) (next : ℕ → ℕ) (cached : List ℕ) (s : Solver) (x : ℕ)
    → IsSolver n Any next cached s
    → x < n
    → (In x cached → ⊥)
    → IsSolver n
        (λ c. c ≢ x)
        next
        (x ∷ cached)
        (record s { in_cache = set s.in_cache x true; cache_size = s.cache_size + 1 })
joined-IsSolver n next cached s x i low out = record {
  order = i.order;
  priorities = i.priorities;
  flags = length-set s.in_cache x true ∙ i.flags;
  members = λ c. (to c, from c);
  distinct = (out, i.distinct);
  size = omega (arith, i.size);
  prio = λ c there ne. elim there [ inl same ↦ absurd (ne (sym same)) | inr old ↦ i.prio c old tt ];
  live = λ c there ne. elim there [ inl same ↦ absurd (ne (sym same)) | inr old ↦ i.live c old tt ];
}
  where
    on : get_or (set s.in_cache x true) x false ≡ true
    on = get_or-set_self s.in_cache x true false (omega (arith, low, i.flags))

    to : (c : ℕ) → In c (x ∷ cached) → get_or (set s.in_cache x true) c false ≡ true
    to c (inl same) = subst (λ k. get_or (set s.in_cache x true) k false ≡ true) same on
    to c (inr old) = elim (ℕ_discrete x c) [
      | yes same ↦ subst (λ k. get_or (set s.in_cache x true) k false ≡ true) same on
      | no ne ↦ get_or-set_ne s.in_cache x c true false ne ∙ (i.members c).0 old
    ]

    from : (c : ℕ) → get_or (set s.in_cache x true) c false ≡ true → In c (x ∷ cached)
    from c e = elim (ℕ_discrete x c) [
      | yes same ↦ inl same
      | no ne ↦ inr ((i.members c).1 (sym (get_or-set_ne s.in_cache x c true false ne) ∙ e))
    ]

-- The next uses of the other chunks are the same behind a reference.
pub later-IsSolver :
    (n : ℕ) (P Q : ℕ → Type 0) (next next' : ℕ → ℕ) (cached : List ℕ) (s : Solver) (m : ℕ)
    (ptrs : List ℕ)
    → IsSolver n P next cached s
    → ((c : ℕ) → In c cached → Q c → P c × (next c ≡ next' c))
    → IsSolver n Q next' cached (record s { misses = m; read_ptr = ptrs })
later-IsSolver n P Q next next' cached s m ptrs i same = record {
  order = i.order;
  priorities = i.priorities;
  flags = i.flags;
  members = i.members;
  distinct = i.distinct;
  size = i.size;
  prio = λ c got q. let (p, e) = same c got q in i.prio c got p ∙ e;
  live = λ c got q.
      let (p, e) = same c got q in subst (λ k. Holds s.heap (entry k c)) e (i.live c got p);
}

-- The cache behind a reference to `x`, and the misses.
pub data IsReferred (n : ℕ) (next : ℕ → ℕ) (capacity x : ℕ) (cached : List ℕ) (s s' : Solver)
    : Type 0 where
  hit :
      In x cached
      → IsSolver n Any next cached s'
      → s'.misses ≡ s.misses
      → s'.read_ptr ≡ s.read_ptr
      → IsReferred n next capacity x cached s s'
  filled :
      (In x cached → ⊥)
      → length cached < capacity
      → IsSolver n Any next (x ∷ cached) s'
      → s'.misses ≡ suc s.misses
      → s'.read_ptr ≡ s.read_ptr
      → IsReferred n next capacity x cached s s'
  replaced :
      (v : ℕ)
      → (In x cached → ⊥)
      → length cached ≡ capacity
      → In v cached
      → ((c : ℕ) → In c cached → next c ≤ next v)
      → IsSolver n Any next (x ∷ remove v cached) s'
      → s'.misses ≡ suc s.misses
      → s'.read_ptr ≡ s.read_ptr
      → IsReferred n next capacity x cached s s'

pub look_up-IsReferred :
    (n : ℕ) (next next' : ℕ → ℕ) (capacity x : ℕ) (cached : List ℕ) (s : Solver)
    → IsSolver n Any next cached s
    → ((c : ℕ) → c ≢ x → next c ≡ next' c)
    → x < n
    → 0 < capacity
    → length cached ≤ capacity
    → IsReferred n next' capacity x cached s (look_up capacity x (next' x) s)
unfolding look_up enlist
look_up-IsReferred n next next' capacity x cached s i same low pos small =
    if-cases (IsReferred n next' capacity x cached s) (get_or s.in_cache x false)
      (λ on.
        let got : In x cached = (i.members x).1 on in
        hit got
          (enlist-IsSolver n next' cached s x
            (later-IsSolver n Any (λ c. c ≢ x) next next' cached s s.misses s.read_ptr i
              (λ c there ne. (tt, same c ne)))
            got)
          refl refl)
      (λ off. missed (λ got. true-ne-false (sym ((i.members x).0 got) ∙ off)))
  where
    short : Solver
    short = record s { misses = s.misses + 1 }

    joined : Solver → Solver
    joined room =
        if ltb room.cache_size capacity
        then enlist x (next' x)
            (record room { in_cache = set room.in_cache x true; cache_size = room.cache_size + 1 })
        else room

    settled :
        (cs : List ℕ) (room : Solver)
        → IsSolver n Any next' cs room
        → (In x cs → ⊥)
        → length cs < capacity
        → IsSolver n Any next' (x ∷ cs) (joined room)
          × ((joined room).misses ≡ room.misses)
          × ((joined room).read_ptr ≡ room.read_ptr)
    settled cs room r out less =
        if-cases
          (λ z.
            IsSolver n Any next' (x ∷ cs) z
            × (z.misses ≡ room.misses)
            × (z.read_ptr ≡ room.read_ptr))
          (ltb room.cache_size capacity)
          (λ _. (
            enlist-IsSolver n next' (x ∷ cs)
                (record room {
                  in_cache = set room.in_cache x true;
                  cache_size = room.cache_size + 1;
                })
                x (joined-IsSolver n next' cs room x r low out) (inl refl),
            refl,
            refl,
          ))
          (λ e. absurd (ground (arith, e, less, r.size)))

    missed :
        (In x cached → ⊥)
        → IsReferred n next' capacity x cached s (
            joined
              (if s.cache_size == capacity then evict_farthest (length s.heap) short else short))
    missed out =
        let other : (c : ℕ) → In c cached → c ≢ x =
          λ c got e. out (subst (λ k. In k cached) e got) in
        let j =
          later-IsSolver n Any Any next next' cached s (s.misses + 1) s.read_ptr i
            (λ c got _. (tt, same c (other c got))) in
        if-cases (λ room. IsReferred n next' capacity x cached s (joined room))
          (s.cache_size == capacity) (λ e. full (ground (arith, e, i.size)) j)
          (λ e.
            let less : length cached < capacity = ground (arith, e, small, i.size) in
            let (k, m, ptrs) = settled cached short j out less in
            let count : (joined short).misses ≡ suc s.misses = omega (arith, m) in
            filled out less k count ptrs)
      where
        full :
            length cached ≡ capacity
            → IsSolver n Any next' cached short
            → IsReferred n next' capacity x cached s (joined (evict_farthest (length s.heap) short))
        full whole j =
            let e =
              evict_farthest-IsEvicted n next' cached (length s.heap) short j
                (omega (arith, whole, pos)) (omega arith) in
            let fewer = length-remove e.victim cached i.distinct e.was in
            let (k, m, ptrs) =
              settled (remove e.victim cached) (evict_farthest (length s.heap) short) e.solver
                (λ got. out ((In-remove x e.victim cached).0 got).0)
                (omega (arith, fewer, whole)) in
            let count : (joined (evict_farthest (length s.heap) short)).misses ≡ suc s.misses =
              omega (arith, m, e.misses) in
            replaced e.victim out whole e.was e.last k count (ptrs ∙ e.read_ptr)
