-- ===== src/Prefetch/Landing.antt =====
-- A prefetch by a worker leaves its chunk resident or absent, and the region sound, src/prefetch_pool.c.
use residctl.Prelude.{
  ℕ, ◌+◌, ◌^◌, ◌<◌, ◌≡◌, refl, sym, subst, ap, ◌⊎◌, inl, inr, Bool, true, false, not, some, arith,
  get_elem?, set, add64, get_elem?-set_self, get_elem?-lt, if◌then◌else◌,
}
use residctl.Result.{Abort, Result, ok, abort, ◌>>=◌, ◌>>◌, or_abort, guard}
use residctl.Result
use residctl.State.{Chunk, ChunkState, Region}
use residctl.Kernel.{Kernel}
use residctl.Retain.{entries}
use residctl.Fetch.Reads.{IsPread, IsInFile, IsFetchFault}
use residctl.Budget.{ensure_budget_prefetch}
use residctl.Budget.Accounts.{NotIn, Held-NotIn, Inv}
use residctl.Budget.Frame.{Frame}
use residctl.Budget.Steps.{IsKernelFault}
use residctl.Budget.Admit.{Admitted, ensure_budget_prefetch-Admitted}
use residctl.Pool.{is_absent}
use residctl.Worker.{is_fetching}
use residctl.Worker.Settle.{Inv-reads}
use residctl.Prefetch.{drop_prefetch, fetch_and_retain, settle_prefetch, do_one_prefetch}
use residctl.Prefetch.Edits.{flying_from, start_prefetch_eq, dropped_until, drop_prefetch_eq}
use residctl.System.Owners.{fetching-evictable}
use residctl.System.Prefetches.{Inv-away, absent-resident}
use residctl.System.Stores.{settle_prefetch-Stored, Retained, fetch_and_retain-Retained}

-- The chunk is resident, or absent with no pin; and it has no pin unless it is retained.
abbrev pub Ended : Region → ℕ → Region → Type 0
Ended r idx r' =
    Inv r'
    × (r'.reserved_bytes ≡ r.reserved_bytes)
    × ((c : Chunk) × (get_elem? r'.chunks idx ≡ some c)
        × ((c.state ≡ ChunkState.resident) ⊎ ((c.state ≡ ChunkState.absent) × (c.pin ≡ 0)))
        × (NotIn idx (entries r'.pinned) → c.pin ≡ 0))

abbrev pub Prefetched : Region → ℕ → Result Region → Type 0
Prefetched r idx (abort x) = IsKernelFault x ⊎ IsFetchFault x
Prefetched r idx (ok r') = Ended r idx r'

-- The last test of `do_one_prefetch` passes.
checked_Prefetched :
    (r : Region) (idx : ℕ) (o : Result Region)
    → Prefetched r idx o
    → Prefetched r idx (do
      r'' ← o
      c' ← or_abort (get_elem? r''.chunks idx) Result.out_of_bounds
      guard (not (is_fetching c'.state)) Result.left_fetching
      ok r'')
checked_Prefetched r idx (abort x) h = h
checked_Prefetched r idx (ok r') (inv, same, (c, got, state, free)) =
    let still : is_fetching c.state ≡ false = elim state [
      | inl e ↦ rw e refl
      | inr (e, _) ↦ rw e refl
    ] in
    rw (got, still) (inv, same, (c, got, state, free))

module _ (k : Kernel) (r : Region) (idx : ℕ) (c : Chunk) (got : get_elem? r.chunks idx ≡ some c)
    (away : is_absent c.state ≡ true) (free : c.pin ≡ 0) (small : c.len < 2 ^ 62)
    (reads : IsPread k) (inside : IsInFile r c) (v : Inv r) where
  abbrev up : Chunk
  up = flying_from (k.clock r.clock_reads) (add64 r.fault_seq 1) c

  abbrev off : Region
  off = record r {
    chunks = set r.chunks idx up;
    fault_seq = add64 r.fault_seq 1;
    clock_reads = r.clock_reads + 1;
  }

  here : get_elem? off.chunks idx ≡ some up
  here = get_elem?-set_self r.chunks idx up (get_elem?-lt r.chunks idx got)

  out : NotIn idx (entries r.pinned)
  out =
      Held-NotIn r.chunks (entries r.pinned) idx c v.retained.held got
        (inl (absent-resident c away))

  off-Inv : Inv off
  off-Inv =
      Inv-away r idx c up (add64 r.fault_seq 1) (r.clock_reads + 1) r.stats got
        (absent-resident c away) refl v

  abbrev one : up.pin ≡ 1
  one = omega (arith, free)

  dropped-Ended :
      (s : Region)
      → Inv s
      → Frame off s
      → s.reserved_bytes ≡ r.reserved_bytes
      → Ended r idx (drop_prefetch k s idx)
  dropped-Ended s w f same =
      let kept = f.kept idx up here (fetching-evictable up refl) out in
      let gone = dropped_until (add64 (k.clock s.clock_reads) 100000000) up in
      let none_left : gone.pin ≡ 0 = omega (arith, free) in
      subst (Ended r idx) (sym (drop_prefetch_eq k idx s up kept)) (
        Inv-away s idx up gone s.fault_seq _ _ kept refl refl w,
        same,
        (
          gone,
          get_elem?-set_self s.chunks idx gone (get_elem?-lt s.chunks idx kept),
          inr (refl, none_left),
          λ _. none_left,
        ),
      )

  stored-Prefetched :
      (s : Region)
      → Inv s
      → Frame off s
      → s.reserved_bytes ≡ r.reserved_bytes + c.len
      → Prefetched r idx (fetch_and_retain k idx c s)
  unfolding settle_prefetch
  stored-Prefetched s w f exact =
      let kept = f.kept idx up here (fetching-evictable up refl) out in
      after kept (fetch_and_retain k idx c s) (fetch_and_retain-Retained k s idx c reads within)
    where
      within : IsInFile s c
      within = record {
        identity = inside.identity;
        small = inside.small;
        some_bytes = inside.some_bytes;
        starts_inside = rw (ap (λ t. t.model_file_size) f.settings) inside.starts_inside;
      }

      after :
          get_elem? s.chunks idx ≡ some up
          → (o : Result Region) → Retained s idx c o
          → Prefetched r idx o
      after kept (abort x) fault = inr fault
      after kept (ok r') (n, m, is_r) =
          let fetched = record s { preads = n; continues = m } in
          let end =
            settle_prefetch-Stored fetched idx up kept refl one (omega (arith, exact))
              (f.queue idx out) (Inv-reads s n m w) in
          subst (Ended r idx) (sym is_r) (
            end.inv,
            omega (arith, end.reserved, exact, w.accounted.within, w.accounted.small),
            (end.chunk, end.place, inl end.state, end.free),
          )

  run-Prefetched :
      (o : Result (Bool × Region))
      → Admitted off idx c.len o
      → Prefetched r idx (do
        (granted, r') ← o
        let finished : Result Region = do
          r'' ← fetch_and_retain k idx c r'
          c' ← or_abort (get_elem? r''.chunks idx) Result.out_of_bounds
          guard (not (is_fetching c'.state)) Result.left_fetching
          ok r''
        if granted then finished else ok (drop_prefetch k r' idx))
  run-Prefetched (abort x) fault = inl fault
  run-Prefetched (ok (true, s)) (((w, f), exact), _, _) =
      checked_Prefetched r idx (fetch_and_retain k idx c s) (stored-Prefetched s w f exact)
  run-Prefetched (ok (false, s)) ((w, f), _, _, (same, _, _)) = dropped-Ended s w f same

  -- On a sound region, `do_one_prefetch` of an absent chunk with no pin, inside the file, with a pread that
  -- returns no more than what is wanted, returns with the region sound, the reservations as before and the
  -- chunk no longer in flight: resident, or absent with no pin; resident with a pin only if it is in the
  -- retention queue. Otherwise it ends the process for what the kernel did. Its own last test never fails.
  pub do_one_prefetch-Prefetched : Prefetched r idx (do_one_prefetch k idx r)
  unfolding do_one_prefetch
  do_one_prefetch-Prefetched =
      let admitted = ensure_budget_prefetch-Admitted k off idx up here small off-Inv in
      rw (got, away, start_prefetch_eq k idx r c got)
        (run-Prefetched (ensure_budget_prefetch k off idx) admitted)
