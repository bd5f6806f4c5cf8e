-- ===== src/System/Sending.antt =====
-- A chunk that the dispatcher sends to the pool, src/pager.c.
use residctl.Prelude.{
  ℕ, ◌+◌, ◌≡◌, ◌≢◌, sym, ◌∙◌, ap, none, some, List, [], ◌∷◌, ◌++◌, get_elem?, set, inl, inr, add64,
}
use residctl.State.{Chunk, ChunkState, Region}
use residctl.Kernel.{Kernel}
use residctl.Policy.{on_fault}
use residctl.Budget.Accounts.{NotIn}
use residctl.Budget.Rounds.{In}
use residctl.Budget.Retains.{NotIn-append}
use residctl.Worker.{take_off, tick, update}
use residctl.Worker.Settle.{update_eq, update_again}
use residctl.Pager.{stamp, tell_policy}
use residctl.System.Owners.{Distinct}

pub NotIn-of_not : (i : ℕ) (es : List ℕ) → (In i es → ⊥) → NotIn i es
NotIn-of_not i [] out = tt
NotIn-of_not i (e ∷ es) out = (λ same. out (inl same), NotIn-of_not i es (λ later. out (inr later)))

pub In-of_append : (i j : ℕ) (es : List ℕ) → j ≢ i → In j (es ++ (i ∷ [])) → In j es
In-of_append i j [] apart (inl same) = absurd (apart same)
In-of_append i j [] apart (inr later) = elim later [ ]
In-of_append i j (e ∷ es) apart (inl same) = inl same
In-of_append i j (e ∷ es) apart (inr later) = inr (In-of_append i j es apart later)

pub Distinct-append : (i : ℕ) (es : List ℕ) → Distinct es → NotIn i es → Distinct (es ++ (i ∷ []))
Distinct-append i [] d n = (tt, tt)
Distinct-append i (e ∷ es) (fresh, d) (ne, n) =
    (NotIn-append e i es fresh (λ same. ne (sym same)), Distinct-append i es d n)

-- The chunk that the dispatcher has put in flight.
abbrev pub dispatched : Kernel → Region → Chunk → Chunk
dispatched k r c = stamp (k.clock r.clock_reads) (k.clock (r.clock_reads + 1)) (record c {
  state = ChunkState.fetching;
  fetching_since_ns = k.clock r.clock_reads;
  last_fault_seq = add64 r.fault_seq 1;
})

-- The last step of `handle_absent_dispatch`, from the region where the chunk is in flight.
abbrev pub stamped : Kernel → ℕ → ℕ → Region → Region
stamped k idx entry x =
    let r' = tell_policy x idx in update (tick r') idx (stamp entry (k.clock r'.clock_reads))

pub dispatch_eq :
    (k : Kernel) (idx : ℕ) (r : Region) (c : Chunk)
    → get_elem? r.chunks idx ≡ some c
    → stamped k idx (k.clock r.clock_reads) (take_off (tick r) idx (k.clock r.clock_reads))
      ≡ record r {
        chunks = set r.chunks idx (dispatched k r c);
        fault_seq = add64 r.fault_seq 1;
        clock_reads = r.clock_reads + 1 + 1;
        policy = elim r.policy [ none ↦ none | some policy ↦ some (on_fault policy idx) ];
      }
dispatch_eq k idx r c got =
    let now = k.clock r.clock_reads in
    let seq = add64 r.fault_seq 1 in
    let flying = record c {
      state = ChunkState.fetching;
      fetching_since_ns = now;
      last_fault_seq = seq;
    } in
    ap (stamped k idx now) (update_eq (record (tick r) { fault_seq = seq }) idx c _ got)
    ∙ update_again (tick (tell_policy (record (tick r) { fault_seq = seq }) idx)) idx c flying
        (stamp now (k.clock (r.clock_reads + 1))) got
