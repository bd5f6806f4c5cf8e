-- ===== src/Prefetch/Edits.antt =====
-- The steps of a prefetch as edits of one chunk.
use residctl.Prelude.{
  ℕ, ◌+◌, ◌≡◌, ◌∙◌, ap, some, add32, sub32, add64, get_elem?, set, if◌then◌else◌,
}
use residctl.State.{Chunk, ChunkState, Region}
use residctl.Kernel.{Kernel}
use residctl.Retain.{pin_at, prefetch_retain_on_resident}
use residctl.Budget.{pin_chunk, unpin_chunk, commit_reserved}
use residctl.Worker.{enter, update, abandon_fetch, count_fetched, tick}
use residctl.Worker.Settle.{update_again, update_eq, unpin_eq, settled}
use residctl.Prefetch.{
  start_prefetch, drop_prefetch, settle_prefetch, count_prefetch, count_prefetch_infeasible,
}

-- The chunk in flight for a prefetch, from the clock's reading `since` on.
abbrev pub flying_from : ℕ → ℕ → Chunk → Chunk
flying_from since seq c = record c {
  state = ChunkState.fetching;
  fetching_since_ns = since;
  last_fault_seq = seq;
  pin = add32 c.pin 1;
}

pub start_prefetch_eq :
    (k : Kernel) (idx : ℕ) (r : Region) (c : Chunk)
    → get_elem? r.chunks idx ≡ some c
    → start_prefetch k idx r ≡ record r {
      chunks = set r.chunks idx (flying_from (k.clock r.clock_reads) (add64 r.fault_seq 1) c);
      fault_seq = add64 r.fault_seq 1;
      clock_reads = r.clock_reads + 1;
    }
unfolding start_prefetch pin_chunk
start_prefetch_eq k idx r c got =
    rw (got, pin_at)
      (update_again (record r { fault_seq = add64 r.fault_seq 1; clock_reads = r.clock_reads + 1 })
        idx c (record c { pin = add32 c.pin 1 }) _ got)

-- The chunk of a prefetch that was dropped.
abbrev pub dropped_until : ℕ → Chunk → Chunk
dropped_until until c = record (enter ChunkState.absent 0 c) {
  pin = sub32 c.pin 1;
  decline_until_ns = until;
}

pub drop_prefetch_eq :
    (k : Kernel) (idx : ℕ) (r : Region) (c : Chunk)
    → get_elem? r.chunks idx ≡ some c
    → drop_prefetch k r idx ≡ record (count_prefetch_infeasible r) {
      chunks = set r.chunks idx (dropped_until (add64 (k.clock r.clock_reads) 100000000) c);
      clock_reads = r.clock_reads + 1;
    }
unfolding drop_prefetch abandon_fetch
drop_prefetch_eq k idx r c got =
    let until = add64 (k.clock r.clock_reads) 100000000 in
    let free = record c { pin = sub32 c.pin 1 } in
    let f : Chunk → Chunk = λ x. record x { decline_until_ns = until } in
    let back : (Region → Region) = λ x. count_prefetch_infeasible (update (tick x) idx f) in
    ap
      (λ x. count_prefetch_infeasible (
        update (tick (update x idx (enter ChunkState.absent 0))) idx
          (λ d. record d { decline_until_ns = add64 (k.clock x.clock_reads) 100000000 })))
      (unpin_eq r idx c got)
    ∙ ap back (update_again r idx c free (enter ChunkState.absent 0) got)
    ∙ ap count_prefetch_infeasible
        (update_again (tick r) idx c (enter ChunkState.absent 0 free) f got)

-- The region once a prefetched chunk is resident, before it is retained or unpinned.
abbrev pub stored : Region → ℕ → Chunk → Region
stored r idx c =
    settled r idx c c.pin (record (r.stats) { bytes_fetched = add64 r.stats.bytes_fetched c.len })
      r.clock_reads

pub settle_prefetch_eq :
    (r : Region) (idx : ℕ) (c : Chunk)
    → get_elem? r.chunks idx ≡ some c
    → settle_prefetch r idx c
      ≡ count_prefetch (
          if r.prefetch_retention_pinned
          then prefetch_retain_on_resident (stored r idx c) idx
          else unpin_chunk (stored r idx c) idx)
unfolding settle_prefetch commit_reserved
settle_prefetch_eq r idx c got =
    ap
      (λ x. count_prefetch (
        if r.prefetch_retention_pinned
        then prefetch_retain_on_resident (count_fetched x c.len) idx
        else unpin_chunk (count_fetched x c.len) idx))
      (update_eq (commit_reserved r c.len) idx c (enter ChunkState.resident 0) got)
