-- ===== src/Sync/Besides.antt =====
-- The two ends of an inline prefetch, beside the chunk that was just fetched, src/prefetch.c.
use residctl.Prelude.{
  ℕ, ◌+◌, ◌≡◌, ◌≢◌, refl, sym, subst, ◌∙◌, ap, ◌⊎◌, inl, inr, false, some, arith, get_elem?, set,
  add32, sub32, get_elem?-set_ne,
}
use residctl.Result.{Abort, Result, ok, abort, ◌>>=◌}
use residctl.Result
use residctl.State.{Chunk, ChunkState, Region}
use residctl.Kernel.{Kernel}
use residctl.Retain.{entries, pin_at}
use residctl.Policy.Scan.{evictable}
use residctl.Fetch.Reads.{IsPread, IsInFile, IsFetchFault}
use residctl.Budget.{pin_chunk}
use residctl.Budget.Accounts.{NotIn, Inv}
use residctl.Budget.Steps.{IsKernelFault}
use residctl.Worker.{enter, update, abandon_fetch}
use residctl.Worker.Settle.{Inv-reads, unpin_eq, update_again}
use residctl.Prefetch.{drop_inline, fetch_and_retain, settle_prefetch, count_prefetch_infeasible}
use residctl.Prefetch.Edits.{flying_from}
use residctl.System.Prefetches.{Inv-away}
use residctl.System.Stores.{settle_prefetch-Stored, Retained, fetch_and_retain-Retained}

-- The region is sound, and the chunk `just` is as it was, outside the retention queue.
abbrev pub Beside : ℕ → Chunk → Region → Type 0
Beside just j r = Inv r × (get_elem? r.chunks just ≡ some j) × NotIn just (entries r.pinned)

-- What an inline prefetch may end the process for.
abbrev pub IsPrefetchFault : Abort → Type 0
IsPrefetchFault x = (IsKernelFault x ⊎ IsFetchFault x) ⊎ (x ≡ Result.predicted_out_of_range)

abbrev pub Spares : ℕ → Chunk → Region → Result Region → Type 0
Spares just j r (abort x) = IsPrefetchFault x
Spares just j r (ok r') =
    Beside just j r' × (r'.settings ≡ r.settings) × (r'.reserved_bytes ≡ r.reserved_bytes)

pub pin_eq :
    (r : Region) (i : ℕ) (c : Chunk)
    → get_elem? r.chunks i ≡ some c
    → pin_chunk r i ≡ record r { chunks = set r.chunks i (record c { pin = add32 c.pin 1 }) }
unfolding pin_chunk
pin_eq r i c got = rw (got, pin_at)

drop_inline_eq :
    (r : Region) (idx : ℕ) (c : Chunk)
    → get_elem? r.chunks idx ≡ some c
    → drop_inline r idx ≡ record (count_prefetch_infeasible r) {
      chunks = set r.chunks idx (record (enter ChunkState.absent 0 c) { pin = sub32 c.pin 1 });
    }
unfolding drop_inline abandon_fetch
drop_inline_eq r idx c got =
    ap (λ x. count_prefetch_infeasible (update x idx (enter ChunkState.absent 0)))
      (unpin_eq r idx c got)
    ∙ ap count_prefetch_infeasible
        (update_again r idx c (record c { pin = sub32 c.pin 1 }) (enter ChunkState.absent 0) got)

module _ (k : Kernel) (just idx : ℕ) (j c : Chunk) (apart : idx ≢ just) (reads : IsPread k)
    (one : j.pin ≡ 1) (free : c.pin ≡ 0) (r : Region) (within : IsInFile r c) (since seq : ℕ) where
  abbrev up : Chunk
  up = flying_from since seq c

  abbrev single : up.pin ≡ 1
  single = omega (arith, free)

  -- The chunk `idx` is in flight with one pin, beside the chunk `just`.
  pub dropped-Spares :
      (s : Region)
      → get_elem? s.chunks idx ≡ some up
      → s.settings ≡ r.settings
      → s.reserved_bytes ≡ r.reserved_bytes
      → Beside just j s
      → Spares just j r (ok (drop_inline s idx))
  dropped-Spares s kept settings same (w, at_j, out_j) =
      let gone = record (enter ChunkState.absent 0 up) { pin = sub32 up.pin 1 } in
      subst (λ x. Spares just j r (ok x)) (sym (drop_inline_eq s idx up kept))
        (
          (
            Inv-away s idx up gone s.fault_seq s.clock_reads _ kept refl refl w,
            get_elem?-set_ne s.chunks idx just gone apart ∙ at_j,
            out_j,
          ),
          settings,
          same,
        )

  pub stored-Spares :
      (s : Region)
      → get_elem? s.chunks idx ≡ some up
      → s.settings ≡ r.settings
      → s.reserved_bytes ≡ r.reserved_bytes + c.len
      → NotIn idx (entries s.pinned)
      → Beside just j s
      → Spares just j r (fetch_and_retain k idx c s)
  unfolding settle_prefetch
  stored-Spares s kept settings exact out (w, at_j, out_j) =
      after (fetch_and_retain k idx c s) (fetch_and_retain-Retained k s idx c reads inside)
    where
      inside : IsInFile s c
      inside = record {
        identity = within.identity;
        small = within.small;
        some_bytes = within.some_bytes;
        starts_inside = rw (ap (λ t. t.model_file_size) settings) within.starts_inside;
      }

      after : (o : Result Region) → Retained s idx c o → Spares just j r o
      after (abort x) fault = inl (inr fault)
      after (ok r') (n, m, is_r) =
          let fetched = record s { preads = n; continues = m } in
          let end =
            settle_prefetch-Stored fetched idx up kept refl single (omega (arith, exact)) out
              (Inv-reads s n m w) in
          let busy : evictable j ≡ false = ground (arith, one) in
          let (at_j', out_j') = end.moves.stay just j (λ same. apart (sym same)) at_j busy out_j in
          subst (λ x. Spares just j r (ok x)) (sym is_r)
            (
              (end.inv, at_j', out_j'),
              end.configured ∙ settings,
              omega (arith, end.reserved, exact, w.accounted.within, w.accounted.small),
            )
