-- ===== src/Sync/Landing.antt =====
-- A fault that the synchronous handler answers leaves its chunk resident or absent, and the region sound,
-- src/pager.c.
use residctl.Prelude.{
  ℕ, ◌≡◌, sym, subst, ◌⊎◌, inl, Bool, true, false, some, none, Option, arith, get_elem?, sub32,
  get_elem?-set_self, get_elem?-lt, if◌then◌else◌, leb,
}
use residctl.Result.{Result, ok, abort, ◌>>=◌}
use residctl.State.{Chunk, ChunkState, Region}
use residctl.Kernel.{Kernel}
use residctl.Fetch.Reads.{IsPread}
use residctl.Budget.{unpin_chunk}
use residctl.Budget.Accounts.{Inv}
use residctl.Pool.{Pool}
use residctl.Worker.{count_handled}
use residctl.Worker.Demand.{top_up-region}
use residctl.Worker.Settle.{unpin_eq}
use residctl.System.Landings.{Inv-pin}
use residctl.Prefetch.{maybe_prefetch}
use residctl.Sync.{prefetch_after, top_up_if_started}
use residctl.Sync.Waits.{Fetchable}
use residctl.Sync.Besides.{Beside, IsPrefetchFault, Spares}
use residctl.Sync.Inline.{maybe_prefetch-Spares}

-- The region is sound, and the chunk is resident or absent with no pin.
abbrev pub Answered : ℕ → Result (Region × Option Pool) → Type 0
Answered idx (abort x) = IsPrefetchFault x
Answered idx (ok (r, p)) =
    Inv r
    × ((c : Chunk) × (get_elem? r.chunks idx ≡ some c)
        × ((c.state ≡ ChunkState.resident) ⊎ (c.state ≡ ChunkState.absent))
        × (c.pin ≡ 0))

-- Until the handler's pin ends, the chunk `j` is beside whatever is prefetched.
abbrev pub Accompanied : ℕ → Chunk → Result (Region × Option Pool) → Type 0
Accompanied idx j (abort x) = IsPrefetchFault x
Accompanied idx j (ok w) = Beside idx j w.0

module _ (k : Kernel) (idx : ℕ) (j : Chunk) (reads : IsPread k) (one : j.pin ≡ 1) where
  ticked :
      (r r' : Region) (n : ℕ) → r' ≡ record r { clock_reads = n } → Beside idx j r → Beside idx j r'
  ticked r r' n e (w, at_j, out) = subst (Beside idx j) (sym e) (sound, at_j, out)
    where
      sound : Inv (record r { clock_reads = n })
      sound = record {
        accounted = record {
          resident = w.accounted.resident;
          within = w.accounted.within;
          small = w.accounted.small;
        };
        retained = record { ring = w.retained.ring; held = w.retained.held };
      }

  topped :
      (r : Region) (p : Option Pool)
      → Beside idx j r
      → Beside idx j (top_up_if_started k idx (r, p)).0
  unfolding top_up_if_started
  topped r none v = v
  topped r (some p) v = let (n, e) = top_up-region k idx r p in ticked r _ n e v

  pub prefetch_after-Accompanied :
      (r : Region) (p : Option Pool)
      → Fetchable r
      → Beside idx j r
      → Accompanied idx j (prefetch_after k idx (r, p))
  unfolding prefetch_after
  prefetch_after-Accompanied r p chunks v = finish r.prefetch_enabled (leb r.prefetch_depth 1)
    where
      inline : (o : Result Region) → Spares idx j r o → Accompanied idx j (o >>= λ r'. ok (r', p))
      inline (abort x) fault = fault
      inline (ok r') (beside, _, _) = beside

      finish :
          (on shallow : Bool)
          → Accompanied idx j (
              if on
              then (if shallow
                  then (maybe_prefetch k idx r >>= λ r'. ok (r', p))
                  else ok (top_up_if_started k idx (r, p)))
              else ok (r, p))
      finish false shallow = v
      finish true false = topped r p v
      finish true true =
          inline (maybe_prefetch k idx r) (maybe_prefetch-Spares k idx j r reads one chunks v)

  pub ended :
      (res : j.state ≡ ChunkState.resident) (o : Result (Region × Option Pool))
      → Accompanied idx j o
      → Answered idx (do (r'', p') ← o; ok (count_handled (unpin_chunk r'' idx), p'))
  ended res (abort x) fault = fault
  ended res (ok (r, p)) (w, at_j, out) =
      let free = record j { pin = sub32 j.pin 1 } in
      let none_left : free.pin ≡ 0 = omega (arith, one) in
      subst (λ x. Answered idx (ok (count_handled x, p))) (sym (unpin_eq r idx j at_j))
        (
          Inv-pin r idx j (sub32 j.pin 1) r.clock_reads _ at_j out w,
          (
            free,
            get_elem?-set_self r.chunks idx free (get_elem?-lt r.chunks idx at_j),
            inl res,
            none_left,
          ),
        )
