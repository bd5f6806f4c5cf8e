-- ===== src/Sync/Flights.antt =====
-- The chunk in flight for the synchronous handler, src/pager.c.
use residctl.Prelude.{
  ℕ, ◌^◌, ◌≤◌, ◌<◌, ◌≡◌, refl, sym, subst, ◌∙◌, ap, inl, inr, true, some, Option, arith, get_elem?,
  set, add32, add64, get_elem?-set_self, get_elem?-set_ne, get_elem?-lt, ℕ_discrete,
}
use residctl.Result.{Result, ok, abort, ◌>>=◌}
use residctl.State.{Chunk, ChunkState, Region}
use residctl.Kernel.{Kernel}
use residctl.Retain.{entries}
use residctl.Fetch.Reads.{IsPread, IsInFile}
use residctl.Budget.{unpin_chunk}
use residctl.Budget.Accounts.{NotIn, Inv}
use residctl.Pool.{Pool, is_absent}
use residctl.Worker.{settle_demand, enter, abandon_fetch, fetch_and_settle, count_handled}
use residctl.Worker.Settle.{settled, settled-Inv, settle_demand_eq, abandon_eq, Inv-reads}
use residctl.System.Landings.{Settled, fetch_and_settle-Settled}
use residctl.System.Prefetches.{Inv-away}
use residctl.Sync.{prefetch_after, finish_fault}
use residctl.Sync.Landing.{Answered, prefetch_after-Accompanied, ended}
use residctl.Sync.Waits.{Fetchable}

-- A chunk in flight is written: the others stay fetchable, and it is fetchable unless it is absent with a pin.
pub Fetchable-set :
    (r r' : Region) (i : ℕ) (c d : Chunk)
    → get_elem? r.chunks i ≡ some c
    → r'.chunks ≡ set r.chunks i d
    → r'.settings ≡ r.settings
    → (d.len ≡ c.len) × (d.file_off ≡ c.file_off) × (d.region_off ≡ c.region_off)
    → (is_absent d.state ≡ true → d.pin ≡ 0)
    → Fetchable r
    → Fetchable r'
Fetchable-set r r' i c d got edited settings shape free h n e at_n = elim (ℕ_discrete i n) [
  | yes same ↦
      let here : get_elem? r'.chunks n ≡ some d =
        rw (edited, ← same) (get_elem?-set_self r.chunks i d (get_elem?-lt r.chunks i got)) in
      let is_d : d ≡ e = ground arith in rw (← is_d) (moved c d (h i c got) shape free)
  | no apart ↦
      let before : get_elem? r.chunks n ≡ some e =
        sym (get_elem?-set_ne r.chunks i n d apart) ∙ rw edited at at_n in
      let (small, within, empty) = h n e before in
      moved e e (small, within, empty) (refl, refl, refl) empty
]
  where
    moved :
        (c d : Chunk)
        → (c.len < 2 ^ 62) × IsInFile r c × (is_absent c.state ≡ true → c.pin ≡ 0)
        → (d.len ≡ c.len) × (d.file_off ≡ c.file_off) × (d.region_off ≡ c.region_off)
        → (is_absent d.state ≡ true → d.pin ≡ 0)
        → (d.len < 2 ^ 62) × IsInFile r' d × (is_absent d.state ≡ true → d.pin ≡ 0)
    moved c d (small, within, empty) shape free = (
      ground (arith, small, shape),
      record {
        identity = ground (arith, within.identity, shape);
        small = ground (arith, within.small, shape);
        some_bytes = ground (arith, within.some_bytes, shape);
        starts_inside = rw (ap (λ t. t.model_file_size) settings, shape.1) within.starts_inside;
      },
      free,
    )

-- The chunk in flight for the handler.
abbrev pub flown : ℕ → ℕ → Chunk → Chunk
flown since seq c = record c {
  state = ChunkState.fetching;
  fetching_since_ns = since;
  last_fault_seq = seq;
}

module _ (k : Kernel) (idx : ℕ) (c : Chunk) (reads : IsPread k) (since seq : ℕ)
    (free : c.pin ≡ 0) where
  abbrev d : Chunk
  d = flown since seq c

  abbrev j : Chunk
  j = record (enter ChunkState.resident 0 d) { pin = add32 d.pin 1 }

  -- From the region where the chunk is in flight and its bytes are reserved.
  pub finish_fault-Answered :
      (r : Region) (p : Option Pool)
      → get_elem? r.chunks idx ≡ some d
      → c.len ≤ r.reserved_bytes
      → NotIn idx (entries r.pinned)
      → Fetchable r
      → Inv r
      → Answered idx (finish_fault k idx c (r, p))
  unfolding finish_fault settle_demand
  finish_fault-Answered r p got enough out chunks v =
      after (fetch_and_settle k idx c r) (fetch_and_settle-Settled k r idx c reads within)
    where
      within : IsInFile r c
      within =
          let at_d = (chunks idx d got).1 in
          record {
            identity = at_d.identity;
            small = at_d.small;
            some_bytes = at_d.some_bytes;
            starts_inside = at_d.starts_inside;
          }

      one : j.pin ≡ 1
      one = omega (arith, free)

      after :
          (o : Result Region)
          → Settled r idx c o
          → Answered idx (do
            r' ← o
            (r'', p') ← prefetch_after k idx (r', p)
            ok (count_handled (unpin_chunk r'' idx), p'))
      after (abort x) fault = inl (inr fault)
      after (ok r') (n, m, is_r) =
          let fetched = record r { preads = n; continues = m } in
          let edited = is_r ∙ settle_demand_eq fetched idx d got in
          let s =
            settled fetched idx d (add32 d.pin 1)
              (record (r.stats) { bytes_fetched = add64 r.stats.bytes_fetched c.len })
              r.clock_reads in
          let sound =
            settled-Inv fetched idx d (add32 d.pin 1) s.stats r.clock_reads got refl enough
              (Inv-reads r n m v) in
          let here = get_elem?-set_self r.chunks idx j (get_elem?-lt r.chunks idx got) in
          let around =
            Fetchable-set r s idx d j got refl refl (refl, refl, refl)
              (λ away. absurd (ground arith)) chunks in
          subst
            (λ x. Answered idx (do
              (r'', p') ← prefetch_after k idx (x, p)
              ok (count_handled (unpin_chunk r'' idx), p')))
            (sym edited)
            (ended k idx j reads one refl (prefetch_after k idx (s, p))
              (prefetch_after-Accompanied k idx j reads one s p around (sound, here, out)))

  pub abandoned-Answered :
      (r : Region) (p : Option Pool)
      → get_elem? r.chunks idx ≡ some d
      → Inv r
      → Answered idx (ok (abandon_fetch r idx, p))
  abandoned-Answered r p got v =
      let gone = enter ChunkState.absent 0 d in
      subst (λ x. Answered idx (ok (x, p))) (sym (abandon_eq r idx d got))
        (
          Inv-away r idx d gone r.fault_seq r.clock_reads r.stats got refl refl v,
          (
            gone,
            get_elem?-set_self r.chunks idx gone (get_elem?-lt r.chunks idx got),
            inr refl,
            free,
          ),
        )
