-- ===== src/Worker/Settle.antt =====
-- The chunk of a fetch in flight becomes resident, pinned while its completion asks for prefetches.
use residctl.Prelude.{
  ℕ, zero, suc, ◌≤◌, ◌<◌, ◌≡◌, refl, sym, subst, ◌∙◌, ap, ◌⊎◌, inl, Bool, true, false, List, [],
  ◌∷◌, some, arith, add32, sub32, add64, sub64, uint32_max, if◌then◌else◌, get_elem?, set,
  get_elem?-set_self, get_elem?-lt,
}
use residctl.Result.{Result, ok, abort}
use residctl.State.{Chunk, ChunkState, Region, Stats}
use residctl.Kernel.{Kernel}
use residctl.Policy.Scan.{is_resident}
use residctl.Retain.{entries, pin_at, unpin_at}
use residctl.Budget.{commit_reserved, commit_reserved_and_pin, pin_chunk, unpin_chunk}
use residctl.Budget.Accounts.{weight, resident_sum-set, Held-set, Held-NotIn, Inv}
use residctl.Budget.Steps.{IsKernelFault}
use residctl.Fetch.Reads.{IsFetchFault}
use residctl.Pool.{Pool, top_up}
use residctl.Worker.{
  abandon_fetch, is_fetching, enter, update, count_fetched, count_handled, settle_demand,
  complete_demand,
}
use residctl.Worker.Demand.{top_up-region}

-- Two writes to one place are the second.
pub set-set : (cs : List Chunk) (i : ℕ) (c d : Chunk) → set (set cs i c) i d ≡ set cs i d
set-set [] i c d = refl
set-set (x ∷ cs) zero c d = refl
set-set (x ∷ cs) (suc i) c d = ap (λ rest. x ∷ rest) (set-set cs i c d)

-- The region once the chunk `c` is resident with `pin` pins, and its bytes are committed.
abbrev pub settled : Region → ℕ → Chunk → ℕ → Stats → ℕ → Region
settled r idx c pin s n = record r {
  chunks = set r.chunks idx (record (enter ChunkState.resident 0 c) { pin = pin });
  reserved_bytes = sub64 r.reserved_bytes c.len;
  resident_bytes = add64 r.resident_bytes c.len;
  stats = s;
  clock_reads = n;
}

pub update_eq :
    (r : Region) (idx : ℕ) (c : Chunk) (f : Chunk → Chunk)
    → get_elem? r.chunks idx ≡ some c
    → update r idx f ≡ record r { chunks = set r.chunks idx (f c) }
update_eq r idx c f got = rw (got, update)

-- An edit of a chunk that was just written.
pub update_again :
    (r : Region) (idx : ℕ) (c d : Chunk) (f : Chunk → Chunk)
    → get_elem? r.chunks idx ≡ some c
    → update (record r { chunks = set r.chunks idx d }) idx f
      ≡ record r { chunks = set r.chunks idx (f d) }
update_again r idx c d f got =
    update_eq (record r { chunks = set r.chunks idx d }) idx d f
      (get_elem?-set_self r.chunks idx d (get_elem?-lt r.chunks idx got))
    ∙ ap {A = List Chunk} {B = Region} (λ cs. record r { chunks = cs })
        (set-set r.chunks idx d (f d))

pub abandon_eq :
    (r : Region) (i : ℕ) (c : Chunk)
    → get_elem? r.chunks i ≡ some c
    → abandon_fetch r i ≡ record r { chunks = set r.chunks i (enter ChunkState.absent 0 c) }
unfolding abandon_fetch
abandon_eq r i c got = update_eq r i c (enter ChunkState.absent 0) got

-- The region with the chunk's bytes committed and one more pin on it.
abbrev committed : Region → ℕ → Chunk → Region
committed r idx c = record r {
  chunks = set r.chunks idx (record c { pin = add32 c.pin 1 });
  reserved_bytes = sub64 r.reserved_bytes c.len;
  resident_bytes = add64 r.resident_bytes c.len;
}

commit_eq :
    (r : Region) (idx : ℕ) (c : Chunk)
    → get_elem? r.chunks idx ≡ some c
    → commit_reserved_and_pin r idx c.len ≡ committed r idx c
unfolding commit_reserved_and_pin commit_reserved pin_chunk
commit_eq r idx c got = rw (got, pin_at)

pub unpin_eq :
    (r : Region) (idx : ℕ) (c : Chunk)
    → get_elem? r.chunks idx ≡ some c
    → unpin_chunk r idx ≡ record r { chunks = set r.chunks idx (record c { pin = sub32 c.pin 1 }) }
unfolding unpin_chunk
unpin_eq r idx c got = rw (got, unpin_at)

pub settle_demand_eq :
    (r : Region) (idx : ℕ) (c : Chunk)
    → get_elem? r.chunks idx ≡ some c
    → settle_demand r idx c
      ≡ settled r idx c
          (add32 c.pin 1)
          (record (r.stats) { bytes_fetched = add64 r.stats.bytes_fetched c.len })
          r.clock_reads
unfolding settle_demand
settle_demand_eq r idx c got =
    let pinned = record c { pin = add32 c.pin 1 } in
    let again : get_elem? (set r.chunks idx pinned) idx ≡ some pinned =
      get_elem?-set_self r.chunks idx pinned (get_elem?-lt r.chunks idx got) in
    ap (λ s. count_fetched (update s idx (enter ChunkState.resident 0)) c.len)
      (commit_eq r idx c got)
    ∙ ap (λ s. count_fetched s c.len)
        (update_eq (committed r idx c) idx pinned (enter ChunkState.resident 0) again)
    ∙ ap (λ cs. count_fetched (record (committed r idx c) { chunks = cs }) c.len)
        (set-set r.chunks idx pinned (enter ChunkState.resident 0 pinned))

pub in_flight : (x : ChunkState) → is_fetching x ≡ true → is_resident x ≡ false
in_flight ChunkState.fetching h = refl
in_flight ChunkState.absent h = refl
in_flight ChunkState.resident h = absurd (ground arith)

-- A chunk in flight becomes resident, its bytes move from the reserved to the resident ones, and the
-- region stays sound.
pub settled-Inv :
    (r : Region) (idx : ℕ) (c : Chunk) (pin : ℕ) (s : Stats) (n : ℕ)
    → get_elem? r.chunks idx ≡ some c
    → is_fetching c.state ≡ true
    → c.len ≤ r.reserved_bytes
    → Inv r
    → Inv (settled r idx c pin s n)
settled-Inv r idx c pin s n got flying enough v =
    let after = record (enter ChunkState.resident 0 c) { pin = pin } in
    let out : is_resident c.state ≡ false = in_flight c.state flying in
    let empty : weight c ≡ 0 = rw out in
    let sum = resident_sum-set r.chunks idx c after got in
    let apart = Held-NotIn r.chunks (entries r.pinned) idx c v.retained.held got (inl out) in
    record {
      accounted = record {
        resident = omega (
          arith, sum, empty, enough, v.accounted.resident, v.accounted.within, v.accounted.small,
        );
        within = omega (arith, enough, v.accounted.within, v.accounted.small);
        small = v.accounted.small;
      };
      retained = record {
        ring = v.retained.ring;
        held = Held-set r.chunks (entries r.pinned) idx after v.retained.held apart;
      };
    }

-- The counts of kernel calls are in no account.
pub Inv-reads : (r : Region) (n m : ℕ) → Inv r → Inv (record r { preads = n; continues = m })
Inv-reads r n m v = record {
  accounted = record {
    resident = v.accounted.resident;
    within = v.accounted.within;
    small = v.accounted.small;
  };
  retained = record { ring = v.retained.ring; held = v.retained.held };
}

-- The chunk is resident with the pins that it had, or absent again, and it is in flight no longer.
abbrev pub Landed : Chunk → Chunk → Type 0
Landed c c' =
    ((c'.state ≡ ChunkState.resident) ⊎ (c'.state ≡ ChunkState.absent))
    × (c'.pin ≡ c.pin)
    × (c'.fetching_since_ns ≡ 0)

abbrev pub Done : ℕ → Chunk → Result (Region × Pool) → Type 0
Done idx c (abort x) = IsKernelFault x ⊎ IsFetchFault x
Done idx c (ok (r, p)) = Inv r × ((c' : Chunk) × (get_elem? r.chunks idx ≡ some c') × Landed c c')

-- The last steps of a demand fetch, from the region where the chunk is resident and pinned once more.
finish_eq :
    (r : Region) (idx n : ℕ) (c : Chunk) (s : Stats)
    → get_elem? r.chunks idx ≡ some c
    → c.pin < uint32_max
    → count_handled (unpin_chunk (settled r idx c (add32 c.pin 1) s n) idx)
      ≡ settled r idx c c.pin (record s { absent_handled = add64 s.absent_handled 1 }) n
finish_eq r idx n c s got few =
    let up = record (enter ChunkState.resident 0 c) { pin = add32 c.pin 1 } in
    let here : get_elem? (set r.chunks idx up) idx ≡ some up =
      get_elem?-set_self r.chunks idx up (get_elem?-lt r.chunks idx got) in
    let back : sub32 (add32 c.pin 1) 1 ≡ c.pin = omega arith in
    ap count_handled (unpin_eq (settled r idx c (add32 c.pin 1) s n) idx up here)
    ∙ ap (λ cs. count_handled (record (settled r idx c (add32 c.pin 1) s n) { chunks = cs }))
        (set-set r.chunks idx up (record up { pin = sub32 (add32 c.pin 1) 1 }))
    ∙ ap (λ m. settled r idx c m (record s { absent_handled = add64 s.absent_handled 1 }) n) back

-- The chunk's state after the prefetches that its completion asks for.
pub land :
    (k : Kernel) (r : Region) (idx : ℕ) (c : Chunk) (p : Pool)
    → get_elem? r.chunks idx ≡ some c
    → is_fetching c.state ≡ true
    → c.len ≤ r.reserved_bytes
    → c.pin < uint32_max
    → Inv r
    → Done idx c (ok (complete_demand k idx (settle_demand r idx c, p)))
unfolding complete_demand
land k r idx c p got flying enough few v = finish (settle_demand r idx c).prefetch_enabled
  where
    s : Stats
    s = record (r.stats) { bytes_fetched = add64 r.stats.bytes_fetched c.len }

    done :
        (w : Region × Pool) (n : ℕ)
        → w.0 ≡ record (settle_demand r idx c) { clock_reads = n }
        → Done idx c (ok (count_handled (unpin_chunk w.0 idx), w.1))
    done w n e =
        let at_n : w.0 ≡ settled r idx c (add32 c.pin 1) s n =
          e
          ∙ ap {A = Region} {B = Region} (λ x. record x { clock_reads = n })
              (settle_demand_eq r idx c got) in
        let at_end : count_handled (unpin_chunk w.0 idx)
            ≡ settled r idx c c.pin (record s { absent_handled = add64 s.absent_handled 1 }) n =
          ap (λ x. count_handled (unpin_chunk x idx)) at_n ∙ finish_eq r idx n c s got few in
        let after = record (enter ChunkState.resident 0 c) { pin = c.pin } in
        let here : get_elem? (set r.chunks idx after) idx ≡ some after =
          get_elem?-set_self r.chunks idx after (get_elem?-lt r.chunks idx got) in
        subst (λ x. Done idx c (ok (x, w.1))) (sym at_end)
          (settled-Inv r idx c c.pin _ n got flying enough v, (after, here, (inl refl, refl, refl)))

    finish :
        (b : Bool)
        → Done idx c (do
          let (r', p') =
              if b then top_up k idx (settle_demand r idx c, p) else (settle_demand r idx c, p)
          ok (count_handled (unpin_chunk r' idx), p'))
    finish true =
        let (n, e) = top_up-region k idx (settle_demand r idx c) p in
        done (top_up k idx (settle_demand r idx c, p)) n e
    finish false = done (settle_demand r idx c, p) (settle_demand r idx c).clock_reads refl
