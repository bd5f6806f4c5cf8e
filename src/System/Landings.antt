-- ===== src/System/Landings.antt =====
-- The end of a demand keeps the invariant, src/prefetch_pool.c.
use residctl.Prelude.{
  if◌then◌else◌, Bool, List, add64, ℕ, ◌≤◌, ◌≡◌, refl, sym, subst, ◌∙◌, ap, some, true, false,
  arith, add32, sub32, get_elem?, set, get_elem?-set_self, get_elem?-lt, length-set,
}
use residctl.Result.{Result, ok, abort, ◌>>=◌}
use residctl.State.{Chunk, ChunkState, Region, Stats, Settings}
use residctl.Kernel.{Kernel}
use residctl.Retain.{entries}
use residctl.Budget.Accounts.{resident_sum-set, NotIn, Inv, Held-set}
use residctl.Budget.{unpin_chunk}
use residctl.Pool.{Pool, top_up}
use residctl.Pool.Fifo.{IsPool}
use residctl.Pool.TopUp.{Topped, top_up-Topped}
use residctl.Worker.{fetch_and_settle, complete_demand, settle_demand, enter, count_handled}
use residctl.Worker.Demand.{top_up-region}
use residctl.Worker.Settle.{Inv-reads, settle_demand_eq, settled-Inv, unpin_eq}
use residctl.Fetch.{Segment, fetch_chunk}
use residctl.Fetch.Reads.{IsFetchFault, IsInFile, IsPread, Fetched, fetch_chunk-Fetched}
use residctl.System.{Pc, idle, granted, landed, System, with_worker}
use residctl.System.Moving.{set-Moves}
use residctl.System.Invariant.{promise, IsSystem, promised-set, worker_step, in_file}

abbrev pub Settles : Region → ℕ → Chunk → Region → Type 0
Settles r idx c r' =
    (n : ℕ) × (m : ℕ) × (r' ≡ settle_demand (record r { preads = n; continues = m }) idx c)

abbrev pub Settled : Region → ℕ → Chunk → Result Region → Type 0
Settled r idx c (abort x) = IsFetchFault x
Settled r idx c (ok r') = Settles r idx c r'

pub fetch_and_settle-Settled :
    (k : Kernel) (r : Region) (idx : ℕ) (c : Chunk)
    → IsPread k
    → IsInFile r c
    → Settled r idx c (fetch_and_settle k idx c r)
unfolding fetch_and_settle
fetch_and_settle-Settled k r idx c reads v =
    after (fetch_chunk k r c) (fetch_chunk-Fetched k r c reads v)
  where
    after :
        (o : Result (List Segment × Region))
        → Fetched r c o
        → Settled r idx c (do (segments, r') ← o; ok (settle_demand r' idx c))
    after (abort x) fault = fault
    after (ok (segments, r')) (_, (n, m, same)) = (n, m, ap (λ x. settle_demand x idx c) same)

-- The chunk has one pin less; only counts changed besides.
abbrev Unpinned : Region → ℕ → Chunk → Region → Type 0
Unpinned r idx c r' =
    (n : ℕ) × (t : Stats) × (r' ≡ record r {
      chunks = set r.chunks idx (record c { pin = sub32 c.pin 1 });
      clock_reads = n;
      stats = t;
    })

-- What the end of a demand does to the region and the pool.
abbrev Completes : Region → Pool → ℕ → Chunk → Region × Pool → Type 0
Completes r p idx c w = Unpinned r idx c w.0 × Topped p w.1

complete_demand-Completes :
    (k : Kernel) (r : Region) (p : Pool) (idx : ℕ) (c : Chunk)
    → get_elem? r.chunks idx ≡ some c
    → IsPool p
    → Completes r p idx c (complete_demand k idx (r, p))
unfolding complete_demand
complete_demand-Completes k r p idx c got v = finish r.prefetch_enabled
  where
    done :
        (w : Region × Pool) (n : ℕ)
        → w.0 ≡ record r { clock_reads = n }
        → Topped p w.1
        → Completes r p idx c (count_handled (unpin_chunk w.0 idx), w.1)
    done w n e topped = (
      (
        n,
        record (r.stats) { absent_handled = add64 r.stats.absent_handled 1 },
        ap (λ x. count_handled (unpin_chunk x idx)) e
            ∙ ap count_handled (unpin_eq (record r { clock_reads = n }) idx c got),
      ),
      topped,
    )

    finish :
        (b : Bool)
        → Completes r p idx c (
            let (r', p') = if b then top_up k idx (r, p) else (r, p) in
            (count_handled (unpin_chunk r' idx), p'))
    finish true =
        let (n, e) = top_up-region k idx r p in
        done (top_up k idx (r, p)) n e (top_up-Topped k idx r p v)
    finish false = done (r, p) r.clock_reads refl (v, refl)

-- The pins of a chunk outside the retention queue are in no account.
pub Inv-pin :
    (r : Region) (idx : ℕ) (c : Chunk) (pin n : ℕ) (t : Stats)
    → get_elem? r.chunks idx ≡ some c
    → NotIn idx (entries r.pinned)
    → Inv r
    → Inv (record r {
      chunks = set r.chunks idx (record c { pin = pin });
      clock_reads = n;
      stats = t;
    })
Inv-pin r idx c pin n t got out v =
    let after = record c { pin = pin } in
    record {
      accounted = record {
        resident = omega (arith, resident_sum-set r.chunks idx c after got, v.accounted.resident);
        within = v.accounted.within;
        small = v.accounted.small;
      };
      retained = record {
        ring = v.retained.ring;
        held = Held-set r.chunks (entries r.pinned) idx after v.retained.held out;
      };
    }

module _ {len_of : ℕ → ℕ} {config : Settings} {s : System} (v : IsSystem len_of config s) where
  -- A worker that is fetching has reserved its chunk's bytes.
  pub promised_enough :
      (w idx : ℕ) (pc : Pc)
      → get_elem? s.workers w ≡ some pc
      → promise len_of pc ≤ s.region.reserved_bytes
  promised_enough w idx pc got =
      omega (arith, promised-set len_of s.workers w pc idle got, v.reserved)

  pub land-IsSystem :
      (k : Kernel) (w idx : ℕ) (c : Chunk) (r : Region)
      → IsPread k
      → get_elem? s.workers w ≡ some (granted idx)
      → get_elem? s.region.chunks idx ≡ some c
      → fetch_and_settle k idx c s.region ≡ ok r
      → IsSystem len_of config (with_worker s r s.pool w (landed idx))
  land-IsSystem k w idx c r reads got here done =
      let (n, m, is_r) =
        rw done at (fetch_and_settle-Settled k s.region idx c reads (in_file v idx c here)) in
      let (d, at_d, fly, out) = v.owned.held w (granted idx) idx (got, refl) in
      let is_c : d ≡ c = ground arith in
      let size : c.len ≡ len_of idx = (v.owned.sized idx c here).0 in
      let enough : c.len ≤ s.region.reserved_bytes =
        rw size (promised_enough w idx (granted idx) got) in
      let free : c.pin ≡ 0 = rw is_c at fly.1 in
      let flying = rw is_c at fly.0 in
      let fetched = record (s.region) { preads = n; continues = m } in
      let stats = record (s.region.stats) {
        bytes_fetched = add64 s.region.stats.bytes_fetched c.len;
      } in
      let up = record (enter ChunkState.resident 0 c) { pin = add32 c.pin 1 } in
      let sum = promised-set len_of s.workers w (granted idx) (landed idx) got in
      let edited = is_r ∙ settle_demand_eq fetched idx c here in
      subst (λ x. IsSystem len_of config (with_worker s x s.pool w (landed idx))) (sym edited)
        (record {
          inv =
              settled-Inv fetched idx c (add32 c.pin 1) stats _ here flying enough
                (Inv-reads s.region n m v.inv);
          owned =
              worker_step v w idx (granted idx) (landed idx) c up (set s.region.chunks idx up)
                (entries s.region.pinned) got refl (λ j e. ground arith)
                (set-Moves idx s.region.chunks (entries s.region.pinned) up)
                (get_elem?-set_self s.region.chunks idx up (get_elem?-lt s.region.chunks idx here))
                (v.owned.sized idx c here) (λ e. ((refl, rw free refl), out))
                (λ _ no_aim. absurd (no_aim refl));
          pool = v.pool;
          room = rw (length-set s.region.chunks idx up) v.room;
          reserved =
              omega (
                arith, sum, size, enough, v.reserved, v.inv.accounted.within, v.inv.accounted.small,
              );
          configured = v.configured;
        })

  pub complete-IsSystem :
      (k : Kernel) (w idx : ℕ)
      → get_elem? s.workers w ≡ some (landed idx)
      → IsSystem len_of config (
          with_worker s
            (complete_demand k idx (s.region, s.pool)).0
            (complete_demand k idx (s.region, s.pool)).1
            w
            idle)
  complete-IsSystem k w idx got =
      let (c, here, (res, one), out) = v.owned.held w (landed idx) idx (got, refl) in
      let (undone, topped) = complete_demand-Completes k s.region s.pool idx c here v.pool in
      let (n, t, is_r) = undone in
      let (pool, demands) = topped in
      let down = record c { pin = sub32 c.pin 1 } in
      let sum = promised-set len_of s.workers w (landed idx) idle got in
      let p' = (complete_demand k idx (s.region, s.pool)).1 in
      subst (λ x. IsSystem len_of config (with_worker s x p' w idle)) (sym is_r)
        (record {
          inv = Inv-pin s.region idx c (sub32 c.pin 1) n t here out v.inv;
          owned = rw demands (
              worker_step v w idx (landed idx) idle c down (set s.region.chunks idx down)
                (entries s.region.pinned) got refl (λ j e. absurd (ground arith))
                (set-Moves idx s.region.chunks (entries s.region.pinned) down)
                (get_elem?-set_self s.region.chunks idx down
                  (get_elem?-lt s.region.chunks idx here))
                (v.owned.sized idx c here) (λ e. absurd (ground arith))
                (λ _ _. omega (arith, one)));
          pool = pool;
          room = rw (demands, length-set s.region.chunks idx down) v.room;
          reserved = omega (arith, sum, v.reserved);
          configured = v.configured;
        })
