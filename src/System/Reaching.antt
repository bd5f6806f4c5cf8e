-- ===== src/System/Reaching.antt =====
-- The invariant holds in every state that the system reaches from a started region.
use residctl.Prelude.{
  get_elem?-some, ◌-◌, ℕ, zero, suc, ◌+◌, ◌^◌, ◌≤◌, ◌<◌, ◌≡◌, refl, sym, ◌∙◌, ◌⊎◌, inl, inr, List,
  [], ◌∷◌, some, false, arith, get_elem?, length, replicate, length-replicate, get_elem?-lt, add32,
}
use residctl.State.{Chunk, ChunkState, Region, PinnedQueue, Settings}
use residctl.Kernel.{Kernel}
use residctl.Table.Tiles.{Tiles, AllFresh, edge, edge_end, edge_mono, edge-region_off}
use residctl.Retain.{entries}
use residctl.Retain.Ring.{IsRing}
use residctl.Fetch.Reads.{IsPread}
use residctl.Policy.Scan.{is_resident}
use residctl.Budget.Accounts.{resident_sum}
use residctl.Pool.{start, empty_queue}
use residctl.System.{Pc, idle, System, Step, Reach, initial}
use residctl.System.Owners.{Holds, Fits, offset_of}
use residctl.System.Invariant.{IsSystem, promised}
use residctl.System.Demands.{grant-IsSystem, retry-IsSystem, take-IsSystem, abandon-IsSystem}
use residctl.System.Landings.{land-IsSystem, complete-IsSystem}
use residctl.System.Prefetches.{
  pick-IsSystem, depart-IsSystem, skip-IsSystem, admit-IsSystem, decline-IsSystem,
}
use residctl.System.Stores.{store-IsSystem}
use residctl.System.Dispatch.{fault-IsSystem, access-IsSystem}
use residctl.System.Watching.{watch-IsSystem}

-- The region as `region_startup` leaves it, within the sizes that the theorems cover.
pub record IsStarted (r : Region) : Type 0 where
  pub tiled : Tiles 0 r.chunks r.region_len
  pub fresh : AllFresh r.chunks
  pub count : length r.chunks < 2 ^ 31 - 1
  pub len : r.region_len < 2 ^ 61
  pub budget : r.budget_bytes < 2 ^ 62
  pub resident : r.resident_bytes ≡ 0
  pub reserved : r.reserved_bytes ≡ 0
  pub ring : IsRing r.pinned
  pub unpinned : r.pinned.len ≡ 0
  pub file : (r.model_file_size ≡ 0) ⊎ (r.region_len ≤ r.model_file_size)

-- The length of the chunk with an index.
abbrev pub len_at : List Chunk → ℕ → ℕ
len_at [] i = 0
len_at (c ∷ cs) zero = c.len
len_at (c ∷ cs) (suc i) = len_at cs i

len_at-some : (cs : List Chunk) (i : ℕ) (c : Chunk) → get_elem? cs i ≡ some c → c.len ≡ len_at cs i
len_at-some [] i c got = absurd (ground arith)
len_at-some (d ∷ cs) zero c got = ground arith
len_at-some (d ∷ cs) (suc i) c got = len_at-some cs i c got

fresh-at :
    (cs : List Chunk) (i : ℕ) (c : Chunk)
    → AllFresh cs
    → get_elem? cs i ≡ some c
    → (c.state ≡ ChunkState.absent) × (c.pin ≡ 0)
fresh-at [] i c f got = absurd (ground arith)
fresh-at (d ∷ cs) zero c f got = let same : d ≡ c = ground arith in (rw same at f.0, rw same at f.1)
fresh-at (d ∷ cs) (suc i) c f got = fresh-at cs i c f.2 got

fresh_sum : (cs : List Chunk) → AllFresh cs → resident_sum cs ≡ 0
fresh_sum [] f = refl
fresh_sum (c ∷ cs) f =
    let gone : is_resident c.state ≡ false = rw f.0 refl in rw (gone, fresh_sum cs f.2) refl

-- The edges of the table are the sums of the lengths before them.
edge-offset_of :
    (cs : List Chunk) (off e i : ℕ)
    → Tiles off cs e
    → i ≤ length cs
    → edge cs off i ≡ off + offset_of (len_at cs) i
edge-offset_of cs off e zero t h = omega arith
edge-offset_of cs off e (suc i) t h =
    let (c, got) = get_elem?-some cs i (omega arith) in
    let (_, _, _, next) = edge-region_off cs off e i c t got in
    omega (arith, next, edge-offset_of cs off e i t (omega arith), len_at-some cs i c got)

started-Fits :
    (r : Region) (i : ℕ) (c : Chunk)
    → IsStarted r
    → get_elem? r.chunks i ≡ some c
    → Fits (len_at r.chunks) r.settings i c
started-Fits r i c v got =
    let inside = get_elem?-lt r.chunks i got in
    let (at_edge, identity, some_bytes, next) =
      edge-region_off r.chunks 0 r.region_len i c v.tiled got in
    let sum = edge-offset_of r.chunks 0 r.region_len i v.tiled (omega arith) in
    let below : edge r.chunks 0 (suc i) ≤ r.region_len = omega (
      arith,
      edge_mono r.chunks 0 (suc i) (length r.chunks),
      edge_end r.chunks 0 r.region_len v.tiled,
    ) in
    (
      len_at-some r.chunks i c got,
      some_bytes,
      sym identity,
      omega (arith, identity, at_edge, next, below, v.len),
      elim v.file [
        | inl unknown ↦ inl unknown
        | inr known ↦ inr (omega (arith, known, identity, at_edge, next, below, some_bytes))
      ],
      omega (arith, identity, at_edge, sum),
    )

idle_at : (n w : ℕ) (pc : Pc) → get_elem? (replicate n idle) w ≡ some pc → pc ≡ idle
idle_at zero w pc got = absurd (ground arith)
idle_at (suc n) zero pc got = ground arith
idle_at (suc n) (suc w) pc got = idle_at n w pc got

idle_free : (n w i : ℕ) (pc : Pc) → Holds (replicate n idle) w pc i → ⊥
idle_free n w i pc (got, aim) = let rest = rw (idle_at n w pc got) at aim in ground arith

promised_idle : (len_of : ℕ → ℕ) (n : ℕ) → promised len_of (replicate n idle) ≡ 0
promised_idle len_of zero = refl
promised_idle len_of (suc n) = omega (arith, promised_idle len_of n)

empty-IsRing : (n : ℕ) → 0 < n → n < 2 ^ 31 → IsRing (empty_queue n)
empty-IsRing n room small = record {
  storage = omega (arith, length-replicate {A = ℕ} n 0);
  some_room = room;
  small = small;
  head_in = room;
  len_in = omega arith;
}

no_entries : (q : PinnedQueue) → q.len ≡ 0 → entries q ≡ []
no_entries q e = rw e

pub initial-IsSystem :
    (r : Region) → IsStarted r → IsSystem (len_at r.chunks) r.settings (initial r)
unfolding start
initial-IsSystem r v =
    let next : add32 (length r.chunks) 1 ≡ suc (length r.chunks) = omega (arith, v.count) in
    let queue = no_entries r.pinned v.unpinned in
    let ring = empty-IsRing (suc (length r.chunks)) (omega arith) (omega (arith, v.count)) in
    record {
      inv = record {
        accounted = record {
          resident = v.resident ∙ sym (fresh_sum r.chunks v.fresh);
          within = omega (arith, v.resident, v.reserved);
          small = v.budget;
        };
        retained = record { ring = v.ring; held = rw queue tt };
      };
      owned = record {
        sized = λ i c got. started-Fits r i c v got;
        held = λ w pc i h. absurd (idle_free _ w i pc h);
        apart = λ x w pc qc i h h'. absurd (idle_free _ x i pc h);
        queued = λ i inside. elim inside [ ];
        distinct = tt;
        waiting = λ i inside. elim inside [ ];
        free = λ i c got out nobody. (fresh-at r.chunks i c v.fresh got).1;
      };
      pool = record { demand = rw next ring; prefetch = rw next ring };
      room = (
        next,
        omega (
          arith,
          edge-offset_of r.chunks 0 r.region_len (length r.chunks) v.tiled,
          edge_end r.chunks 0 r.region_len v.tiled,
        ),
      );
      reserved = v.reserved ∙ sym (promised_idle (len_at r.chunks) _);
      configured = refl;
    }

step-IsSystem :
    (k : Kernel) {len_of : ℕ → ℕ} {config : Settings} {s t : System}
    → IsPread k
    → IsSystem len_of config s
    → Step k s t
    → IsSystem len_of config t
step-IsSystem k reads v (Step.fault rel_off was_minor r p done) =
    fault-IsSystem v k rel_off was_minor r p done
step-IsSystem k reads v (Step.access idx) = access-IsSystem v idx
step-IsSystem k reads v (Step.take w idx p got taken) = take-IsSystem v w idx p got taken
step-IsSystem k reads v (Step.watch locked quiet) = watch-IsSystem v k locked quiet
step-IsSystem k reads v (Step.pick w idx p got taken) = pick-IsSystem v w idx p got taken
step-IsSystem k reads v (Step.depart w idx c got unlocked here away) =
    depart-IsSystem v k w idx c got here away
step-IsSystem k reads v (Step.skip w idx c got unlocked here there) = skip-IsSystem v w idx got
step-IsSystem k reads v (Step.grant w idx left c r got here done) =
    grant-IsSystem v k w idx left c r got here done
step-IsSystem k reads v (Step.retry w idx left c r got here done) =
    retry-IsSystem v k w idx left c r got here done
step-IsSystem k reads v (Step.abandon w idx c r got here done) =
    abandon-IsSystem v k w idx c r got here done
step-IsSystem k reads v (Step.land w idx c r got here done) =
    land-IsSystem v k w idx c r reads got here done
step-IsSystem k reads v (Step.complete w idx got) = complete-IsSystem v k w idx got
step-IsSystem k reads v (Step.admit w idx r got done) = admit-IsSystem v k w idx r got done
step-IsSystem k reads v (Step.decline w idx r got done) = decline-IsSystem v k w idx r got done
step-IsSystem k reads v (Step.store w idx c r got here done) =
    store-IsSystem v k w idx c r reads got here done

-- In every state that the system reaches from a started region by steps in which no pass of the watchdog
-- finds an orphaned fetch, with a pread that returns no more than what is wanted, the region is sound;
-- every chunk has the place and the length that the table was built with; a chunk in flight for a demand
-- either waits in the demand queue, once, or has one worker that holds it; a chunk outside the retention
-- queue that no worker holds has no pin; the demand queue has a place for every chunk and one more; and
-- the reserved bytes are those of the workers that are fetching.
pub Reach-IsSystem :
    (k : Kernel) (r : Region) (s : System)
    → IsPread k
    → IsStarted r
    → Reach k r s
    → IsSystem (len_at r.chunks) r.settings s
Reach-IsSystem k r s reads v Reach.here = initial-IsSystem r v
Reach-IsSystem k r s reads v (Reach.later path step) =
    step-IsSystem k reads (Reach-IsSystem k r _ reads v path) step
