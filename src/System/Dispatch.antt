-- ===== src/System/Dispatch.antt =====
-- The dispatcher's steps and the consumption signal keep the invariant, src/pager.c.
use residctl.Prelude.{
  ℕ, ◌+◌, ◌≡◌, refl, sym, subst, ◌∙◌, Option, none, some, Bool, true, false, [], ◌∷◌, ◌++◌, arith,
  get_elem?, set, inl, inr, get_elem?-set_self, get_elem?-lt, length-set, add64, Option-cases,
  if◌then◌else◌,
}
use residctl.Result.{Result, ok, abort, ◌>>=◌, or_abort}
use residctl.Result
use residctl.State.{Chunk, ChunkState, Region, Stats, Policy, Settings}
use residctl.Kernel.{Kernel}
use residctl.Retain.{entries, prefetch_retain_release}
use residctl.Policy.{on_access}
use residctl.Budget.Accounts.{Inv}
use residctl.Budget.Retains.{release_keeps}
use residctl.Pool.{Pool, is_absent, enqueue_demand}
use residctl.Pool.Fifo.{Enqueued, enqueue_demand-Enqueued}
use residctl.Lookup.{pager_lookup}
use residctl.Worker.{take_off, tick}
use residctl.Pager.{
  handle_fault, handle_fault_by, handle_absent_dispatch, by_state, count_fault, notify_access,
}
use residctl.System.{idle, System}
use residctl.System.Owners.{Owned, Owned-step}
use residctl.System.Moving.{set-Moves, Handover-same, Owned-Frame}
use residctl.System.Invariant.{IsSystem}
use residctl.System.Prefetches.{Inv-away, absent_free, absent-resident}
use residctl.System.Sending.{
  NotIn-of_not, In-of_append, Distinct-append, dispatched, stamped, dispatch_eq,
}

module _ {len_of : ℕ → ℕ} {config : Settings} {s : System} (v : IsSystem len_of config s) where
  stats-IsSystem :
      (t : Stats) → IsSystem len_of config (record s { region = record (s.region) { stats = t } })
  stats-IsSystem t = record {
    inv = record {
      accounted = record {
        resident = v.inv.accounted.resident;
        within = v.inv.accounted.within;
        small = v.inv.accounted.small;
      };
      retained = record { ring = v.inv.retained.ring; held = v.inv.retained.held };
    };
    owned = v.owned;
    pool = v.pool;
    room = v.room;
    reserved = v.reserved;
    configured = v.configured;
  }

  pub access-IsSystem :
      (idx : ℕ) → IsSystem len_of config (record s { region = notify_access s.region idx })
  unfolding notify_access
  access-IsSystem idx = finish s.region.prefetch_retention_pinned
    where
      told : Region
      told = record (s.region) {
        policy = elim s.region.policy [ none ↦ none | some policy ↦ some (on_access policy idx) ];
      }

      told-Inv : Inv told
      told-Inv = record {
        accounted = record {
          resident = v.inv.accounted.resident;
          within = v.inv.accounted.within;
          small = v.inv.accounted.small;
        };
        retained = record { ring = v.inv.retained.ring; held = v.inv.retained.held };
      }

      finish :
          (b : Bool)
          → IsSystem len_of config
              (record s { region = if b then prefetch_retain_release told idx else told })
      finish false = record {
        inv = told-Inv;
        owned = v.owned;
        pool = v.pool;
        room = v.room;
        reserved = v.reserved;
        configured = v.configured;
      }
      finish true =
          let (inv, f, same) = release_keeps told idx told-Inv in
          record {
            inv = inv;
            owned = Owned-Frame f v.owned;
            pool = v.pool;
            room = rw f.table v.room;
            reserved = same ∙ v.reserved;
            configured = f.settings ∙ v.configured;
          }

abbrev Keeps : (ℕ → ℕ) → Settings → System → Result (Region × Pool) → Type 0
Keeps len_of config s (abort x) = Unit {0}
Keeps len_of config s (ok (r, p)) = IsSystem len_of config (record s { region = r; pool = p })

-- The region once the dispatcher has put the chunk in flight.
abbrev sent : Kernel → ℕ → Region → Chunk → Option Policy → Region
sent k idx r c policy = record r {
  chunks = set r.chunks idx (dispatched k r c);
  fault_seq = add64 r.fault_seq 1;
  clock_reads = r.clock_reads + 1 + 1;
  policy = policy;
}

module _ {len_of : ℕ → ℕ} {config : Settings} {s : System} (v : IsSystem len_of config s) where
  enqueued-Owned :
      (k : Kernel) (idx : ℕ) (c : Chunk) (policy : Option Policy)
      → get_elem? s.region.chunks idx ≡ some c
      → is_absent c.state ≡ true
      → Owned len_of config
          (sent k idx s.region c policy).chunks
          (entries s.region.pinned)
          (entries s.pool.demand ++ (idx ∷ []))
          s.workers
  enqueued-Owned k idx c policy here away =
      let (out, nobody, waits, free) = absent_free v idx c here away in
      let d = dispatched k s.region c in
      Owned-step (set-Moves idx s.region.chunks (entries s.region.pinned) d)
        (Handover-same idx 0 idle s.workers (λ x qc h. absurd (nobody x qc h)))
        (record {
          place = get_elem?-set_self s.region.chunks idx d (get_elem?-lt s.region.chunks idx here);
          fits = v.owned.sized idx c here;
          stands = λ e. absurd (ground arith);
          jobs = λ j apart inside. In-of_append idx j (entries s.pool.demand) apart inside;
          job = λ _. ((refl, free), out, nobody);
          distinct =
              Distinct-append idx (entries s.pool.demand) v.owned.distinct
                (NotIn-of_not idx (entries s.pool.demand) waits);
          free = λ _ _. free;
        })
        v.owned

  absent_Keeps :
      (k : Kernel) (idx : ℕ) (c : Chunk)
      → get_elem? s.region.chunks idx ≡ some c
      → is_absent c.state ≡ true
      → Keeps len_of config s (handle_absent_dispatch k idx (s.region, s.pool))
  unfolding handle_absent_dispatch
  absent_Keeps k idx c here away =
      after (enqueue_demand s.pool idx) (enqueue_demand-Enqueued s.pool idx v.pool)
    where
      after :
          (o : Result Pool)
          → Enqueued s.pool idx o
          → Keeps len_of config s (do
            p' ← o
            ok (
              stamped k idx
                  (k.clock s.region.clock_reads)
                  (take_off (tick s.region) idx (k.clock s.region.clock_reads)),
              p',
            ))
      after (abort x) full = tt
      after (ok p') (pool, queue, _, same_cap, _) =
          subst (λ x. IsSystem len_of config (record s { region = x; pool = p' }))
            (sym (dispatch_eq k idx s.region c here))
            (record {
              inv = sent-Inv _;
              owned = rw queue (enqueued-Owned k idx c none here away);
              pool = pool;
              room = rw (same_cap, length-set s.region.chunks idx (dispatched k s.region c)) v.room;
              reserved = v.reserved;
              configured = v.configured;
            })
        where
          sent-Inv : (policy : Option Policy) → Inv (sent k idx s.region c policy)
          sent-Inv policy =
              let w =
                Inv-away s.region idx c (dispatched k s.region c) (add64 s.region.fault_seq 1)
                  (s.region.clock_reads + 1 + 1) s.region.stats here (absent-resident c away) refl
                  v.inv in
              record {
                accounted = record {
                  resident = w.accounted.resident;
                  within = w.accounted.within;
                  small = w.accounted.small;
                };
                retained = record { ring = w.retained.ring; held = w.retained.held };
              }

module _ {len_of : ℕ → ℕ} {config : Settings} {s : System} (v : IsSystem len_of config s)
    (k : Kernel) where
  by_state-Keeps :
      (idx : ℕ) (c : Chunk) (t : Stats)
      → get_elem? s.region.chunks idx ≡ some c
      → Keeps len_of config s (
          by_state (handle_absent_dispatch k idx) c.state (record (s.region) { stats = t }, s.pool))
  by_state-Keeps idx c t here = go c.state refl
    where
      go :
          (x : ChunkState)
          → c.state ≡ x
          → Keeps len_of config s
              (by_state (handle_absent_dispatch k idx) x (record (s.region) { stats = t }, s.pool))
      go ChunkState.resident e = stats-IsSystem v _
      go ChunkState.fetching e = stats-IsSystem v _
      go ChunkState.absent e =
          let away : is_absent c.state ≡ true = rw e refl in
          after (handle_absent_dispatch k idx (record (s.region) { stats = t }, s.pool))
            (absent_Keeps (stats-IsSystem v t) k idx c here away)
        where
          after :
              (o : Result (Region × Pool))
              → Keeps len_of config (record s { region = record (s.region) { stats = t } }) o
              → Keeps len_of config s o
          after (abort x) h = h
          after (ok (r, p)) h = h

  handle_fault-Keeps :
      (rel_off : ℕ) (was_minor : Bool)
      → Keeps len_of config s (handle_fault k rel_off was_minor (s.region, s.pool))
  unfolding handle_fault handle_fault_by
  handle_fault-Keeps rel_off was_minor = after (pager_lookup s.region.chunks rel_off)
    where
      after :
          (o : Result (Option ℕ))
          → Keeps len_of config s (do
            found ← o
            idx ← or_abort found Result.no_covering_chunk
            c ← or_abort (get_elem? s.region.chunks idx) Result.out_of_bounds
            by_state
                (handle_absent_dispatch k idx)
                c.state
                (count_fault was_minor s.region, s.pool))
      after (abort x) = tt
      after (ok none) = tt
      after (ok (some idx)) = elim (Option-cases (get_elem? s.region.chunks idx)) [
        | inl out ↦ rw out tt
        | inr (c, here) ↦ rw here (by_state-Keeps idx c _ here)
      ]

  pub fault-IsSystem :
      (rel_off : ℕ) (was_minor : Bool) (r : Region) (p : Pool)
      → handle_fault k rel_off was_minor (s.region, s.pool) ≡ ok (r, p)
      → IsSystem len_of config (record s { region = r; pool = p })
  fault-IsSystem rel_off was_minor r p done = rw done at (handle_fault-Keeps rel_off was_minor)
