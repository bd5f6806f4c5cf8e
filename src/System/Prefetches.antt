-- ===== src/System/Prefetches.antt =====
-- The steps of a prefetch up to its reservation keep the invariant, src/prefetch_pool.c.
use residctl.Prelude.{
  ℕ, ◌≡◌, refl, sym, subst, ◌∙◌, some, true, false, arith, get_elem?, set, inl, get_elem?-set_self,
  get_elem?-lt, length-set, add64,
}
use residctl.Result.{ok}
use residctl.State.{Stats, Chunk, Region, Settings}
use residctl.Kernel.{Kernel}
use residctl.Retain.{entries}
use residctl.Policy.Scan.{is_resident}
use residctl.Budget.{ensure_budget_prefetch}
use residctl.Budget.Accounts.{weight, resident_sum-set, NotIn, Held-set, Held-NotIn, Inv}
use residctl.Budget.Rounds.{In}
use residctl.Budget.Admit.{ensure_budget_prefetch-Admitted}
use residctl.Pool.{prefetch_job, take_job, Pool, is_absent, finish_prefetch}
use residctl.Pool.Fifo.{take_job-Taken, IsPool}
use residctl.Worker.{is_fetching}
use residctl.Worker.Settle.{in_flight}
use residctl.Prefetch.{start_prefetch, drop_prefetch}
use residctl.Prefetch.Edits.{flying_from, start_prefetch_eq, dropped_until, drop_prefetch_eq}
use residctl.System.{
  Pc, idle, asking, granted, landed, wanting, departing, admitted, target, System, with_worker,
}
use residctl.System.Owners.{Owned-step, Owned-aimless, fetching-evictable, Holds, Stands}
use residctl.System.Moving.{Frame-Moves, set-Moves, Moves-trans, Handover-set}
use residctl.System.Invariant.{IsSystem, promised-set, small_chunk, worker_step}
use residctl.System.Demands.{Frame-step}

-- A write to a chunk that is resident neither before nor after it is in no account.
pub Inv-away :
    (r : Region) (idx : ℕ) (c d : Chunk) (seq n : ℕ) (t : Stats)
    → get_elem? r.chunks idx ≡ some c
    → is_resident c.state ≡ false
    → is_resident d.state ≡ false
    → Inv r
    → Inv (record r { chunks = set r.chunks idx d; fault_seq = seq; clock_reads = n; stats = t })
Inv-away r idx c d seq n t got out out' v =
    let empty : weight c ≡ 0 = rw out in
    let empty' : weight d ≡ 0 = rw out' in
    let apart = Held-NotIn r.chunks (entries r.pinned) idx c v.retained.held got (inl out) in
    record {
      accounted = record {
        resident =
            omega
              (arith, resident_sum-set r.chunks idx c d got, empty, empty', v.accounted.resident);
        within = v.accounted.within;
        small = v.accounted.small;
      };
      retained = record {
        ring = v.retained.ring;
        held = Held-set r.chunks (entries r.pinned) idx d v.retained.held apart;
      };
    }

pub finish_prefetch-IsPool : (p : Pool) (idx : ℕ) → IsPool p → IsPool (finish_prefetch p idx)
unfolding finish_prefetch
finish_prefetch-IsPool p idx v = record { demand = v.demand; prefetch = v.prefetch }

pub absent-resident : (c : Chunk) → is_absent c.state ≡ true → is_resident c.state ≡ false
absent-resident c away = ground arith

pub absent-fetching : (c : Chunk) → is_absent c.state ≡ true → is_fetching c.state ≡ true → ⊥
absent-fetching c away flying = ground arith

module _ {len_of : ℕ → ℕ} {config : Settings} {s : System} (v : IsSystem len_of config s) where
  -- Nobody holds an absent chunk, it waits in no queue, and it has no pin.
  pub absent_free :
      (idx : ℕ) (c : Chunk)
      → get_elem? s.region.chunks idx ≡ some c
      → is_absent c.state ≡ true
      → NotIn idx (entries s.region.pinned)
        × ((w : ℕ) (pc : Pc) → Holds s.workers w pc idx → ⊥)
        × (In idx (entries s.pool.demand) → ⊥)
        × (c.pin ≡ 0)
  absent_free idx c here away =
      let out =
        Held-NotIn s.region.chunks (entries s.region.pinned) idx c v.inv.retained.held here
          (inl (absent-resident c away)) in
      (out, nobody, waits, v.owned.free idx c here out nobody)
    where
      nobody : (w : ℕ) (pc : Pc) → Holds s.workers w pc idx → ⊥
      nobody w pc (got, aim) =
          let (d, at_d, st, _) = v.owned.held w pc idx (got, aim) in
          let is_c : d ≡ c = ground arith in awake pc aim (rw is_c at st)
        where
          awake : (pc : Pc) → target pc ≡ some idx → Stands pc c → ⊥
          awake idle aim st = ground arith
          awake (asking j left) aim st = absent-fetching c away st.0
          awake (granted j) aim st = absent-fetching c away st.0
          awake (landed j) aim st = ground (arith, st.0)
          awake (wanting j) aim st = ground arith
          awake (departing j) aim st = absent-fetching c away st.0
          awake (admitted j) aim st = absent-fetching c away st.0

      waits : In idx (entries s.pool.demand) → ⊥
      waits inside =
          let (d, at_d, fly, _) = v.owned.queued idx inside in
          let is_c : d ≡ c = ground arith in absent-fetching c away (rw is_c at fly.0)

  pub depart-IsSystem :
      (k : Kernel) (w idx : ℕ) (c : Chunk)
      → get_elem? s.workers w ≡ some (wanting idx)
      → get_elem? s.region.chunks idx ≡ some c
      → is_absent c.state ≡ true
      → IsSystem len_of config
          (with_worker s (start_prefetch k idx s.region) s.pool w (departing idx))
  depart-IsSystem k w idx c got here away =
      let (out, nobody, waits, free) = absent_free idx c here away in
      let up = flying_from (k.clock s.region.clock_reads) (add64 s.region.fault_seq 1) c in
      let sum = promised-set len_of s.workers w (wanting idx) (departing idx) got in
      subst (λ x. IsSystem len_of config (with_worker s x s.pool w (departing idx)))
        (sym (start_prefetch_eq k idx s.region c here))
        (record {
          inv =
              Inv-away s.region idx c up _ _ s.region.stats here (absent-resident c away) refl
                v.inv;
          owned =
              (Owned-step (set-Moves idx s.region.chunks (entries s.region.pinned) up)
                (Handover-set idx w (wanting idx) (departing idx) s.workers got
                  (λ j e. absurd (ground arith)) (λ j e. ground arith)
                  (λ x qc h. absurd (nobody x qc h)))
                (record {
                  place =
                      get_elem?-set_self s.region.chunks idx up
                        (get_elem?-lt s.region.chunks idx here);
                  fits = v.owned.sized idx c here;
                  stands = λ _. ((refl, rw free refl), out);
                  jobs = λ j apart inside. inside;
                  job = λ inside. absurd (waits inside);
                  distinct = v.owned.distinct;
                  free = λ _ empty. absurd (
                      empty w (departing idx) (
                        get_elem?-set_self s.workers w (departing idx)
                            (get_elem?-lt s.workers w got),
                        refl,
                      ));
                })
                v.owned);
          pool = v.pool;
          room = rw (length-set s.region.chunks idx up) v.room;
          reserved = omega (arith, sum, v.reserved);
          configured = v.configured;
        })

  pub pick-IsSystem :
      (w idx : ℕ) (p : Pool)
      → get_elem? s.workers w ≡ some idle
      → take_job s.pool ≡ some (prefetch_job idx, p)
      → IsSystem len_of config (with_worker s s.region p w (wanting idx))
  pick-IsSystem w idx p got taken =
      let (pool, _, _, same) = rw taken at (take_job-Taken s.pool v.pool) in
      let sum = promised-set len_of s.workers w idle (wanting idx) got in
      record {
        inv = v.inv;
        owned = Owned-aimless w idle (wanting idx) got refl refl (rw same v.owned);
        pool = pool;
        room = rw same v.room;
        reserved = omega (arith, sum, v.reserved);
        configured = v.configured;
      }

  pub skip-IsSystem :
      (w idx : ℕ)
      → get_elem? s.workers w ≡ some (wanting idx)
      → IsSystem len_of config (with_worker s s.region (finish_prefetch s.pool idx) w idle)
  unfolding finish_prefetch
  skip-IsSystem w idx got =
      let sum = promised-set len_of s.workers w (wanting idx) idle got in
      record {
        inv = v.inv;
        owned = Owned-aimless w (wanting idx) idle got refl refl v.owned;
        pool = finish_prefetch-IsPool s.pool idx v.pool;
        room = v.room;
        reserved = omega (arith, sum, v.reserved);
        configured = v.configured;
      }

  pub admit-IsSystem :
      (k : Kernel) (w idx : ℕ) (r : Region)
      → get_elem? s.workers w ≡ some (departing idx)
      → ensure_budget_prefetch k s.region idx ≡ ok (true, r)
      → IsSystem len_of config (with_worker s r s.pool w (admitted idx))
  admit-IsSystem k w idx r got done =
      let (c, here, _, _) = v.owned.held w (departing idx) idx (got, refl) in
      let size : c.len ≡ len_of idx = (v.owned.sized idx c here).0 in
      let (((inv, f), exact), _, _) =
        rw done at (
          ensure_budget_prefetch-Admitted k s.region idx c here (small_chunk v idx c here) v.inv) in
      let sum = promised-set len_of s.workers w (departing idx) (admitted idx) got in
      Frame-step v w idx (departing idx) (admitted idx) r got refl refl (λ d st. st) f inv
        (omega (arith, sum, exact, size, v.reserved))

  pub decline-IsSystem :
      (k : Kernel) (w idx : ℕ) (r : Region)
      → get_elem? s.workers w ≡ some (departing idx)
      → ensure_budget_prefetch k s.region idx ≡ ok (false, r)
      → IsSystem len_of config
          (with_worker s (drop_prefetch k r idx) (finish_prefetch s.pool idx) w idle)
  unfolding finish_prefetch
  decline-IsSystem k w idx r got done =
      let (c, here, (flying, one), out) = v.owned.held w (departing idx) idx (got, refl) in
      let ((inv, f), _, _, (same, _, _)) =
        rw done at (
          ensure_budget_prefetch-Admitted k s.region idx c here (small_chunk v idx c here) v.inv) in
      let kept = f.kept idx c here (fetching-evictable c flying) out in
      let gone = dropped_until (add64 (k.clock r.clock_reads) 100000000) c in
      let sum = promised-set len_of s.workers w (departing idx) idle got in
      subst (λ x. IsSystem len_of config (with_worker s x (finish_prefetch s.pool idx) w idle))
        (sym (drop_prefetch_eq k idx r c kept))
        (record {
          inv = Inv-away r idx c gone r.fault_seq _ _ kept (in_flight c.state flying) refl inv;
          owned =
              worker_step v w idx (departing idx) idle c gone (set r.chunks idx gone)
                (entries r.pinned) got refl (λ j e. absurd (ground arith))
                (Moves-trans (Frame-Moves idx s.region r f)
                  (set-Moves idx r.chunks (entries r.pinned) gone))
                (get_elem?-set_self r.chunks idx gone (get_elem?-lt r.chunks idx kept))
                (v.owned.sized idx c here) (λ e. absurd (ground arith)) (λ _ _. omega (arith, one));
          pool = finish_prefetch-IsPool s.pool idx v.pool;
          room = rw (length-set r.chunks idx gone, f.table) v.room;
          reserved = omega (arith, sum, same, v.reserved);
          configured = f.settings ∙ v.configured;
        })
