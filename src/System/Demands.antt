-- ===== src/System/Demands.antt =====
-- The steps of a demand keep the invariant, src/prefetch_pool.c.
use residctl.Prelude.{
  ℕ, zero, suc, ◌≡◌, refl, ◌∙◌, some, true, false, arith, get_elem?, set, inl, inr,
  get_elem?-set_self, get_elem?-lt, length-set,
}
use residctl.Result.{ok}
use residctl.State.{Chunk, ChunkState, Region, Settings}
use residctl.Kernel.{Kernel}
use residctl.Retain.{entries}
use residctl.Budget.{ensure_budget}
use residctl.Budget.Accounts.{Inv}
use residctl.Budget.Frame.{Frame}
use residctl.Budget.Ensure.{ensure_budget-Ensured}
use residctl.Pool.{demand_job, take_job, Pool}
use residctl.Pool.Fifo.{take_job-Taken}
use residctl.Worker.{abandon_fetch, enter}
use residctl.Worker.Settle.{abandon_eq}
use residctl.Worker.Landing.{abandon_fetch-Done}
use residctl.System.{Pc, idle, asking, granted, target, System, with_worker}
use residctl.System.Owners.{Owned-step, In-NotIn, fetching-evictable, Stands-evictable, Stands}
use residctl.System.Moving.{Frame-Moves, set-Moves, Moves-refl, Moves-trans, Handover-set}
use residctl.System.Invariant.{IsSystem, promised, promised-set, small_chunk, worker_step}

module _ {len_of : ℕ → ℕ} {config : Settings} {s : System} (v : IsSystem len_of config s) where
  -- After evictions, worker `w` goes on with its chunk in the same state.
  pub Frame-step :
      (w idx : ℕ) (pc pc' : Pc) (r : Region)
      → get_elem? s.workers w ≡ some pc
      → target pc ≡ some idx
      → target pc' ≡ some idx
      → ((c : Chunk) → Stands pc c → Stands pc' c)
      → Frame s.region r
      → Inv r
      → r.reserved_bytes ≡ promised len_of (set s.workers w pc')
      → IsSystem len_of config (with_worker s r s.pool w pc')
  Frame-step w idx pc pc' r got on_i on_i' stands f inv sum =
      let (c, here, st, out) = v.owned.held w pc idx (got, on_i) in
      record {
        inv = inv;
        owned =
            worker_step v w idx pc pc' c c r.chunks (entries r.pinned) got on_i
              (λ j e. ground (arith, e, on_i')) (Frame-Moves idx s.region r f)
              (f.kept idx c here (Stands-evictable pc c idx on_i st) out) (v.owned.sized idx c here)
              (λ _. (stands c st, f.queue idx out)) (λ _ no_aim. absurd (no_aim on_i'));
        pool = v.pool;
        room = rw f.table v.room;
        reserved = sum;
        configured = f.settings ∙ v.configured;
      }

  pub grant-IsSystem :
      (k : Kernel) (w idx left : ℕ) (c : Chunk) (r : Region)
      → get_elem? s.workers w ≡ some (asking idx left)
      → get_elem? s.region.chunks idx ≡ some c
      → ensure_budget k s.region c.len ≡ ok (true, r)
      → IsSystem len_of config (with_worker s r s.pool w (granted idx))
  grant-IsSystem k w idx left c r got here done =
      let size : c.len ≡ len_of idx = (v.owned.sized idx c here).0 in
      let ((inv, f), exact) =
        rw done at (ensure_budget-Ensured k s.region c.len (small_chunk v idx c here) v.inv) in
      let sum = promised-set len_of s.workers w (asking idx left) (granted idx) got in
      Frame-step w idx (asking idx left) (granted idx) r got refl refl (λ d st. st) f inv
        (omega (arith, sum, exact, size, v.reserved))

  pub retry-IsSystem :
      (k : Kernel) (w idx left : ℕ) (c : Chunk) (r : Region)
      → get_elem? s.workers w ≡ some (asking idx (suc left))
      → get_elem? s.region.chunks idx ≡ some c
      → ensure_budget k s.region c.len ≡ ok (false, r)
      → IsSystem len_of config (with_worker s r s.pool w (asking idx left))
  retry-IsSystem k w idx left c r got here done =
      let ((inv, f), same, _, _, _) =
        rw done at (ensure_budget-Ensured k s.region c.len (small_chunk v idx c here) v.inv) in
      let sum = promised-set len_of s.workers w (asking idx (suc left)) (asking idx left) got in
      Frame-step w idx (asking idx (suc left)) (asking idx left) r got refl refl (λ d st. st) f inv
        (omega (arith, sum, same, v.reserved))

  pub take-IsSystem :
      (w idx : ℕ) (p : Pool)
      → get_elem? s.workers w ≡ some idle
      → take_job s.pool ≡ some (demand_job idx, p)
      → IsSystem len_of config (with_worker s s.region p w (asking idx 200))
  take-IsSystem w idx p got taken =
      let (pool, front, _, same_cap) = rw taken at (take_job-Taken s.pool v.pool) in
      let o = rw front at v.owned in
      let (c, here, fly, out) = o.queued idx (inl refl) in
      let sum = promised-set len_of s.workers w idle (asking idx 200) got in
      record {
        inv = v.inv;
        owned =
            Owned-step (Moves-refl idx s.region.chunks (entries s.region.pinned))
              (Handover-set idx w idle (asking idx 200) s.workers got (λ j e. absurd (ground arith))
                (λ j e. ground arith) (λ x qc h. absurd (o.waiting idx (inl refl) x qc h)))
              (record {
                place = here;
                fits = o.sized idx c here;
                stands = λ _. (fly, out);
                jobs = λ j apart inside. inr inside;
                job = λ inside. absurd (In-NotIn idx (entries p.demand) inside o.distinct.0);
                distinct = o.distinct.1;
                free = λ _ _. fly.1;
              })
              o;
        pool = pool;
        room = rw same_cap v.room;
        reserved = omega (arith, sum, v.reserved);
        configured = v.configured;
      }

  pub abandon-IsSystem :
      (k : Kernel) (w idx : ℕ) (c : Chunk) (r : Region)
      → get_elem? s.workers w ≡ some (asking idx zero)
      → get_elem? s.region.chunks idx ≡ some c
      → ensure_budget k s.region c.len ≡ ok (false, r)
      → IsSystem len_of config (with_worker s (abandon_fetch r idx) s.pool w idle)
  abandon-IsSystem k w idx c r got here done =
      let ((inv, f), same, _, _, _) =
        rw done at (ensure_budget-Ensured k s.region c.len (small_chunk v idx c here) v.inv) in
      let (d, at_d, fly, out) = v.owned.held w (asking idx zero) idx (got, refl) in
      let is_c : d ≡ c = ground arith in
      let kept = f.kept idx c here (fetching-evictable c (rw is_c at fly.0)) out in
      let gone = enter ChunkState.absent 0 c in
      let (inv', _) = abandon_fetch-Done r idx c s.pool kept (rw is_c at fly.0) inv in
      let sum = promised-set len_of s.workers w (asking idx zero) idle got in
      let edited = abandon_eq r idx c kept in
      record {
        inv = inv';
        owned = rw edited (
            worker_step v w idx (asking idx zero) idle c gone (set r.chunks idx gone)
              (entries r.pinned) got refl (λ j e. absurd (ground arith))
              (Moves-trans (Frame-Moves idx s.region r f)
                (set-Moves idx r.chunks (entries r.pinned) gone))
              (get_elem?-set_self r.chunks idx gone (get_elem?-lt r.chunks idx kept))
              (v.owned.sized idx c here) (λ e. absurd (ground arith)) (λ _ _. (rw is_c at fly.1)));
        pool = v.pool;
        room = rw edited (rw (length-set r.chunks idx gone, f.table) v.room);
        reserved = rw edited (omega (arith, sum, same, v.reserved));
        configured = rw edited (f.settings ∙ v.configured);
      }
