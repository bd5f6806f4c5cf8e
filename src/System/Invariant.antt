-- ===== src/System/Invariant.antt =====
-- What holds of the system in every state that it can reach.
use residctl.Prelude.{
  get_elem?-lt, get_elem?-set_self, ℕ, zero, suc, ◌+◌, ◌^◌, ◌<◌, ◌≡◌, ◌≢◌, List, [], ◌∷◌, some,
  arith, get_elem?, set, length,
}
use residctl.State.{Chunk, Settings}
use residctl.Retain.{entries}
use residctl.Budget.Accounts.{NotIn, Inv}
use residctl.Fetch.Reads.{IsInFile}
use residctl.Pool.Fifo.{IsPool}
use residctl.System.{Pc, granted, admitted, target, System}
use residctl.System.Owners.{offset_of, Stands, Fits, Owned, Moves, Owned-step}
use residctl.System.Moving.{Handover-set}

-- The bytes that a worker has reserved for its fetch.
abbrev pub promise : (ℕ → ℕ) → Pc → ℕ
promise len_of (granted i) = len_of i
promise len_of (admitted i) = len_of i
promise len_of _ = 0

abbrev pub promised : (ℕ → ℕ) → List Pc → ℕ
promised len_of [] = 0
promised len_of (pc ∷ ws) = promise len_of pc + promised len_of ws

pub promised-set :
    (len_of : ℕ → ℕ) (ws : List Pc) (w : ℕ) (pc pc' : Pc)
    → get_elem? ws w ≡ some pc
    → promised len_of (set ws w pc') + promise len_of pc ≡ promised len_of ws + promise len_of pc'
promised-set len_of [] w pc pc' got = cc
promised-set len_of (x ∷ ws) zero pc pc' got =
    let same : x ≡ pc = ground arith in rw same (omega arith)
promised-set len_of (x ∷ ws) (suc w) pc pc' got = omega (arith, promised-set len_of ws w pc pc' got)

-- The region is sound, every chunk has at most one holder, and the reserved bytes are just those of the
-- workers that are fetching.
pub record IsSystem (len_of : ℕ → ℕ) (config : Settings) (s : System) : Type 0 where
  pub inv : Inv s.region
  pub owned :
      Owned len_of config s.region.chunks
        (entries s.region.pinned)
        (entries s.pool.demand)
        s.workers
  pub pool : IsPool s.pool
  pub room :
      (s.pool.demand.cap ≡ suc (length s.region.chunks))
      × (config.region_len ≡ offset_of len_of (length s.region.chunks))
  pub reserved : s.region.reserved_bytes ≡ promised len_of s.workers
  pub configured : s.region.settings ≡ config

module _ {len_of : ℕ → ℕ} {config : Settings} {s : System} (v : IsSystem len_of config s) where
  pub small_chunk : (i : ℕ) (c : Chunk) → get_elem? s.region.chunks i ≡ some c → c.len < 2 ^ 62
  small_chunk i c got = let fits = v.owned.sized i c got in omega (arith, fits.3)

  pub in_file : (i : ℕ) (c : Chunk) → get_elem? s.region.chunks i ≡ some c → IsInFile s.region c
  in_file i c got =
      let (_, some_bytes, identity, small, inside, _) = v.owned.sized i c got in
      record {
        identity = identity;
        small = small;
        some_bytes = some_bytes;
        starts_inside = rw v.configured inside;
      }

  -- A worker goes on with the chunk that it holds; the demand queue is as it was.
  pub worker_step :
      (w i : ℕ) (pc pc' : Pc) (c c' : Chunk) (cs' : List Chunk) (es' : List ℕ)
      → get_elem? s.workers w ≡ some pc
      → target pc ≡ some i
      → ((j : ℕ) → target pc' ≡ some j → j ≡ i)
      → Moves i s.region.chunks (entries s.region.pinned) cs' es'
      → get_elem? cs' i ≡ some c'
      → Fits len_of config i c'
      → (target pc' ≡ some i → Stands pc' c' × NotIn i es')
      → (NotIn i es' → target pc' ≢ some i → c'.pin ≡ 0)
      → Owned len_of config cs' es' (entries s.pool.demand) (set s.workers w pc')
  worker_step w i pc pc' c c' cs' es' got on_i only_i m place fits stands free =
      Owned-step m
        (Handover-set i w pc pc' s.workers got (λ j e. ground (arith, e, on_i)) only_i
          (λ x qc h. v.owned.apart x w qc pc i h (got, on_i)))
        (record {
          place = place;
          fits = fits;
          stands = stands;
          jobs = λ j apart inside. inside;
          job = λ inside. absurd (v.owned.waiting i inside w pc (got, on_i));
          distinct = v.owned.distinct;
          free = λ out nobody. free out (λ aim. nobody w pc' (here, aim));
        })
        v.owned
    where
      here : get_elem? (set s.workers w pc') w ≡ some pc'
      here = get_elem?-set_self s.workers w pc' (get_elem?-lt s.workers w got)
