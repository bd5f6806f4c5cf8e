-- ===== src/System/Owners.antt =====
-- Who holds which chunk, and how a step that concerns one chunk moves it from one holder to another.
use residctl.Prelude.{
  get_elem?-lt, get_elem?-set_ne, get_elem?-set_self, set, none, ℕ, zero, suc, ◌+◌, ◌^◌, ◌<◌, ◌≡◌,
  ◌≢◌, refl, sym, ◌∙◌, ◌⊎◌, inl, inr, true, false, List, [], ◌∷◌, some, arith, get_elem?,
  ℕ_discrete,
}
use residctl.State.{Chunk, Settings}
use residctl.Policy.Scan.{is_resident, evictable}
use residctl.Budget.Accounts.{NotIn}
use residctl.Budget.Rounds.{In}
use residctl.Budget.Frame.{SameShape}
use residctl.Worker.{is_fetching}
use residctl.Worker.Settle.{in_flight}
use residctl.System.{Pc, idle, asking, granted, landed, wanting, departing, admitted, target}

-- The chunk is in flight for a demand: nobody else pins it.
abbrev pub IsFlying : Chunk → Type 0
IsFlying c = (is_fetching c.state ≡ true) × (c.pin ≡ 0)

-- What a worker at a place keeps of its chunk.
abbrev pub Stands : Pc → Chunk → Type 0
Stands idle c = Unit {0}
Stands (asking i left) c = IsFlying c
Stands (granted i) c = IsFlying c
Stands (landed i) c = (is_resident c.state ≡ true) × (c.pin ≡ 1)
Stands (wanting i) c = Unit {0}
Stands (departing i) c = (is_fetching c.state ≡ true) × (c.pin ≡ 1)
Stands (admitted i) c = (is_fetching c.state ≡ true) × (c.pin ≡ 1)

abbrev pub Distinct : List ℕ → Type 0
Distinct [] = Unit {0}
Distinct (e ∷ es) = NotIn e es × Distinct es

pub In-NotIn : (i : ℕ) (es : List ℕ) → In i es → NotIn i es → ⊥
In-NotIn i [] inside n = elim inside [ ]
In-NotIn i (e ∷ es) (inl here) (ne, n) = ne here
In-NotIn i (e ∷ es) (inr later) (ne, n) = In-NotIn i es later n

-- Worker `v` holds chunk `i`.
abbrev pub Holds : List Pc → ℕ → Pc → ℕ → Type 0
Holds ws v pc i = (get_elem? ws v ≡ some pc) × (target pc ≡ some i)

-- Where a chunk starts if the chunks lie one behind the other.
abbrev pub offset_of : (ℕ → ℕ) → ℕ → ℕ
offset_of len_of zero = 0
offset_of len_of (suc i) = offset_of len_of i + len_of i

-- A chunk's place and length, against those that the table was built with.
abbrev pub Fits : (ℕ → ℕ) → Settings → ℕ → Chunk → Type 0
Fits len_of config i c =
    (c.len ≡ len_of i)
    × (0 < c.len)
    × (c.region_off ≡ c.file_off)
    × (c.file_off + c.len < 2 ^ 61)
    × ((config.model_file_size ≡ 0) ⊎ (c.file_off < config.model_file_size))
    × (c.file_off ≡ offset_of len_of i)

-- `es` is the retention queue, `ds` the demand queue and `ws` the workers. Each chunk in flight for a demand
-- is in the demand queue or held by one worker; a chunk with a pin is in the retention queue or held.
pub record Owned (len_of : ℕ → ℕ) (config : Settings) (cs : List Chunk) (es ds : List ℕ)
    (ws : List Pc) : Type 0 where
  pub sized : (i : ℕ) (c : Chunk) → get_elem? cs i ≡ some c → Fits len_of config i c
  pub held :
      (v : ℕ) (pc : Pc) (i : ℕ)
      → Holds ws v pc i
      → (c : Chunk) × (get_elem? cs i ≡ some c) × Stands pc c × NotIn i es
  pub apart : (v w : ℕ) (pc qc : Pc) (i : ℕ) → Holds ws v pc i → Holds ws w qc i → v ≡ w
  pub queued : (i : ℕ) → In i ds → (c : Chunk) × (get_elem? cs i ≡ some c) × IsFlying c × NotIn i es
  pub distinct : Distinct ds
  pub waiting : (i : ℕ) → In i ds → (v : ℕ) (pc : Pc) → Holds ws v pc i → ⊥
  pub free :
      (i : ℕ) (c : Chunk)
      → get_elem? cs i ≡ some c
      → NotIn i es
      → ((v : ℕ) (pc : Pc) → Holds ws v pc i → ⊥)
      → c.pin ≡ 0

pub fetching-evictable : (c : Chunk) → is_fetching c.state ≡ true → evictable c ≡ false
fetching-evictable c flying = let out = in_flight c.state flying in rw out refl

pub Stands-evictable :
    (pc : Pc) (c : Chunk) (i : ℕ) → target pc ≡ some i → Stands pc c → evictable c ≡ false
Stands-evictable idle c i t st = absurd (ground arith)
Stands-evictable (asking j left) c i t st = fetching-evictable c st.0
Stands-evictable (granted j) c i t st = fetching-evictable c st.0
Stands-evictable (landed j) c i t st = ground arith
Stands-evictable (wanting j) c i t st = absurd (ground arith)
Stands-evictable (departing j) c i t st = fetching-evictable c st.0
Stands-evictable (admitted j) c i t st = fetching-evictable c st.0

-- What a step does to the chunks other than `i` and to the retention queue.
pub record Moves (i : ℕ) (cs : List Chunk) (es : List ℕ) (cs' : List Chunk) (es' : List ℕ)
    : Type 0 where
  pub from :
      (j : ℕ) (c' : Chunk)
      → j ≢ i
      → get_elem? cs' j ≡ some c'
      → (c : Chunk) × (get_elem? cs j ≡ some c)
        × SameShape c c'
        × ((c'.pin ≡ 0) ⊎ ((c'.pin ≡ c.pin) × (NotIn j es' → NotIn j es)))
  pub stay :
      (j : ℕ) (c : Chunk)
      → j ≢ i
      → get_elem? cs j ≡ some c
      → evictable c ≡ false
      → NotIn j es
      → (get_elem? cs' j ≡ some c) × NotIn j es'

-- What it does to the workers: whoever held another chunk holds it, and only worker `w` may hold `i`.
pub record Handover (i w : ℕ) (pc : Pc) (ws ws' : List Pc) : Type 0 where
  pub gone : (v : ℕ) (qc : Pc) (j : ℕ) → j ≢ i → Holds ws' v qc j → Holds ws v qc j
  pub kept : (v : ℕ) (qc : Pc) (j : ℕ) → j ≢ i → Holds ws v qc j → Holds ws' v qc j
  pub sole : (v : ℕ) (qc : Pc) → Holds ws' v qc i → (v ≡ w) × (qc ≡ pc)

-- What becomes of chunk `i`.
pub record Turns (len_of : ℕ → ℕ) (config : Settings) (i : ℕ) (pc : Pc) (c' : Chunk)
    (cs' : List Chunk) (es' ds ds' : List ℕ) (ws' : List Pc) : Type 0 where
  pub place : get_elem? cs' i ≡ some c'
  pub fits : Fits len_of config i c'
  pub stands : target pc ≡ some i → Stands pc c' × NotIn i es'
  pub jobs : (j : ℕ) → j ≢ i → In j ds' → In j ds
  pub job : In i ds' → IsFlying c' × NotIn i es' × ((v : ℕ) (qc : Pc) → Holds ws' v qc i → ⊥)
  pub distinct : Distinct ds'
  pub free : NotIn i es' → ((v : ℕ) (qc : Pc) → Holds ws' v qc i → ⊥) → c'.pin ≡ 0

module _ {len_of : ℕ → ℕ} {config : Settings} {i w : ℕ} {pc : Pc} {c' : Chunk} {cs cs' : List Chunk}
    {es es' ds ds' : List ℕ} {ws ws' : List Pc} (m : Moves i cs es cs' es')
    (h : Handover i w pc ws ws') (t : Turns len_of config i pc c' cs' es' ds ds' ws')
    (o : Owned len_of config cs es ds ws) where
  sized' : (j : ℕ) (d : Chunk) → get_elem? cs' j ≡ some d → Fits len_of config j d
  sized' j d got = elim (ℕ_discrete j i) [
    | yes same ↦ let is_c : c' ≡ d = ground (arith, t.place) in rw (same, ← is_c) t.fits
    | no apart ↦
        let (c, before, shape, _) = m.from j d apart got in
        let fits = o.sized j c before in ground (arith, fits, shape)
  ]

  held' :
      (v : ℕ) (qc : Pc) (j : ℕ)
      → Holds ws' v qc j
      → (c : Chunk) × (get_elem? cs' j ≡ some c) × Stands qc c × NotIn j es'
  held' v qc j holds = elim (ℕ_discrete j i) [
    | yes same ↦
        let (_, is_pc) = h.sole v qc (rw same at holds) in
        let aim : target pc ≡ some i = rw (is_pc, same) at holds.1 in
        let (st, out) = t.stands aim in (c', rw same t.place, rw is_pc st, rw same out)
    | no apart ↦
        let (c, got, st, out) = o.held v qc j (h.gone v qc j apart holds) in
        let (got', out') = m.stay j c apart got (Stands-evictable qc c j holds.1 st) out in
        (c, got', st, out')
  ]

  queued' : (j : ℕ) → In j ds' → (c : Chunk) × (get_elem? cs' j ≡ some c) × IsFlying c × NotIn j es'
  queued' j inside = elim (ℕ_discrete j i) [
    | yes same ↦
        let (fly, out, _) = t.job (rw same at inside) in (c', rw same t.place, fly, rw same out)
    | no apart ↦
        let (c, got, fly, out) = o.queued j (t.jobs j apart inside) in
        let (got', out') = m.stay j c apart got (fetching-evictable c fly.0) out in
        (c, got', fly, out')
  ]

  pub Owned-step : Owned len_of config cs' es' ds' ws'
  Owned-step = record {
    sized = sized';
    held = held';
    apart = λ v x qc rc j a b. elim (ℕ_discrete j i) [
      | yes same ↦ (h.sole v qc (rw same at a)).0 ∙ sym (h.sole x rc (rw same at b)).0
      | no apart ↦ o.apart v x qc rc j (h.gone v qc j apart a) (h.gone x rc j apart b)
    ];
    queued = queued';
    distinct = t.distinct;
    waiting = λ j inside v qc a. elim (ℕ_discrete j i) [
      | yes same ↦ (t.job (rw same at inside)).2 v qc (rw same at a)
      | no apart ↦ o.waiting j (t.jobs j apart inside) v qc (h.gone v qc j apart a)
    ];
    free = λ j d got out nobody. elim (ℕ_discrete j i) [
      | yes same ↦
          let is_c : c' ≡ d = ground (arith, t.place) in
          rw (← is_c) (t.free (rw same at out) (λ v qc a. nobody v qc (rw same a)))
      | no apart ↦
          let (c, before, shape, pin) = m.from j d apart got in
          elim pin [
            | inl none_left ↦ none_left
            | inr (same, back) ↦
                same ∙ o.free j c before (back out) (λ v qc a. nobody v qc (h.kept v qc j apart a))
          ]
    ];
  }

-- A worker that goes from one place to another where it holds no chunk changes nothing.
module _ {len_of : ℕ → ℕ} {config : Settings} {cs : List Chunk} {es ds : List ℕ} {ws : List Pc}
    (w : ℕ) (pc pc' : Pc) (got : get_elem? ws w ≡ some pc) (free : target pc ≡ none)
    (free' : target pc' ≡ none) (o : Owned len_of config cs es ds ws) where
  same_holder : (v : ℕ) (qc : Pc) (i : ℕ) → Holds (set ws w pc') v qc i → Holds ws v qc i
  same_holder v qc i (at_v, aim) = elim (ℕ_discrete w v) [
    | yes here ↦
        let there : get_elem? (set ws w pc') w ≡ some pc' =
          get_elem?-set_self ws w pc' (get_elem?-lt ws w got) in
        let same : pc' ≡ qc = ground (arith, there, at_v, here) in
        absurd (ground (arith, same, free', aim))
    | no apart ↦ (sym (get_elem?-set_ne ws w v pc' apart) ∙ at_v, aim)
  ]

  still_held : (v : ℕ) (qc : Pc) (i : ℕ) → Holds ws v qc i → Holds (set ws w pc') v qc i
  still_held v qc i (at_v, aim) = elim (ℕ_discrete w v) [
    | yes here ↦
        let same : pc ≡ qc = ground (arith, got, at_v, here) in
        absurd (ground (arith, same, free, aim))
    | no apart ↦ (get_elem?-set_ne ws w v pc' apart ∙ at_v, aim)
  ]

  pub Owned-aimless : Owned len_of config cs es ds (set ws w pc')
  Owned-aimless = record {
    sized = o.sized;
    held = λ v qc i h. o.held v qc i (same_holder v qc i h);
    apart = λ v x qc rc i a b. o.apart v x qc rc i (same_holder v qc i a) (same_holder x rc i b);
    queued = o.queued;
    distinct = o.distinct;
    waiting = λ i inside v qc h. o.waiting i inside v qc (same_holder v qc i h);
    free = λ i c at_i out nobody. o.free i c at_i out (λ v qc h. nobody v qc (still_held v qc i h));
  }
