-- ===== src/Replay/Steps.antt =====
-- Each step of a thread keeps the invariant of the places, src/replay.c.
use residctl.Prelude.{
  get_or-set_ne, get_or-set_self, ==_iff, dec_lt, ℕ, suc, ◌+◌, ◌-◌, ◌==◌, ◌≡◌, ◌≤◌, ◌<◌, sym, subst,
  ◌∙◌, inl, inr, true, List, some, arith, length, get_elem?, get_or, set, add32, length-set,
  Bool-cases, ℕ_discrete,
}
use residctl.Replay.{is_full, Config, total_steps, Place, reading, next_place, may_start}
use residctl.Replay.Places.{
  done, one_above, count_above, get_elem?-set_cases, count_above-set, full-above,
}
use residctl.Replay.Invariant.{IsConfig, Fits, IsPlaced}

-- What holds of all places of a list and of a new one holds of all after the write.
pub all-set :
    (ps : List Place) (t : ℕ) (p' : Place) (P : ℕ → Place → Type 0)
    → ((u : ℕ) (q : Place) → get_elem? ps u ≡ some q → P u q)
    → P t p'
    → (u : ℕ) (q : Place) → get_elem? (set ps t p') u ≡ some q
    → P u q
all-set ps t p' P old new u q got = elim (get_elem?-set_cases ps t u p' q got) [
  | inl (here, same) ↦ subst (λ v. P v q) (sym here) (subst (λ x. P t x) (sym same) new)
  | inr (apart, there) ↦ old u q there
]

-- A thread that goes on to a place that has marked as much, or one step more that `completed` counts.
pub IsPlaced-move :
    (cfg : Config) (cs cs' : List ℕ) (ps : List Place) (t : ℕ) (p p' : Place)
    → IsPlaced cfg cs ps
    → get_elem? ps t ≡ some p
    → done p ≤ done p'
    → Fits cfg t p'
    → length cs' ≡ length cs
    → ((s : ℕ)
        → s < total_steps cfg
        → get_or cs' s 0 + one_above s p ≡ get_or cs s 0 + one_above s p')
    → ((s : ℕ)
        → p' ≡ reading s
        → (u : ℕ) (q : Place) → get_elem? ps u ≡ some q
        → s ≤ done q + cfg.window)
    → IsPlaced cfg cs' (set ps t p')
IsPlaced-move cfg cs cs' ps t p p' i got up fit long sums ahead = record {
  width = length-set ps t p' ∙ i.width;
  extent = long ∙ i.extent;
  counts = λ s low. omega (arith, sums s low, i.counts s low, count_above-set s ps t p p' got);
  fits = all-set ps t p' (Fits cfg) i.fits fit;
  ahead = λ u v s q here there. elim (get_elem?-set_cases ps t u p' (reading s) here) [
    | inl (_, same) ↦ reach s q v there (ahead s (sym same))
    | inr (_, old) ↦ reach s q v there (λ w x at. i.ahead u w s x old at)
  ];
}
  where
    reach :
        (s : ℕ) (q : Place) (v : ℕ)
        → get_elem? (set ps t p') v ≡ some q
        → ((u : ℕ) (x : Place) → get_elem? ps u ≡ some x → s ≤ done x + cfg.window)
        → s ≤ done q + cfg.window
    reach s q v there all =
        all-set ps t p' (λ u x. s ≤ done x + cfg.window) all (omega (arith, up, all t p got)) v q
          there

pub done-next_place : (t s : ℕ) → done (next_place t s) ≡ suc s
done-next_place t s = ground arith

pub Fits-next_place : (cfg : Config) (t s : ℕ) → s < total_steps cfg → Fits cfg t (next_place t s)
Fits-next_place cfg t s low = elim (Bool-cases (t == 0)) [
  | inl e ↦ rw e (low, omega (arith, (==_iff t 0).0 e))
  | inr e ↦ rw e low
]

-- A step that both waits take for full is behind every thread.
pub is_full-above :
    (cfg : Config) (cs : List ℕ) (ps : List Place) (s : ℕ)
    → IsPlaced cfg cs ps
    → s < total_steps cfg
    → is_full cfg s cs ≡ true
    → (u : ℕ) (q : Place) → get_elem? ps u ≡ some q
    → s < done q
is_full-above cfg cs ps s i low full =
    full-above s ps (ground (arith, full, i.counts s low, i.width))

-- A step may start only if every thread is at most the window behind it.
pub may_start-ahead :
    (cfg : Config) (cs : List ℕ) (ps : List Place) (s : ℕ)
    → IsPlaced cfg cs ps
    → s < total_steps cfg
    → may_start cfg s cs ≡ true
    → (u : ℕ) (q : Place) → get_elem? ps u ≡ some q
    → s ≤ done q + cfg.window
unfolding may_start
may_start-ahead cfg cs ps s i low may u q got = elim (dec_lt s (cfg.window + 1)) [
  | yes early ↦ omega (arith, early)
  | no late ↦
      let full : is_full cfg (s - (cfg.window + 1)) cs ≡ true = ground (arith, may, late) in
      omega (
        arith,
        late,
        is_full-above cfg cs ps (s - (cfg.window + 1)) i (omega (arith, low)) full u q got,
      )
]

-- The counter of a step after its mark.
pub mark-sums :
    (cfg : Config) (cs : List ℕ) (ps : List Place) (t s : ℕ) (p' : Place)
    → IsConfig cfg
    → IsPlaced cfg cs ps
    → get_elem? ps t ≡ some (reading s)
    → done p' ≡ suc s
    → (k : ℕ) → k < total_steps cfg
    → get_or (set cs s (add32 (get_or cs s 0) 1)) k 0 + one_above k (reading s)
      ≡ get_or cs k 0 + one_above k p'
mark-sums cfg cs ps t s p' ok i got up k low = elim (ℕ_discrete s k) [
  | yes same ↦
      let here : count_above s ps < cfg.n_threads = room in
      let inside : s < length cs = omega (arith, same, low, i.extent) in
      let kept : get_or (set cs s (add32 (get_or cs s 0) 1)) s 0 ≡ add32 (get_or cs s 0) 1 =
        get_or-set_self cs s (add32 (get_or cs s 0) 1) 0 inside in
      let wrap : add32 (get_or cs s 0) 1 ≡ get_or cs s 0 + 1 =
        omega (arith, here, ok.few_threads, i.counts s (omega (arith, same, low))) in
      subst
        (λ j.
          get_or (set cs s (add32 (get_or cs s 0) 1)) j 0 + one_above j (reading s)
          ≡ get_or cs j 0 + one_above j p')
        same (ground (arith, kept, wrap, up))
  | no apart ↦
      let kept : get_or (set cs s (add32 (get_or cs s 0) 1)) k 0 ≡ get_or cs k 0 =
        get_or-set_ne cs s k (add32 (get_or cs s 0) 1) 0 apart in
      ground (arith, kept, up, apart)
]
  where
    room : count_above s ps < cfg.n_threads
    room = elim (dec_lt (count_above s ps) (length ps)) [
      | yes short ↦ omega (arith, short, i.width)
      | no long ↦ absurd (omega (arith, full-above s ps (omega (arith, long)) t (reading s) got))
    ]
