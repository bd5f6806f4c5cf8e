-- ===== src/Replay/Finish.antt =====
-- The end of a replay, src/replay.c: how many steps the threads take, and what they leave.
use residctl.Prelude.{
  get_elem?-some, get_or, add32, ℕ, zero, suc, ◌+◌, ◌-◌, ◌*◌, ◌==◌, ◌≡◌, ◌≤◌, ◌<◌, refl, sym, ap,
  ap₂, subst, ◌∙◌, ◌⊎◌, inl, inr, Bool, true, false, not, ◌&&◌, List, [], ◌∷◌, some, arith, ltb,
  get_elem?, set, replicate, Bool-cases,
}
use native.Mathlib.Nat.{mod-eq_of_lt}
use residctl.Result
use residctl.Result.{Result, ok, guard, ◌>>◌}
use residctl.Replay.{
  Config, n_chunks, total_steps, Output, replay_cyclic, Place, waiting, reading, signalling,
  emitting, next_place, Driver, is_full, may_start, start_step, mark_done, signal, emit, step_from,
  advance, Run, begin, more, end_replay,
}
use residctl.Replay.Cyclic.{consumptions, accounts, replayed, replay_cyclic-replayed}
use residctl.Replay.Places.{done}
use residctl.Replay.Invariant.{IsConfig, IsDriver}
use residctl.Replay.Reaching.{Run-IsDriver, advance-some, if-some}
use residctl.Replay.Lookahead.{Finished}

-- What a thread still has to do: four places for each step.
abbrev ahead_of : ℕ → Place → ℕ
ahead_of total (waiting s) = 4 * (total - s)
ahead_of total (reading s) = 4 * (total - s) - 1
ahead_of total (signalling s) = 4 * (total - s) - 2
ahead_of total (emitting s) = 4 * (total - s) - 3

abbrev left_over : ℕ → List Place → ℕ
left_over total [] = 0
left_over total (p ∷ ps) = ahead_of total p + left_over total ps

left_over-set :
    (total : ℕ) (ps : List Place) (t : ℕ) (p p' : Place)
    → get_elem? ps t ≡ some p
    → ahead_of total p' < ahead_of total p
    → left_over total (set ps t p') < left_over total ps
left_over-set total [] t p p' got less = cc got
left_over-set total (q ∷ ps) zero p p' got less =
    let same : q ≡ p = cc got in
    subst (λ x. ahead_of total p' + left_over total ps < ahead_of total x + left_over total ps)
      (sym same) (omega (arith, less))
left_over-set total (q ∷ ps) (suc t) p p' got less =
    omega (arith, left_over-set total ps t p p' got less)

left_over-start : (total n : ℕ) → left_over total (replicate n (waiting 0)) ≡ 4 * (total * n)
left_over-start total zero = omega arith
left_over-start total (suc n) =
    let sum : total * suc n ≡ total + total * n = omega arith in
    omega (arith, sum, left_over-start total n)

start_step-places :
    (cfg : Config) (t s : ℕ) (d : Driver)
    → (start_step cfg t s d).places ≡ set d.places t (reading s)
unfolding start_step
start_step-places cfg t s d = elim (Bool-cases ((t == 0) && not cfg.notify_all)) [
  | inl e ↦ rw e refl
  | inr e ↦ rw e refl
]

mark_done-places :
    (cfg : Config) (t s : ℕ) (d : Driver)
    → ((mark_done cfg t s d).places ≡ set d.places t (signalling s))
      ⊎ ((mark_done cfg t s d).places ≡ set d.places t (next_place t s))
unfolding mark_done
mark_done-places cfg t s d =
    let marked = set d.completed s (add32 (get_or d.completed s 0) 1) in
    elim (Bool-cases (get_or marked s 0 == cfg.n_threads)) [
      | inl full ↦ elim (Bool-cases cfg.notify_all) [
        | inl all ↦ inl (rw (full, all) refl)
        | inr first ↦ inr (rw (full, first) refl)
      ]
      | inr short ↦ inr (rw short refl)
    ]

ahead_of-next_place :
    (total t s : ℕ) → s < total → ahead_of total (next_place t s) < 4 * (total - s) - 2
ahead_of-next_place total t s low = elim (Bool-cases (t == 0)) [
  | inl e ↦ rw e (omega (arith, low))
  | inr e ↦ rw e (omega (arith, low))
]

-- Each step brings a thread further.
advance-less :
    (cfg : Config) (t : ℕ) (d d' : Driver)
    → IsDriver cfg d
    → advance cfg t d ≡ some d'
    → left_over (total_steps cfg) d'.places < left_over (total_steps cfg) d.places
unfolding start_step mark_done signal emit
advance-less cfg t d d' i e = let (p, got, step) = advance-some cfg t d e in moved p got step
  where
    total : ℕ
    total = total_steps cfg

    further :
        (p p' : Place) (d'' : Driver)
        → get_elem? d.places t ≡ some p
        → ahead_of total p' < ahead_of total p
        → d''.places ≡ set d.places t p'
        → d'' ≡ d'
        → left_over total d'.places < left_over total d.places
    further p p' d'' got less there same =
        subst (λ x. left_over total (x.places) < left_over total d.places) same
          (subst (λ ps. left_over total ps < left_over total d.places) (sym there)
            (left_over-set total d.places t p p' got less))

    moved :
        (p : Place)
        → get_elem? d.places t ≡ some p
        → step_from cfg t p d ≡ some d'
        → left_over total d'.places < left_over total d.places
    moved (waiting s) got step =
        let (may, same) = if-some (ltb s total && may_start cfg s d.completed) step in
        let low : s < total = ground (arith, may) in
        further (waiting s) (reading s) (start_step cfg t s d) got (omega (arith, low))
          (start_step-places cfg t s d) same
    moved (reading s) got step =
        let same : mark_done cfg t s d ≡ d' = cc step in
        let low : s < total = i.placed.fits t (reading s) got in
        elim (mark_done-places cfg t s d) [
          | inl there ↦
              further (reading s) (signalling s) (mark_done cfg t s d) got (omega (arith, low))
                there same
          | inr there ↦
              further (reading s) (next_place t s) (mark_done cfg t s d) got
                (omega (arith, low, ahead_of-next_place total t s low)) there same
        ]
    moved (signalling s) got step =
        let same : signal cfg t s d ≡ d' = cc step in
        let low : s < total = i.placed.fits t (signalling s) got in
        further (signalling s) (next_place t s) (signal cfg t s d) got
          (ahead_of-next_place total t s low) refl same
    moved (emitting s) got step =
        let low : s < total = (i.placed.fits t (emitting s) got).0 in
        further (emitting s) (waiting (suc s)) (emit cfg t s d) got (omega (arith, low)) refl
          (if-some (is_full cfg s d.completed) step).1

total_steps-whole : (cfg : Config) → IsConfig cfg → total_steps cfg ≡ cfg.n_passes * n_chunks cfg
unfolding total_steps
total_steps-whole cfg fine = mod-eq_of_lt fine.no_wrap

-- The threads of a replay take no more than four steps for each of their references, in any order.
pub Run-bounded :
    (cfg : Config) {n : ℕ} {d : Driver}
    → IsConfig cfg
    → Run cfg n d
    → n ≤ 4 * ((cfg.n_passes * n_chunks cfg) * cfg.n_threads)
Run-bounded cfg {n} {d} fine run =
    subst (λ k. n ≤ 4 * (k * cfg.n_threads)) (total_steps-whole cfg fine) (omega (arith, taken run))
  where
    total : ℕ
    total = total_steps cfg

    taken :
        {n : ℕ} {d : Driver}
        → Run cfg n d
        → n + left_over total d.places ≤ 4 * (total * cfg.n_threads)
    taken begin = omega (arith, left_over-start total cfg.n_threads)
    taken (more n t {d} {d'} run e) =
        omega (arith, taken run, advance-less cfg t d d' (Run-IsDriver cfg fine run) e)

-- Whatever the order of the steps, once all threads have ended their loops the check of `replay_cyclic_mt`
-- passes, in both modes of the signal, and what the run has recorded is what `replay_cyclic` records: the same
-- signals, the same records of the reference trace in the same order, and the same count of bytes.
pub Run-replay_cyclic :
    (cfg : Config) {n : ℕ} {d : Driver}
    → IsConfig cfg
    → Run cfg n d
    → Finished cfg d
    → end_replay cfg d ≡ ok (replay_cyclic cfg)
unfolding end_replay
Run-replay_cyclic cfg {n} {d} fine run finished = by_mode cfg.notify_all refl
  where
    total : ℕ
    total = total_steps cfg

    i : IsDriver cfg d
    i = Run-IsDriver cfg fine run

    zero_at : get_elem? d.places 0 ≡ some (waiting total)
    zero_at =
        let (p, got) =
          get_elem?-some d.places 0 (omega (arith, i.placed.width, fine.some_thread)) in
        got ∙ ap some (finished 0 p got)

    tallied : d.out.tally ≡ accounts cfg total
    tallied = i.accounted (waiting total) zero_at

    ends : d.out.consumed ≡ consumptions cfg total → d.out ≡ replay_cyclic cfg
    ends said =
        ap₂ {C = Output} (λ xs a. record { consumed = xs; tally = a }) said tallied
        ∙ (ap (replayed cfg) (total_steps-whole cfg fine) ∙ sym (replay_cyclic-replayed cfg))

    passes :
        not (cfg.notify_all && not (d.notify_count == total)) ≡ true
        → d.out ≡ replay_cyclic cfg
        → end_replay cfg d ≡ ok (replay_cyclic cfg)
    passes holds same = ap (λ b. guard b Result.signals_miscounted >> ok d.out) holds ∙ ap ok same

    by_mode : (all : Bool) → cfg.notify_all ≡ all → end_replay cfg d ≡ ok (replay_cyclic cfg)
    by_mode false mode =
        passes (ground (arith, mode)) (ends ((i.by_first mode).told (waiting total) zero_at))
    by_mode true mode =
        let heard = i.by_all mode in
        let (t, p, got, low) = heard.attained in
        let count : d.notify_count ≡ total = sym low ∙ ap done (finished t p got) in
        let equal : (d.notify_count == total) ≡ true = ground (arith, count) in
        let said : d.out.consumed ≡ consumptions cfg total =
          heard.paid (λ u s at. cc (finished u (signalling s) at)) ∙ ap (consumptions cfg) count in
        passes (ground (arith, mode, equal)) (ends said)
