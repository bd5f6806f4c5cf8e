-- ===== src/Replay/Reaching.antt =====
-- Every state that the threads of a replay reach is sound, src/replay.c.
use residctl.Prelude.{
  get_or-replicate, ℕ, zero, suc, ◌≡◌, ◌<◌, refl, sym, ap, subst, ◌∙◌, Bool, true, false, ◌&&◌,
  Option, some, none, arith, if◌then◌else◌, ltb, get_elem?, replicate, length-replicate,
}
use residctl.Replay.{
  Config, total_steps, Place, waiting, reading, signalling, emitting, Driver, begin_replay, is_full,
  may_start, mark_done, signal, step_from, advance, Run, begin, more,
}
use residctl.Replay.Cyclic.{consumptions, accounts}
use residctl.Replay.Places.{count_above-start, get_elem?-replicate}
use residctl.Replay.Invariant.{IsConfig, IsDriver, Fits, emitted, begun}
use residctl.Replay.Moves.{start_step-IsDriver, signal-IsDriver, emit-IsDriver}
use residctl.Replay.Marking.{mark_done-IsDriver}

begin_replay-IsDriver : (cfg : Config) → IsConfig cfg → IsDriver cfg (begin_replay cfg)
begin_replay-IsDriver cfg ok = record {
  placed = record {
    width = length-replicate cfg.n_threads (waiting 0);
    extent = length-replicate (total_steps cfg) 0;
    counts =
        λ s low. get_or-replicate (total_steps cfg) s 0 ∙ sym (count_above-start s cfg.n_threads);
    fits = λ t p got. subst (Fits cfg t) (sym (at_start t p got)) (omega arith);
    ahead = λ t u s q got there. cc (at_start t (reading s) got);
  };
  accounted = λ p got. ap (λ x. accounts cfg (emitted x)) (sym (at_start 0 p got));
  by_all = λ e. record {
    lower = λ t p got. omega arith;
    attained = (0, waiting 0, first cfg.n_threads ok.some_thread, refl);
    single = λ t u s s' a b. cc (at_start t (signalling s) a);
    owed = λ t s a. cc (at_start t (signalling s) a);
    paid = λ none_left. refl;
  };
  by_first = λ e. record {
    silent = λ t s a. cc (at_start t (signalling s) a);
    uncounted = refl;
    told = λ p got. ap (λ x. consumptions cfg (begun x)) (sym (at_start 0 p got));
  };
}
  where
    at_start :
        (t : ℕ) (p : Place)
        → get_elem? (replicate cfg.n_threads (waiting 0)) t ≡ some p
        → p ≡ waiting 0
    at_start t p got = get_elem?-replicate cfg.n_threads t (waiting 0) p got

    first : (n : ℕ) → 0 < n → get_elem? (replicate n (waiting 0)) 0 ≡ some (waiting 0)
    first zero pos = absurd (omega arith)
    first (suc n) pos = refl

pub if-some {ℓ} :
    {A : Type ℓ} (b : Bool) {x y : A} → (if b then some x else none) ≡ some y → (b ≡ true) × (x ≡ y)
if-some true e = (refl, cc e)
if-some false e = cc e

step_from-IsDriver :
    (cfg : Config) (t : ℕ) (p : Place) (d d' : Driver)
    → IsConfig cfg
    → IsDriver cfg d
    → get_elem? d.places t ≡ some p
    → step_from cfg t p d ≡ some d'
    → IsDriver cfg d'
step_from-IsDriver cfg t (waiting s) d d' ok i got e =
    let (may, same) = if-some (ltb s (total_steps cfg) && may_start cfg s d.completed) e in
    subst (IsDriver cfg) same
      (start_step-IsDriver cfg t s d i got (ground (arith, may)) (ground (arith, may)))
step_from-IsDriver cfg t (reading s) d d' ok i got e =
    let same : mark_done cfg t s d ≡ d' = cc e in
    subst (IsDriver cfg) same (mark_done-IsDriver cfg t s d ok i got)
step_from-IsDriver cfg t (signalling s) d d' ok i got e =
    let same : signal cfg t s d ≡ d' = cc e in
    subst (IsDriver cfg) same (signal-IsDriver cfg t s d i got)
step_from-IsDriver cfg t (emitting s) d d' ok i got e =
    subst (IsDriver cfg) (if-some (is_full cfg s d.completed) e).1 (emit-IsDriver cfg t s d i got)

-- A thread that takes a step stands somewhere.
pub advance-some :
    (cfg : Config) (t : ℕ) (d : Driver) {d' : Driver}
    → advance cfg t d ≡ some d'
    → (p : Place) × (get_elem? d.places t ≡ some p) × (step_from cfg t p d ≡ some d')
unfolding advance
advance-some cfg t d {d'} e = by_place (get_elem? d.places t) refl e
  where
    by_place :
        (o : Option Place)
        → get_elem? d.places t ≡ o
        → elim o [ none ↦ none | some p ↦ step_from cfg t p d ] ≡ some d'
        → (p : Place) × (get_elem? d.places t ≡ some p) × (step_from cfg t p d ≡ some d')
    by_place none got e = cc e
    by_place (some p) got e = (p, got, e)

-- What the threads reach is sound, whatever their order.
pub Run-IsDriver : (cfg : Config) {n : ℕ} {d : Driver} → IsConfig cfg → Run cfg n d → IsDriver cfg d
Run-IsDriver cfg ok begin = begin_replay-IsDriver cfg ok
Run-IsDriver cfg ok (more n t {d} {d'} run e) =
    let (p, got, step) = advance-some cfg t d e in
    step_from-IsDriver cfg t p d d' ok (Run-IsDriver cfg ok run) got step
