-- ===== src/Replay/Marking.antt =====
-- `lookahead_mark_done` keeps the invariant of a replay, src/replay.c.
use residctl.Prelude.{
  ==_iff, ℕ, suc, ◌^◌, ◌==◌, ◌≡◌, ◌<◌, refl, sym, ap, subst, ◌∙◌, Bool, true, false, List, some,
  arith, if◌then◌else◌, length, get_elem?, get_or, set, add32, add64, length-set,
}
use residctl.Replay.{
  Config, total_steps, Place, reading, signalling, next_place, Driver, move, mark_done,
}
use residctl.Replay.Cyclic.{accounts}
use residctl.Replay.Places.{done, count_above, count_above-le}
use residctl.Replay.Invariant.{IsConfig, IsPlaced, IsHeard, IsTold, IsDriver, Fits, emitted}
use residctl.Replay.Steps.{IsPlaced-move, done-next_place, Fits-next_place, mark-sums}
use residctl.Replay.Signals.{IsHeard-short, IsHeard-full}
use residctl.Replay.Moves.{
  at_zero, IsTold-move, next_place-apart, IsQuiet-next_place, next_place-emitted, next_place-begun,
}

steps-small : (cfg : Config) → total_steps cfg < 2 ^ 32
unfolding total_steps
steps-small cfg = omega arith

pub mark_done-IsDriver :
    (cfg : Config) (t s : ℕ) (d : Driver)
    → IsConfig cfg
    → IsDriver cfg d
    → get_elem? d.places t ≡ some (reading s)
    → IsDriver cfg (mark_done cfg t s d)
unfolding mark_done
mark_done-IsDriver cfg t s d ok i got =
    by_count (get_or marked s 0 == cfg.n_threads) cfg.notify_all refl refl
  where
    marked : List ℕ
    marked = set d.completed s (add32 (get_or d.completed s 0) 1)

    low : s < total_steps cfg
    low = i.placed.fits t (reading s) got

    placed :
        (p' : Place)
        → Fits cfg t p'
        → done p' ≡ suc s
        → ((k : ℕ) → p' ≡ reading k → ⊥)
        → IsPlaced cfg marked (set d.places t p')
    placed p' fit up apart =
        IsPlaced-move cfg d.completed marked d.places t (reading s) p' i.placed got
          (omega (arith, up)) fit (length-set d.completed s (add32 (get_or d.completed s 0) 1))
          (mark-sums cfg d.completed d.places t s p' ok i.placed got up) (λ k e. absurd (apart k e))

    after : IsPlaced cfg marked (set d.places t (next_place t s))
    after =
        placed (next_place t s) (Fits-next_place cfg t s low) (done-next_place t s)
          (next_place-apart t s)

    accounted :
        (p' : Place)
        → (t ≡ 0 → emitted p' ≡ s)
        → (q : Place) → get_elem? (set d.places t p') 0 ≡ some q
        → d.out.tally ≡ accounts cfg (emitted q)
    accounted p' same =
        at_zero d.places t (reading s) p' (λ q. d.out.tally ≡ accounts cfg (emitted q)) i.accounted
          got (λ e here. here ∙ ap (accounts cfg) (sym (same e)))

    told :
        cfg.notify_all ≡ false
        → IsTold cfg (set d.places t (next_place t s)) d.notify_count d.out.consumed
    told mode =
        IsTold-move cfg d.places d.notify_count d.out.consumed t (reading s) (next_place t s)
          (i.by_first mode) got (IsQuiet-next_place t s) (λ _. next_place-begun t s)

    by_count :
        (full all : Bool)
        → (get_or marked s 0 == cfg.n_threads) ≡ full
        → cfg.notify_all ≡ all
        → IsDriver cfg (
            if full
            then (if all
                then move t
                    (signalling s)
                    (record d { completed = marked; notify_count = add64 d.notify_count 1 })
                else move t (next_place t s) (record d { completed = marked }))
            else move t (next_place t s) (record d { completed = marked }))
    by_count true true e mode =
        let there : IsPlaced cfg marked (set d.places t (signalling s)) =
          placed (signalling s) low refl (λ k e. cc e) in
        let (first, heard) =
          IsHeard-full cfg d.places d.notify_count d.out.consumed t s (i.by_all mode) got (
            omega (
              arith,
              (==_iff (get_or marked s 0) cfg.n_threads).0 e,
              there.counts s low,
              there.width,
            )) in
        let next : suc s ≡ add64 d.notify_count 1 = omega (arith, first, low, steps-small cfg) in
        record {
          placed = there;
          accounted = accounted (signalling s) (λ _. refl);
          by_all = λ _.
              subst (λ m. IsHeard cfg (set d.places t (signalling s)) m d.out.consumed) next heard;
          by_first = λ no_mode. cc (mode, no_mode);
        }
    by_count true false e mode = record {
      placed = after;
      accounted = accounted (next_place t s) (next_place-emitted t s);
      by_all = λ all. cc (all, mode);
      by_first = told;
    }
    by_count false all e mode = record {
      placed = after;
      accounted = accounted (next_place t s) (next_place-emitted t s);
      by_all = λ on.
          IsHeard-short cfg d.places d.notify_count d.out.consumed t s (next_place t s)
            (i.by_all on) got (IsQuiet-next_place t s) (done-next_place t s) short;
      by_first = told;
    }
      where
        short :
            count_above s (set d.places t (next_place t s))
            < length (set d.places t (next_place t s))
        short = ground (
          arith,
          e,
          count_above-le s (set d.places t (next_place t s)),
          after.counts s low,
          after.width,
        )
