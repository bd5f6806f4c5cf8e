-- ===== src/Replay/Moves.antt =====
-- The steps of a replay that mark nothing keep its invariant, src/replay.c.
use residctl.Prelude.{
  ℕ, suc, ◌+◌, ◌==◌, ◌≡◌, ◌≤◌, ◌<◌, ◌%◌, refl, sym, ap, subst, ◌∙◌, inl, inr, Bool, true, false,
  not, ◌&&◌, List, [], ◌∷◌, ◌++◌, some, arith, if◌then◌else◌, get_elem?, set, Bool-cases,
}
use residctl.Replay.{
  Config, n_chunks, total_steps, account, Place, waiting, reading, signalling, emitting, next_place,
  Driver, may_start, move, notify, start_step, signal, emit,
}
use residctl.Replay.Cyclic.{consumptions, accounts}
use residctl.Replay.Places.{get_elem?-set_cases, done}
use residctl.Replay.Invariant.{IsPlaced, IsHeard, IsTold, IsDriver, emitted, begun}
use residctl.Replay.Steps.{IsPlaced-move, done-next_place, Fits-next_place, may_start-ahead}
use residctl.Replay.Signals.{IsQuiet, IsHeard-move, IsHeard-signal}

-- What thread 0 has accounted for, or begun, after a write of its place or another's.
pub at_zero :
    (ps : List Place) (t : ℕ) (p p' : Place) (P : Place → Type 0)
    → ((q : Place) → get_elem? ps 0 ≡ some q → P q)
    → get_elem? ps t ≡ some p
    → (t ≡ 0 → P p → P p')
    → (q : Place) → get_elem? (set ps t p') 0 ≡ some q
    → P q
at_zero ps t p p' P old got new q at = elim (get_elem?-set_cases ps t 0 p' q at) [
  | inl (here, same) ↦
      subst P (sym same)
        (new (sym here) (old p (subst (λ v. get_elem? ps v ≡ some p) (sym here) got)))
  | inr (apart, there) ↦ old q there
]

pub IsTold-move :
    (cfg : Config) (ps : List Place) (m : ℕ) (consumed : List ℕ) (t : ℕ) (p p' : Place)
    → IsTold cfg ps m consumed
    → get_elem? ps t ≡ some p
    → IsQuiet p'
    → (t ≡ 0 → begun p' ≡ begun p)
    → IsTold cfg (set ps t p') m consumed
IsTold-move cfg ps m consumed t p p' h got quiet same = record {
  silent = λ u s at. elim (get_elem?-set_cases ps t u p' (signalling s) at) [
    | inl (_, e) ↦ subst IsQuiet (sym e) quiet
    | inr (_, old) ↦ h.silent u s old
  ];
  uncounted = h.uncounted;
  told =
      at_zero ps t p p' (λ q. consumed ≡ consumptions cfg (begun q)) h.told got
        (λ e told. told ∙ ap (consumptions cfg) (sym (same e)));
}

pub start_step-IsDriver :
    (cfg : Config) (t s : ℕ) (d : Driver)
    → IsDriver cfg d
    → get_elem? d.places t ≡ some (waiting s)
    → s < total_steps cfg
    → may_start cfg s d.completed ≡ true
    → IsDriver cfg (start_step cfg t s d)
unfolding start_step
start_step-IsDriver cfg t s d i got low may = by_notice ((t == 0) && not cfg.notify_all) refl
  where
    placed : IsPlaced cfg d.completed (set d.places t (reading s))
    placed =
        IsPlaced-move cfg d.completed d.completed d.places t (waiting s) (reading s) i.placed got
          (omega arith) low refl (λ k few. refl)
          (λ k e.
            let same : s ≡ k = cc e in
            subst
              (λ j. (u : ℕ) (q : Place) → get_elem? d.places u ≡ some q → j ≤ done q + cfg.window)
              same (may_start-ahead cfg d.completed d.places s i.placed low may))

    accounted :
        (q : Place)
        → get_elem? (set d.places t (reading s)) 0 ≡ some q
        → d.out.tally ≡ accounts cfg (emitted q)
    accounted =
        at_zero d.places t (waiting s) (reading s) (λ q. d.out.tally ≡ accounts cfg (emitted q))
          i.accounted got (λ e same. same)

    by_all :
        cfg.notify_all ≡ true
        → IsHeard cfg (set d.places t (reading s)) d.notify_count d.out.consumed
    by_all e =
        IsHeard-move cfg d.places d.notify_count d.out.consumed t (waiting s) (reading s)
          (i.by_all e) got tt tt refl

    by_notice :
        (b : Bool)
        → ((t == 0) && not cfg.notify_all) ≡ b
        → IsDriver cfg (move t (reading s) (if b then notify cfg s d else d))
    by_notice true e =
        let first : t ≡ 0 = ground (arith, e) in
        let mode : cfg.notify_all ≡ false = ground (arith, e) in
        let told = i.by_first mode in
        let said : d.out.consumed ≡ consumptions cfg s =
          told.told (waiting s) (subst (λ v. get_elem? d.places v ≡ some (waiting s)) first got) in
        record {
          placed = placed;
          accounted = accounted;
          by_all = λ all. cc (all, mode);
          by_first = λ _. record {
            silent = λ u k at.
                elim (get_elem?-set_cases d.places t u (reading s) (signalling k) at) [
                  | inl (_, same) ↦ cc same
                  | inr (_, old) ↦ told.silent u k old
                ];
            uncounted = told.uncounted;
            told = λ q at. elim (get_elem?-set_cases d.places t 0 (reading s) q at) [
              | inl (_, same) ↦
                  ap (λ xs. xs ++ ((s % n_chunks cfg) ∷ [])) said
                  ∙ ap (λ x. consumptions cfg (begun x)) (sym same)
              | inr (apart, _) ↦ absurd (apart first)
            ];
          };
        }
    by_notice false e = record {
      placed = placed;
      accounted = accounted;
      by_all = by_all;
      by_first = λ mode.
          IsTold-move cfg d.places d.notify_count d.out.consumed t (waiting s) (reading s)
            (i.by_first mode) got tt (λ first. absurd (ground (arith, e, mode, first)));
    }

pub next_place-apart : (t s k : ℕ) → next_place t s ≡ reading k → ⊥
next_place-apart t s k e = ground (arith, e)

pub IsQuiet-next_place : (t s : ℕ) → IsQuiet (next_place t s)
IsQuiet-next_place t s = elim (Bool-cases (t == 0)) [ inl e ↦ rw e tt | inr e ↦ rw e tt ]

pub next_place-emitted : (t s : ℕ) → t ≡ 0 → emitted (next_place t s) ≡ s
next_place-emitted t s e = ground (arith, e)

pub next_place-begun : (t s : ℕ) → begun (next_place t s) ≡ suc s
next_place-begun t s = ground arith

pub signal-IsDriver :
    (cfg : Config) (t s : ℕ) (d : Driver)
    → IsDriver cfg d
    → get_elem? d.places t ≡ some (signalling s)
    → IsDriver cfg (signal cfg t s d)
unfolding signal
signal-IsDriver cfg t s d i got = record {
  placed =
      IsPlaced-move cfg d.completed d.completed d.places t (signalling s) (next_place t s) i.placed
        got (omega (arith, done-next_place t s))
        (Fits-next_place cfg t s (i.placed.fits t (signalling s) got)) refl
        (λ k few. ground (arith, done-next_place t s)) (λ k e. absurd (next_place-apart t s k e));
  accounted =
      at_zero d.places t (signalling s) (next_place t s)
        (λ q. d.out.tally ≡ accounts cfg (emitted q)) i.accounted got
        (λ e same. same ∙ ap (accounts cfg) (sym (next_place-emitted t s e)));
  by_all = λ e.
      IsHeard-signal cfg d.places d.notify_count d.out.consumed t s (next_place t s) (i.by_all e)
        got (IsQuiet-next_place t s) (done-next_place t s);
  by_first = λ e. absurd ((i.by_first e).silent t s got);
}

pub emit-IsDriver :
    (cfg : Config) (t s : ℕ) (d : Driver)
    → IsDriver cfg d
    → get_elem? d.places t ≡ some (emitting s)
    → IsDriver cfg (emit cfg t s d)
unfolding emit
emit-IsDriver cfg t s d i got = record {
  placed =
      IsPlaced-move cfg d.completed d.completed d.places t (emitting s) (waiting (suc s)) i.placed
        got (omega arith) (omega (arith, (i.placed.fits t (emitting s) got).0)) refl (λ k few. refl)
        (λ k e. cc e);
  accounted = λ q at. elim (get_elem?-set_cases d.places t 0 (waiting (suc s)) q at) [
    | inl (_, same) ↦
        ap (account cfg (s % n_chunks cfg)) here ∙ ap (λ x. accounts cfg (emitted x)) (sym same)
    | inr (apart, _) ↦ absurd (apart first)
  ];
  by_all = λ e.
      IsHeard-move cfg d.places d.notify_count d.out.consumed t (emitting s) (waiting (suc s))
        (i.by_all e) got tt tt refl;
  by_first = λ e.
      IsTold-move cfg d.places d.notify_count d.out.consumed t (emitting s) (waiting (suc s))
        (i.by_first e) got tt (λ _. refl);
}
  where
    first : t ≡ 0
    first = (i.placed.fits t (emitting s) got).1

    here : d.out.tally ≡ accounts cfg s
    here =
        i.accounted (emitting s) (subst (λ v. get_elem? d.places v ≡ some (emitting s)) first got)
