-- ===== src/Replay/Signals.antt =====
-- Each step of a thread keeps what holds of the consumption signals, src/replay.c.
use residctl.Prelude.{
  get_elem?-set_ne, ℕ, suc, ◌≡◌, ◌≢◌, ◌≤◌, ◌<◌, ◌%◌, refl, sym, ap, subst, ◌∙◌, inl, inr, List, [],
  ◌∷◌, ◌++◌, some, arith, length, get_elem?, set, ℕ_discrete, get_elem?-lt, get_elem?-set_self,
}
use residctl.Replay.{Config, n_chunks, Place, waiting, reading, signalling, emitting}
use residctl.Replay.Cyclic.{consumptions}
use residctl.Replay.Places.{done, count_above, get_elem?-set_cases, full-above, behind}
use residctl.Replay.Invariant.{IsHeard}
use residctl.Replay.Steps.{all-set}

abbrev pub IsQuiet : Place → Type 0
IsQuiet (waiting s) = Unit {0}
IsQuiet (reading s) = Unit {0}
IsQuiet (signalling s) = ⊥
IsQuiet (emitting s) = Unit {0}

abbrev Attains : List Place → ℕ → Type 0
Attains ps m = (t : ℕ) × (p : Place) × (get_elem? ps t ≡ some p) × (done p ≡ m)

-- A signaller after a quiet move stood there before.
still_signalling :
    (ps : List Place) (t : ℕ) (p' : Place) (u s : ℕ)
    → IsQuiet p'
    → get_elem? (set ps t p') u ≡ some (signalling s)
    → (t ≢ u) × (get_elem? ps u ≡ some (signalling s))
still_signalling ps t p' u s quiet got = elim (get_elem?-set_cases ps t u p' (signalling s) got) [
  | inl (_, same) ↦ absurd (subst IsQuiet (sym same) quiet)
  | inr there ↦ there
]

-- And the other way round, if the one that moves was quiet.
was_signalling :
    (ps : List Place) (t : ℕ) (p p' : Place) (u s : ℕ)
    → get_elem? ps t ≡ some p
    → IsQuiet p
    → get_elem? ps u ≡ some (signalling s)
    → get_elem? (set ps t p') u ≡ some (signalling s)
was_signalling ps t p p' u s got quiet sig = elim (ℕ_discrete t u) [
  | yes same ↦
      let both : some p ≡ some (signalling s) =
        sym got ∙ (subst (λ v. get_elem? ps v ≡ some (signalling s)) (sym same) sig) in
      let e : p ≡ signalling s = cc both in absurd (subst IsQuiet e quiet)
  | no apart ↦ get_elem?-set_ne ps t u p' apart ∙ sig
]

IsHeard-quiet :
    (cfg : Config) (ps : List Place) (m : ℕ) (consumed : List ℕ) (t : ℕ) (p p' : Place)
    → IsHeard cfg ps m consumed
    → get_elem? ps t ≡ some p
    → IsQuiet p
    → IsQuiet p'
    → done p ≤ done p'
    → Attains (set ps t p') m
    → IsHeard cfg (set ps t p') m consumed
IsHeard-quiet cfg ps m consumed t p p' h got quiet quiet' up attained = record {
  lower = all-set ps t p' (λ u q. m ≤ done q) h.lower (omega (arith, up, h.lower t p got));
  attained = attained;
  single = λ u v s s' a b.
      h.single u v s s' (still_signalling ps t p' u s quiet' a).1
        (still_signalling ps t p' v s' quiet' b).1;
  owed = λ u s a. h.owed u s (still_signalling ps t p' u s quiet' a).1;
  paid = λ none_left. h.paid (λ u s a. none_left u s (was_signalling ps t p p' u s got quiet a));
}

-- A move that marks nothing.
pub IsHeard-move :
    (cfg : Config) (ps : List Place) (m : ℕ) (consumed : List ℕ) (t : ℕ) (p p' : Place)
    → IsHeard cfg ps m consumed
    → get_elem? ps t ≡ some p
    → IsQuiet p
    → IsQuiet p'
    → done p' ≡ done p
    → IsHeard cfg (set ps t p') m consumed
IsHeard-move cfg ps m consumed t p p' h got quiet quiet' same =
    IsHeard-quiet cfg ps m consumed t p p' h got quiet quiet' (omega (arith, same)) there
  where
    there : Attains (set ps t p') m
    there =
        let (u, q, at, low) = h.attained in
        elim (ℕ_discrete t u) [
          | yes here ↦
              let both : some p ≡ some q =
                sym got ∙ subst (λ v. get_elem? ps v ≡ some q) (sym here) at in
              let e : p ≡ q = cc both in
              (t, p', get_elem?-set_self ps t p' (get_elem?-lt ps t got), same ∙ (ap done e ∙ low))
          | no apart ↦ (u, q, get_elem?-set_ne ps t u p' apart ∙ at, low)
        ]

-- A mark that leaves its step short of full.
pub IsHeard-short :
    (cfg : Config) (ps : List Place) (m : ℕ) (consumed : List ℕ) (t s : ℕ) (p' : Place)
    → IsHeard cfg ps m consumed
    → get_elem? ps t ≡ some (reading s)
    → IsQuiet p'
    → done p' ≡ suc s
    → count_above s (set ps t p') < length (set ps t p')
    → IsHeard cfg (set ps t p') m consumed
IsHeard-short cfg ps m consumed t s p' h got quiet up short =
    IsHeard-quiet cfg ps m consumed t (reading s) p' h got tt quiet (omega (arith, up)) there
  where
    there : Attains (set ps t p') m
    there =
        let (u, q, at, low) = h.attained in
        elim (ℕ_discrete t u) [
          | yes here ↦
              let both : some (reading s) ≡ some q =
                sym got ∙ subst (λ v. get_elem? ps v ≡ some q) (sym here) at in
              let e : reading s ≡ q = cc both in
              let first : s ≡ m = ap done e ∙ low in
              let (v, r, at', low') = behind s (set ps t p') short in
              let above : m ≤ done r =
                all-set ps t p' (λ u q. m ≤ done q) h.lower (omega (arith, up, first)) v r at' in
              (v, r, at', omega (arith, above, low', first))
          | no apart ↦ (u, q, get_elem?-set_ne ps t u p' apart ∙ at, low)
        ]

-- The mark that makes its step full: the thread owes the signal.
pub IsHeard-full :
    (cfg : Config) (ps : List Place) (m : ℕ) (consumed : List ℕ) (t s : ℕ)
    → IsHeard cfg ps m consumed
    → get_elem? ps t ≡ some (reading s)
    → length (set ps t (signalling s)) ≤ count_above s (set ps t (signalling s))
    → (m ≡ s) × IsHeard cfg (set ps t (signalling s)) (suc s) consumed
IsHeard-full cfg ps m consumed t s h got full = (
  first,
  record {
    lower = λ u q at. full-above s ps' full u q at;
    attained = (t, signalling s, here, refl);
    single = λ u v k k' a b. sym (alone u k a) ∙ alone v k' b;
    owed = λ u k a.
        let at : get_elem? ps' t ≡ some (signalling k) =
          subst (λ v. get_elem? ps' v ≡ some (signalling k)) (sym (alone u k a)) a in
        let both : some (signalling s) ≡ some (signalling k) = sym here ∙ at in
        let e : s ≡ k = cc both in (ap suc e, h.paid nobody ∙ ap (consumptions cfg) (first ∙ e));
    paid = λ none_left. absurd (none_left t s here);
  },
)
  where
    ps' : List Place
    ps' = set ps t (signalling s)

    here : get_elem? ps' t ≡ some (signalling s)
    here = get_elem?-set_self ps t (signalling s) (get_elem?-lt ps t got)

    first : m ≡ s
    first =
        let (u, q, at, low) = h.attained in
        elim (ℕ_discrete t u) [
          | yes same ↦
              let both : some (reading s) ≡ some q =
                sym got ∙ subst (λ v. get_elem? ps v ≡ some q) (sym same) at in
              let e : reading s ≡ q = cc both in sym low ∙ ap done (sym e)
          | no apart ↦
              let above =
                full-above s ps' full u q (get_elem?-set_ne ps t u (signalling s) apart ∙ at) in
              let below : m ≤ s = h.lower t (reading s) got in
              absurd (omega (arith, above, below, low))
        ]

    nobody : (u k : ℕ) → get_elem? ps u ≡ some (signalling k) → ⊥
    nobody u k a =
        let at : get_elem? ps' u ≡ some (signalling k) =
          was_signalling ps t (reading s) (signalling s) u k got tt a in
        omega (arith, full-above s ps' full u (signalling k) at, (h.owed u k a).0, first)

    alone : (u k : ℕ) → get_elem? ps' u ≡ some (signalling k) → t ≡ u
    alone u k a = elim (ℕ_discrete t u) [
      | yes same ↦ same
      | no apart ↦ absurd (nobody u k (sym (get_elem?-set_ne ps t u (signalling s) apart) ∙ a))
    ]

-- The signal itself.
pub IsHeard-signal :
    (cfg : Config) (ps : List Place) (m : ℕ) (consumed : List ℕ) (t s : ℕ) (p' : Place)
    → IsHeard cfg ps m consumed
    → get_elem? ps t ≡ some (signalling s)
    → IsQuiet p'
    → done p' ≡ suc s
    → IsHeard cfg (set ps t p') m (consumed ++ ((s % n_chunks cfg) ∷ []))
IsHeard-signal cfg ps m consumed t s p' h got quiet up =
    let (next, said) = h.owed t s got in
    record {
      lower = all-set ps t p' (λ u q. m ≤ done q) h.lower (omega (arith, up, next));
      attained = (t, p', get_elem?-set_self ps t p' (get_elem?-lt ps t got), up ∙ sym next);
      single = λ u v k k' a b. absurd (nobody u k a);
      owed = λ u k a. absurd (nobody u k a);
      paid = λ none_left.
          ap (λ xs. xs ++ ((s % n_chunks cfg) ∷ [])) said ∙ ap (consumptions cfg) (sym next);
    }
  where
    nobody : (u k : ℕ) → get_elem? (set ps t p') u ≡ some (signalling k) → ⊥
    nobody u k a =
        let (apart, old) = still_signalling ps t p' u k quiet a in apart (h.single t u s k got old)
