-- ===== src/Belady/Slots.antt =====
-- The slots of `naive_belady`, src/belady_main.c, as a set of chunks.
use residctl.Prelude.{
  ℕ, zero, suc, ◌≡◌, ◌≢◌, ◌≤◌, ◌<◌, refl, sym, ap, subst, ◌∙◌, ◌⊎◌, inl, inr, List, [], ◌∷◌, Option,
  some, none, arith, length, get_elem?, set, length-set,
}
use residctl.Belady.Naive.{Slots, first_free, farthest, choose_slot}
use residctl.Belady.Sets.{In, Distinct}
use residctl.Belady.Farthest.{
  chunks_in, IsAdded, first_free-IsAdded, first_free-AreFull, farthest-IsFarthest,
}

-- A chunk put in the place of another.
pub record IsReplaced (c w : ℕ) (xs ys : List ℕ) : Type 0 where
  pub was : In w xs
  pub to : (d : ℕ) → In d ys → (c ≡ d) ⊎ (In d xs × (d ≢ w))
  pub from : (d : ℕ) → (c ≡ d) ⊎ (In d xs × (d ≢ w)) → In d ys
  pub distinct : (In c xs → ⊥) → Distinct ys
  pub size : length ys ≡ length xs

set-IsReplaced :
    (slots : Slots) (j c w : ℕ)
    → Distinct (chunks_in slots)
    → get_elem? slots j ≡ some (some w)
    → IsReplaced c w (chunks_in slots) (chunks_in (set slots j (some c)))
set-IsReplaced [] j c w d e = cc e
set-IsReplaced (none ∷ slots) zero c w d e = cc e
set-IsReplaced (none ∷ slots) (suc j) c w d e = set-IsReplaced slots j c w d e
set-IsReplaced (some x ∷ slots) zero c w (out, d) e =
    let here : x ≡ w = cc e in
    record {
      was = inl here;
      to = λ y got. elim got [
        | inl same ↦ inl same
        | inr there ↦
            inr
              (inr there, λ same. out (subst (λ k. In k (chunks_in slots)) (same ∙ sym here) there))
      ];
      from = λ y got. elim got [
        | inl same ↦ inl same
        | inr (old, ne) ↦ elim old [
          | inl same ↦ absurd (ne (sym same ∙ here))
          | inr there ↦ inr there
        ]
      ];
      distinct = λ away. (λ there. away (inr there), d);
      size = refl;
    }
set-IsReplaced (some x ∷ slots) (suc j) c w (out, d) e =
    let r = set-IsReplaced slots j c w d e in
    record {
      was = inr r.was;
      to = λ y got. elim got [
        | inl same ↦ inr (
          inl same,
          λ other. out (subst (λ k. In k (chunks_in slots)) (sym (same ∙ other)) r.was),
        )
        | inr there ↦ elim (r.to y there) [ inl new ↦ inl new | inr (old, ne) ↦ inr (inr old, ne) ]
      ];
      from = λ y got. elim got [
        | inl new ↦ inr (r.from y (inl new))
        | inr (old, ne) ↦ elim old [
          | inl same ↦ inl same
          | inr there ↦ inr (r.from y (inr (there, ne)))
        ]
      ];
      distinct = λ away. (
        λ there. elim (r.to x there) [ inl new ↦ away (inl (sym new)) | inr (old, _) ↦ out old ],
        r.distinct (λ there. away (inr there)),
      );
      size = ap suc r.size;
    }

-- What a miss does to the slots: the chunk comes into a free one, or takes the place of a chunk whose next use
-- is no earlier than any other's.
pub data IsMissed (next : ℕ → ℕ) (c : ℕ) (slots slots' : Slots) : Type 0 where
  added :
      length (chunks_in slots) < length slots
      → IsAdded c (chunks_in slots) (chunks_in slots')
      → IsMissed next c slots slots'
  replaced :
      (w : ℕ)
      → length (chunks_in slots) ≡ length slots
      → ((d : ℕ) → In d (chunks_in slots) → next d ≤ next w)
      → IsReplaced c w (chunks_in slots) (chunks_in slots')
      → IsMissed next c slots slots'

pub length-chunks_in : (slots : Slots) → length (chunks_in slots) ≤ length slots
length-chunks_in [] = omega arith
length-chunks_in (none ∷ slots) = omega (arith, length-chunks_in slots)
length-chunks_in (some c ∷ slots) = omega (arith, length-chunks_in slots)

pub choose_slot-IsMissed :
    (next : ℕ → ℕ) (c : ℕ) (slots : Slots)
    → 0 < length slots
    → Distinct (chunks_in slots)
    → IsMissed next c slots (set slots (choose_slot next slots) (some c))
unfolding choose_slot
choose_slot-IsMissed next c slots pos d = by_free (first_free 0 slots) refl
  where
    chosen : Option ℕ → ℕ
    chosen o = elim o [ some k ↦ k | none ↦ farthest next 0 0 0 slots ]

    by_free :
        (o : Option ℕ)
        → first_free 0 slots ≡ o
        → IsMissed next c slots (set slots (chosen o) (some c))
    by_free (some m) e =
        let (j, place, a) = first_free-IsAdded 0 slots c m e in
        let same : j ≡ m = omega (arith, place) in
        let room : length (chunks_in slots) < length slots =
          omega
            (arith, a.size, length-chunks_in (set slots j (some c)), length-set slots j (some c)) in
        subst (λ k. IsMissed next c slots (set slots k (some c))) same (added room a)
    by_free none e =
        let (full, whole) = first_free-AreFull 0 slots e in
        elim (farthest-IsFarthest next 0 0 0 slots full) [
          | inl (_, empty, _) ↦ absurd (omega (arith, empty (omega (arith, pos))))
          | inr (j, w, place, here, _, least) ↦
              let same : j ≡ farthest next 0 0 0 slots = omega (arith, place) in
              subst (λ k. IsMissed next c slots (set slots k (some c))) same
                (replaced w whole least (set-IsReplaced slots j c w d here))
        ]
