-- ===== src/System/Moving.antt =====
-- The moves that evictions, an edit of one chunk and a worker's progress make.
use residctl.Prelude.{
  ℕ, ◌≡◌, refl, sym, ◌∙◌, ◌⊎◌, inl, inr, List, some, arith, get_elem?, set, ℕ_discrete,
  get_elem?-set_self, get_elem?-set_ne, get_elem?-lt,
}
use residctl.State.{Chunk, Region, Settings}
use residctl.Retain.{entries}
use residctl.Budget.Accounts.{NotIn}
use residctl.Budget.Frame.{Frame}
use residctl.System.{Pc, target}
use residctl.System.Owners.{fetching-evictable, Stands-evictable, Owned, Holds, Moves, Handover}

pub Frame-Moves :
    (i : ℕ) (r r' : Region)
    → Frame r r'
    → Moves i r.chunks (entries r.pinned) r'.chunks (entries r'.pinned)
Frame-Moves i r r' f = record {
  from = λ j c' apart got. f.from j c' got;
  stay = λ j c apart got out n. (f.kept j c got out n, f.queue j n);
}

pub set-Moves : (i : ℕ) (cs : List Chunk) (es : List ℕ) (d : Chunk) → Moves i cs es (set cs i d) es
set-Moves i cs es d = record {
  from = λ j c' apart got. (
    c',
    sym (get_elem?-set_ne cs i j d (λ same. apart (sym same))) ∙ got,
    (refl, refl, refl),
    inr (refl, λ n. n),
  );
  stay = λ j c apart got out n. (get_elem?-set_ne cs i j d (λ same. apart (sym same)) ∙ got, n);
}

pub Moves-trans :
    {i : ℕ} {cs cs' cs'' : List Chunk} {es es' es'' : List ℕ}
    → Moves i cs es cs' es'
    → Moves i cs' es' cs'' es''
    → Moves i cs es cs'' es''
Moves-trans {i} {cs} {cs'} {cs''} {es} {es'} {es''} f g = record {
  from = λ j c apart got.
      let (d, got', shape, here) = g.from j c apart got in
      let (b, got'', shape', there) = f.from j d apart got' in
      (b, got'', ground (arith, shape, shape'), join j b c d here there);
  stay = λ j c apart got out n.
      let (got', n') = f.stay j c apart got out n in g.stay j c apart got' out n';
}
  where
    join :
        (j : ℕ) (b c d : Chunk)
        → ((c.pin ≡ 0) ⊎ ((c.pin ≡ d.pin) × (NotIn j es'' → NotIn j es')))
        → ((d.pin ≡ 0) ⊎ ((d.pin ≡ b.pin) × (NotIn j es' → NotIn j es)))
        → (c.pin ≡ 0) ⊎ ((c.pin ≡ b.pin) × (NotIn j es'' → NotIn j es))
    join j b c d (inl none_left) there = inl none_left
    join j b c d (inr (same, n)) (inl none_left) = inl (same ∙ none_left)
    join j b c d (inr (same, n)) (inr (same', n')) = inr (same ∙ same', λ x. n' (n x))

-- Nobody takes or gives up chunk `i`, or any other.
pub Handover-same :
    (i w : ℕ) (pc : Pc) (ws : List Pc)
    → ((v : ℕ) (qc : Pc) → Holds ws v qc i → (v ≡ w) × (qc ≡ pc))
    → Handover i w pc ws ws
Handover-same i w pc ws sole = record {
  gone = λ v qc j apart h. h;
  kept = λ v qc j apart h. h;
  sole = sole;
}

-- Worker `w` goes on from `pc` to `pc'`, both of them on chunk `i` or on none.
pub Handover-set :
    (i w : ℕ) (pc pc' : Pc) (ws : List Pc)
    → get_elem? ws w ≡ some pc
    → ((j : ℕ) → target pc ≡ some j → j ≡ i)
    → ((j : ℕ) → target pc' ≡ some j → j ≡ i)
    → ((v : ℕ) (qc : Pc) → Holds ws v qc i → v ≡ w)
    → Handover i w pc' ws (set ws w pc')
Handover-set i w pc pc' ws got on_i on_i' sole = record {
  gone = λ v qc j apart h. elim (ℕ_discrete w v) [
    | yes same ↦
        let is_pc : pc' ≡ qc = ground (arith, here) in absurd (apart (on_i' j (rw is_pc h.1)))
    | no other ↦ (sym (get_elem?-set_ne ws w v pc' other) ∙ h.0, h.1)
  ];
  kept = λ v qc j apart h. elim (ℕ_discrete w v) [
    | yes same ↦ let is_pc : pc ≡ qc = ground arith in absurd (apart (on_i j (rw is_pc h.1)))
    | no other ↦ (get_elem?-set_ne ws w v pc' other ∙ h.0, h.1)
  ];
  sole = λ v qc h. elim (ℕ_discrete w v) [
    | yes same ↦ (sym same, ground (arith, here))
    | no other ↦
        absurd (other (sym (sole v qc (sym (get_elem?-set_ne ws w v pc' other) ∙ h.0, h.1))))
  ];
}
  where
    here : get_elem? (set ws w pc') w ≡ some pc'
    here = get_elem?-set_self ws w pc' (get_elem?-lt ws w got)

pub Moves-refl : (i : ℕ) (cs : List Chunk) (es : List ℕ) → Moves i cs es cs es
Moves-refl i cs es = record {
  from = λ j c apart got. (c, got, (refl, refl, refl), inr (refl, λ n. n));
  stay = λ j c apart got out n. (got, n);
}

-- Evictions and released pins take nothing from a holder.
pub Owned-Frame :
    {len_of : ℕ → ℕ} {config : Settings} {r r' : Region} {ds : List ℕ} {ws : List Pc}
    → Frame r r'
    → Owned len_of config r.chunks (entries r.pinned) ds ws
    → Owned len_of config r'.chunks (entries r'.pinned) ds ws
Owned-Frame f o = record {
  sized = λ i d got.
      let (c, before, shape, _) = f.from i d got in
      let fits = o.sized i c before in ground (arith, fits, shape);
  held = λ v pc i holds.
      let (c, got, st, out) = o.held v pc i holds in
      (c, f.kept i c got (Stands-evictable pc c i holds.1 st) out, st, f.queue i out);
  apart = o.apart;
  queued = λ i inside.
      let (c, got, fly, out) = o.queued i inside in
      (c, f.kept i c got (fetching-evictable c fly.0) out, fly, f.queue i out);
  distinct = o.distinct;
  waiting = o.waiting;
  free = λ i d got out nobody.
      let (c, before, shape, pin) = f.from i d got in
      elim pin [
        | inl none_left ↦ none_left
        | inr (same, back) ↦ same ∙ o.free i c before (back out) nobody
      ];
}
