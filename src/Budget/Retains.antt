-- ===== src/Budget/Retains.antt =====
-- What the retention of a prefetched chunk and the release at its consumption keep, src/budget.c.
use residctl.Prelude.{
  ℕ, zero, suc, ◌+◌, ◌<◌, ◌≡◌, ◌≢◌, refl, sym, inl, inr, List, [], ◌∷◌, ◌++◌, some, true, arith,
  leb, leb→le, get_elem?, get_or, Bool-cases, ◌==◌, ==_iff,
}
use residctl.State.{Chunk, Region}
use residctl.Retain.{
  entries, drop_oldest, unpin_at, make_room, remove_entry, prefetch_retain_release,
}
use residctl.Retain.Ring.{entries-drop_oldest, drop_oldest-IsRing}
use residctl.Retain.Refines.{remove_first, find_entry_cases, prefetch_retain_release_refines}
use residctl.Budget.Accounts.{NotIn, Held, Inv}
use residctl.Budget.Rounds.{In, HeldAt}
use residctl.Budget.Frame.{Frame, Frame-refl}
use residctl.Budget.Breaks.{freed_keeps, release_eq}

Held-first :
    (r : Region) (e : ℕ) (es : List ℕ)
    → entries r.pinned ≡ e ∷ es
    → Inv r
    → HeldAt r.chunks e × In e (entries r.pinned) × (remove_first e (entries r.pinned) ≡ es)
Held-first r e es list v =
    let same : (e == e) ≡ true = (==_iff e e).1 refl in
    rw list ((rw list at v.retained.held).0, inl refl, rw same refl)

-- The oldest entry gives way if the queue is full: its chunk loses its pin.
pub make_room_keeps :
    (r : Region)
    → Inv r
    → Inv (make_room r)
      × Frame r (make_room r)
      × ((make_room r).pinned.len < (make_room r).pinned.cap)
      × ((make_room r).reserved_bytes ≡ r.reserved_bytes)
unfolding make_room
make_room_keeps r v = elim (Bool-cases (leb r.pinned.cap r.pinned.len)) [
  | inr free ↦ rw free (v, Frame-refl r, ground arith, refl)
  | inl full ↦
      let ring = v.retained.ring in
      let some_entry : 0 < r.pinned.len = omega (arith, leb→le _ _ full, ring.some_room) in
      let list = entries-drop_oldest r.pinned ring some_entry in
      let e = get_or r.pinned.buf r.pinned.head 0 in
      let ((c, got, res, pin), inside, rest) =
        Held-first r e (entries (drop_oldest r.pinned)) list v in
      let (inv, f) =
        freed_keeps r e c (drop_oldest r.pinned) r.stats got pin inside
          (drop_oldest-IsRing r.pinned ring some_entry) (sym rest) v in
      rw (full, unpin_at, got) (inv, f, omega (arith, ring.len_in, some_entry), refl)
]

In-of_get : (es : List ℕ) (k i : ℕ) → get_elem? es k ≡ some i → In i es
In-of_get [] k i got = absurd (ground arith)
In-of_get (e ∷ es) zero i got = inl (ground arith)
In-of_get (e ∷ es) (suc k) i got = inr (In-of_get es k i got)

Held-at : (r : Region) (i : ℕ) (es : List ℕ) → Held r.chunks es → In i es → HeldAt r.chunks i
Held-at r i [] held inside = elim inside [ ]
Held-at r i (e ∷ es) (here, _, rest) (inl same) = rw same here
Held-at r i (e ∷ es) (here, _, rest) (inr later) = Held-at r i es rest later

-- A consumed chunk gives up its entry and the entry's pin.
pub release_keeps :
    (r : Region) (i : ℕ)
    → Inv r
    → Inv (prefetch_retain_release r i)
      × Frame r (prefetch_retain_release r i)
      × ((prefetch_retain_release r i).reserved_bytes ≡ r.reserved_bytes)
unfolding prefetch_retain_release
release_keeps r i v = elim (find_entry_cases i (entries r.pinned) 0) [
  | inl (absent, _) ↦ rw (absent, prefetch_retain_release) (v, Frame-refl r, refl)
  | inr (k, found, _, at_k, _) ↦
      let inside = In-of_get (entries r.pinned) k i at_k in
      let (c, got, res, pin) = Held-at r i (entries r.pinned) v.retained.held inside in
      let freed = release_eq r i (0 + k) c found got in
      let (list, ring, _) = rw freed at (prefetch_retain_release_refines r i v.retained.ring) in
      let (inv, f) =
        freed_keeps r i c (remove_entry r.pinned (0 + k)) r.stats got pin inside ring list v in
      rw freed (inv, f, refl)
]

pub NotIn-append : (i j : ℕ) (es : List ℕ) → NotIn i es → i ≢ j → NotIn i (es ++ (j ∷ []))
NotIn-append i j [] n apart = (apart, tt)
NotIn-append i j (e ∷ es) (ne, n) apart = (ne, NotIn-append i j es n apart)

pub NotIn-of_append : (i j : ℕ) (es : List ℕ) → NotIn i (es ++ (j ∷ [])) → NotIn i es × (i ≢ j)
NotIn-of_append i j [] (apart, _) = (tt, apart)
NotIn-of_append i j (e ∷ es) (ne, n) =
    let (rest, apart) = NotIn-of_append i j es n in ((ne, rest), apart)

pub Held-append :
    (cs : List Chunk) (es : List ℕ) (i : ℕ)
    → Held cs es
    → HeldAt cs i
    → NotIn i es
    → Held cs (es ++ (i ∷ []))
Held-append cs [] i held here out = (here, tt, tt)
Held-append cs (e ∷ es) i (at_e, fresh, rest) here (ne, out) =
    (at_e, NotIn-append e i es fresh (λ same. ne (sym same)), Held-append cs es i rest here out)
