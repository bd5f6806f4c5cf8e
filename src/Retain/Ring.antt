-- ===== src/Retain/Ring.antt =====
-- The queue's array, read from the head on and going round, is a list; the operations on the array are
-- those on the list.
use native.Mathlib.Nat.{mod-eq_of_lt, mod-eq-sub-mod, mod-lt}
use residctl.Prelude.{
  ℕ, zero, suc, ◌+◌, ◌-◌, ◌^◌, ltb, if◌then◌else◌, inl, inr, ◌⊎◌, ◌≤◌, ◌<◌, ◌≡◌, ◌≢◌, refl, sym,
  ◌∙◌, ap, ap₂, ◌==◌, ==_iff, ==-false, leb, ◌&&◌, List, [], ◌∷◌, ◌++◌, arith, add32, sub32, get_or,
  set, length, length-set, get_or-set_self, get_or-set_ne, dec_lt, ℕ_discrete,
}
use residctl.State.{PinnedQueue}
use residctl.Retain.{slot, tabulate, entries, drop_oldest, append_entry, shift_down, remove_entry}

-- The queue's representation is sound.
pub record IsRing (q : PinnedQueue) : Type 0 where
  pub storage : q.cap ≤ length q.buf
  pub some_room : 0 < q.cap
  pub small : q.cap < 2 ^ 31
  pub head_in : q.head < q.cap
  pub len_in : q.len ≤ q.cap

slot_value :
    (q : PinnedQueue) (i : ℕ)
    → IsRing q
    → i ≤ q.cap
    → ((q.head + i < q.cap) × (slot q i ≡ q.head + i))
      ⊎ ((q.cap ≤ q.head + i) × (slot q i ≡ q.head + i - q.cap))
slot_value q i v h =
    let sum : add32 q.head i ≡ q.head + i = omega arith in
    elim (dec_lt (q.head + i) q.cap) [
      | yes short ↦ inl (short, rw sum (mod-eq_of_lt short))
      | no long ↦ inr (
        omega arith,
        rw (sum, mod-eq-sub-mod {n = q.head + i} {m = q.cap} (omega arith))
            (mod-eq_of_lt {n = q.head + i - q.cap} {m = q.cap} (omega arith)),
      )
    ]

pub slot-lt : (q : PinnedQueue) (i : ℕ) → IsRing q → slot q i < q.cap
slot-lt q i v = mod-lt (add32 q.head i) v.some_room

-- Distinct positions of the queue are distinct slots of the array.
slot-injective :
    (q : PinnedQueue) (i j : ℕ) → IsRing q → i < q.cap → j < q.cap → i ≢ j → slot q i ≢ slot q j
slot-injective q i j v hi hj ne =
    grind (arith, slot_value q i v (omega arith), slot_value q j v (omega arith))

pub drop_oldest-IsRing : (q : PinnedQueue) → IsRing q → 0 < q.len → IsRing (drop_oldest q)
unfolding drop_oldest
drop_oldest-IsRing q v h = record {
  storage = v.storage;
  some_room = v.some_room;
  small = v.small;
  head_in = mod-lt (add32 q.head 1) v.some_room;
  len_in = omega arith;
}

slot-drop_oldest :
    (q : PinnedQueue) (k : ℕ) → IsRing q → k < q.len → slot (drop_oldest q) k ≡ slot q (k + 1)
unfolding drop_oldest
slot-drop_oldest q k v h = grind (
  arith,
  slot_value (drop_oldest q) k (drop_oldest-IsRing q v (omega arith)) (omega arith),
  slot_value q 1 v (omega arith),
  slot_value q (k + 1) v (omega arith),
)

module _ {ℓ} {A : Type ℓ} where
  abbrev pub remove_at : ℕ → List A → List A
  remove_at i [] = []
  remove_at zero (x ∷ xs) = xs
  remove_at (suc i) (x ∷ xs) = x ∷ remove_at i xs

  tabulate-ext :
      (f g : ℕ → A) (left i : ℕ)
      → ((k : ℕ) → i ≤ k → k < i + left → f k ≡ g k)
      → tabulate f left i ≡ tabulate g left i
  tabulate-ext f g zero i h = refl
  tabulate-ext f g (suc left) i h =
      ap₂ ◌∷◌ (h i (omega arith) (omega arith))
        (tabulate-ext f g left (i + 1) (λ k a b. h k (omega arith) (omega arith)))

  tabulate-snoc :
      (f : ℕ → A) (left i n : ℕ)
      → n ≡ i + left
      → tabulate f (suc left) i ≡ tabulate f left i ++ (f n ∷ [])
  tabulate-snoc f zero i n e = let e' : n ≡ i = omega arith in rw e'
  tabulate-snoc f (suc left) i n e = ap (◌∷◌ (f i)) (tabulate-snoc f left (i + 1) n (omega arith))

  tabulate_shifted :
      (f : ℕ → A) (left i : ℕ) → tabulate (λ k. f (k + 1)) left i ≡ tabulate f left (i + 1)
  tabulate_shifted f zero i = refl
  tabulate_shifted f (suc left) i = ap (◌∷◌ (f (i + 1))) (tabulate_shifted f left (i + 1))

  remove_at-tabulate :
      (f : ℕ → A) (n left s i : ℕ)
      → n ≡ s + i
      → i ≤ left
      → remove_at i (tabulate f (suc left) s)
        ≡ tabulate (λ k. if ltb k n then f k else f (k + 1)) left s
  remove_at-tabulate f n left s zero e h =
      sym (tabulate_shifted f left s)
      ∙ tabulate-ext (λ k. f (k + 1)) (λ k. if ltb k n then f k else f (k + 1)) left s
          (λ k a b. ground arith)
  remove_at-tabulate f n zero s (suc i) e h = absurd (omega arith)
  remove_at-tabulate f n (suc left) s (suc i) e h =
      ap₂ ◌∷◌ (ground arith) (remove_at-tabulate f n left (s + 1) i (omega arith) (omega arith))

-- What the array holds at a position of the queue.
abbrev read : PinnedQueue → List ℕ → ℕ → ℕ
read q buf i = get_or buf (slot q i) 0

module _ (q : PinnedQueue) (v : IsRing q) where
  read-set :
      (buf : List ℕ) (i j x : ℕ)
      → length buf ≡ length q.buf
      → i < q.cap
      → j < q.cap
      → read q (set buf (slot q i) x) j ≡ (if i == j then x else read q buf j)
  read-set buf i j x e hi hj = elim (ℕ_discrete i j) [
    | yes same ↦ rw same (
        rw ((==_iff j j).1 refl)
          (get_or-set_self buf (slot q j) x 0 (omega (arith, slot-lt q j v))))
    | no ne ↦
        rw (==-false i j ne)
          (get_or-set_ne buf (slot q i) (slot q j) x 0 (slot-injective q i j v hi hj ne))
  ]

  length-shift_down : (left j : ℕ) (buf : List ℕ) → length (shift_down q left j buf) ≡ length buf
  unfolding shift_down
  length-shift_down zero j buf = refl
  length-shift_down (suc left) j buf =
      length-shift_down left (j + 1) _ ∙ length-set buf (slot q j) (read q buf (j + 1))

  -- The loop moves the positions from `j` on down by one.
  read-shift_down :
      (left j k : ℕ) (buf : List ℕ)
      → length buf ≡ length q.buf
      → j + left < q.cap
      → k < q.cap
      → read q (shift_down q left j buf) k
        ≡ (if leb j k && ltb k (j + left) then read q buf (k + 1) else read q buf k)
  unfolding shift_down
  read-shift_down zero j k buf e hj hk = ground arith
  read-shift_down (suc left) j k buf e hj hk = ground (
    arith,
    read-shift_down left (j + 1) k (set buf (slot q j) (read q buf (j + 1)))
        (length-set buf (slot q j) (read q buf (j + 1)) ∙ e) (omega arith) hk,
    read-set buf j k (read q buf (j + 1)) e (omega arith) hk,
    read-set buf j (k + 1) (read q buf (j + 1)) e (omega arith),
  )

  pub entries-remove_entry :
      (i : ℕ) → i < q.len → entries (remove_entry q i) ≡ remove_at i (entries q)
  unfolding remove_entry
  entries-remove_entry i h =
      let left = q.len - 1 in
      let less : sub32 q.len 1 ≡ left = omega arith in
      let more : q.len ≡ suc left = omega arith in
      let rounds : q.len - (i + 1) ≡ left - i = omega arith in
      rw (less, rounds)
        (tabulate-ext _ _ left 0 (λ k a b.
            read-shift_down (left - i) i k q.buf refl (omega arith) (omega arith) ∙ ground arith)
          ∙ sym (remove_at-tabulate (read q q.buf) i left 0 i (omega arith) (omega arith))
          ∙ ap (λ n. remove_at i (tabulate (read q q.buf) n 0)) (sym more))

  pub entries-drop_oldest : 0 < q.len → entries q ≡ get_or q.buf q.head 0 ∷ entries (drop_oldest q)
  unfolding drop_oldest
  entries-drop_oldest h =
      let left = q.len - 1 in
      let less : sub32 q.len 1 ≡ left = omega arith in
      let more : q.len ≡ suc left = omega arith in
      rw less (
        ap (λ n. tabulate (read q q.buf) n 0) more
        ∙ ap₂ ◌∷◌ (ap (λ s. get_or q.buf s 0) slot_head) (
            sym (tabulate_shifted (read q q.buf) left 0)
            ∙ tabulate-ext _ _ left 0
                (λ k a b. ap (λ s. get_or q.buf s 0) (sym (slot-drop_oldest q k v (omega arith))))))
    where
      slot_head : slot q 0 ≡ q.head
      slot_head = grind (arith, slot_value q 0 v (omega arith))

  pub entries-append_entry :
      (x : ℕ) → q.len < q.cap → entries (append_entry q x) ≡ entries q ++ (x ∷ [])
  unfolding append_entry
  entries-append_entry x h =
      let more : add32 q.len 1 ≡ suc q.len = omega arith in
      rw more (
        tabulate-snoc (read q (set q.buf (slot q q.len) x)) q.len 0 q.len (omega arith)
        ∙ ap₂ (λ es e. es ++ (e ∷ []))
            (tabulate-ext _ _ q.len 0
              (λ k a b. ground (arith, read-set q.buf q.len k x refl (omega arith) (omega arith))))
            (get_or-set_self q.buf (slot q q.len) x 0 (omega (arith, slot-lt q q.len v))))

pub remove_entry-IsRing :
    (q : PinnedQueue) (i : ℕ) → IsRing q → i < q.len → IsRing (remove_entry q i)
unfolding remove_entry
remove_entry-IsRing q i v h = omega (arith, length-shift_down q v (q.len - (i + 1)) i q.buf)

pub append_entry-IsRing :
    (q : PinnedQueue) (x : ℕ) → IsRing q → q.len < q.cap → IsRing (append_entry q x)
unfolding append_entry
append_entry-IsRing q x v h = omega (arith, length-set q.buf (slot q q.len) x)
