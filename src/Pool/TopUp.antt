-- ===== src/Pool/TopUp.antt =====
-- What a top-up leaves of the pool's queues.
use residctl.Prelude.{
  ℕ, zero, suc, ◌+◌, ◌<◌, ◌≡◌, refl, ◌∙◌, inl, inr, Option, none, some, arith, ltb, sub32, ◌==◌,
  if◌then◌else◌, get_elem?, Bool-cases, Option-cases,
}
use residctl.State.{Chunk, Region, Policy}
use residctl.Kernel.{Kernel}
use residctl.Policy.{predict_next}
use residctl.Retain.Ring.{append_entry-IsRing}
use residctl.Pool.{Pool, top_up, top_up_loop, wanted, enqueue_prefetch}
use residctl.Pool.Fifo.{IsPool}

-- The queues are sound, and the demands are as before.
abbrev pub Topped : Pool → Pool → Type 0
Topped p p' = IsPool p' × (p'.demand ≡ p.demand)

step_Topped :
    (p : Pool) (idx : ℕ) (c : Chunk) (now : ℕ)
    → IsPool p
    → Topped p (if wanted p idx c now then enqueue_prefetch p idx else p)
unfolding enqueue_prefetch
step_Topped p idx c now v = elim (Bool-cases (wanted p idx c now)) [
  | inr refused ↦ rw refused (v, refl)
  | inl asked ↦
      let room : p.prefetch.len < p.prefetch.cap = ground arith in
      rw asked (
        record { demand = v.demand; prefetch = append_entry-IsRing p.prefetch idx v.prefetch room },
        refl,
      )
]

top_up_loop-Topped :
    (k : Kernel) (policy : Policy) (just left cursor : ℕ) (r : Region) (p : Pool)
    → IsPool p
    → Topped p (top_up_loop k policy just left cursor (r, p)).1
unfolding top_up_loop
top_up_loop-Topped k policy just zero cursor r p v = (v, refl)
top_up_loop-Topped k policy just (suc left) cursor r p v =
    elim (Option-cases (predict_next policy cursor)) [
      | inl e ↦ rw (e, top_up_loop) (v, refl)
      | inr (idx, e) ↦ elim (Option-cases (get_elem? r.chunks idx)) [
        | inl out ↦ rw (e, top_up_loop, out) (v, refl)
        | inr (c, got) ↦ elim (Bool-cases (idx == just)) [
          | inl same ↦ rw (e, top_up_loop, got, same) (v, refl)
          | inr other ↦
              let now = k.clock r.clock_reads in
              let (w, first) = step_Topped p idx c now v in
              let (u, rest) =
                top_up_loop-Topped k policy just left idx
                  (record r { clock_reads = r.clock_reads + 1 })
                  (if wanted p idx c now then enqueue_prefetch p idx else p) w in
              rw (e, top_up_loop, got, other) (u, rest ∙ first)
        ]
      ]
    ]

pub top_up-Topped :
    (k : Kernel) (just : ℕ) (r : Region) (p : Pool) → IsPool p → Topped p (top_up k just (r, p)).1
unfolding top_up
top_up-Topped k just r p v = finish r.policy
  where
    finish :
        (o : Option Policy)
        → Topped p
            (elim o as (λ _. Region × Pool) [
              | none ↦ (r, p)
              | some policy ↦
                  top_up_loop k policy just
                    (if ltb p.outstanding p.depth then sub32 p.depth p.outstanding else 0)
                    just
                    (r, p)
            ]).1
    finish none = (v, refl)
    finish (some policy) = top_up_loop-Topped k policy just _ just r p v
