-- ===== src/Sync/Inline.antt =====
-- The prefetch inside the synchronous handler keeps the region sound and the chunk just fetched as it is,
-- src/prefetch.c.
use residctl.Prelude.{
  ℕ, ◌+◌, ◌^◌, ◌<◌, ◌≡◌, ◌≢◌, refl, sym, subst, ◌∙◌, ap, inl, inr, Bool, true, false, some, none,
  Option, arith, get_elem?, set, add32, sub32, add64, get_elem?-set_self, get_elem?-set_ne,
  get_elem?-lt, if◌then◌else◌, ◌==◌, Bool-cases, Option-cases,
}
use residctl.Result.{Abort, Result, ok, abort, ◌>>=◌}
use residctl.Result
use residctl.State.{Chunk, Region, Policy}
use residctl.Kernel.{Kernel}
use residctl.Retain.{entries}
use residctl.Policy.{predict_next}
use residctl.Policy.Scan.{evictable}
use residctl.Fetch.Reads.{IsPread, IsInFile}
use residctl.Budget.{ensure_budget_prefetch, pin_chunk, unpin_chunk}
use residctl.Budget.Accounts.{NotIn, Held-NotIn, Inv}
use residctl.Budget.Frame.{Frame}
use residctl.Budget.Admit.{Admitted, ensure_budget_prefetch-Admitted}
use residctl.Pool.{is_absent}
use residctl.Worker.Settle.{unpin_eq}
use residctl.Prefetch.{
  start_prefetch, drop_inline, fetch_and_retain, prefetch_inline, maybe_prefetch,
}
use residctl.Prefetch.Edits.{flying_from, start_prefetch_eq}
use residctl.System.Owners.{fetching-evictable}
use residctl.System.Landings.{Inv-pin}
use residctl.System.Prefetches.{Inv-away, absent-resident}
use residctl.Sync.Besides.{Beside, Spares, pin_eq, dropped-Spares, stored-Spares}

-- Up to the unpinning of `just`.
module _ (k : Kernel) (just idx : ℕ) (j c : Chunk) (r : Region) (apart : idx ≢ just)
    (reads : IsPread k) (one : j.pin ≡ 1) (here : get_elem? r.chunks idx ≡ some c)
    (away : is_absent c.state ≡ true) (free : c.pin ≡ 0) (small : c.len < 2 ^ 62)
    (within : IsInFile r c) (v : Beside just j r) where
  abbrev flying : Chunk
  flying = flying_from (k.clock r.clock_reads) (add64 r.fault_seq 1) c

  abbrev off : Region
  off = record r {
    chunks = set r.chunks idx flying;
    fault_seq = add64 r.fault_seq 1;
    clock_reads = r.clock_reads + 1;
  }

  abbrev held_twice : Chunk
  held_twice = record j { pin = add32 j.pin 1 }

  abbrev asking : Region
  asking = record off { chunks = set off.chunks just held_twice }

  at_just : get_elem? off.chunks just ≡ some j
  at_just = get_elem?-set_ne r.chunks idx just flying apart ∙ v.1

  asking-Inv : Inv asking
  asking-Inv = Inv-pin off just j (add32 j.pin 1) off.clock_reads off.stats at_just v.2 (
      Inv-away r idx c flying (add64 r.fault_seq 1) (r.clock_reads + 1) r.stats here
        (absent-resident c away) refl v.0)

  at_idx : get_elem? asking.chunks idx ≡ some flying
  at_idx =
      get_elem?-set_ne off.chunks just idx held_twice (λ same. apart (sym same))
      ∙ get_elem?-set_self r.chunks idx flying (get_elem?-lt r.chunks idx here)

  out : NotIn idx (entries r.pinned)
  out =
      Held-NotIn r.chunks (entries r.pinned) idx c v.0.retained.held here
        (inl (absent-resident c away))

  -- The second pin of `just` ends.
  unpinned-Beside :
      (s : Region)
      → Inv s
      → Frame asking s
      → (get_elem? (unpin_chunk s just).chunks idx ≡ some flying)
        × Beside just j (unpin_chunk s just)
        × ((unpin_chunk s just).settings ≡ r.settings)
        × ((unpin_chunk s just).reserved_bytes ≡ s.reserved_bytes)
        × ((unpin_chunk s just).pinned ≡ s.pinned)
  unpinned-Beside s w f =
      let twice =
        get_elem?-set_self off.chunks just held_twice (get_elem?-lt off.chunks just at_just) in
      let busy : evictable held_twice ≡ false = ground (arith, one) in
      let kept_j = f.kept just held_twice twice busy v.2 in
      let kept = f.kept idx flying at_idx (fetching-evictable flying refl) out in
      let once = record held_twice { pin = sub32 held_twice.pin 1 } in
      let count : sub32 (add32 j.pin 1) 1 ≡ j.pin = omega (arith, one) in
      let is_j : once ≡ j = ap {A = ℕ} {B = Chunk} (λ n. record j { pin = n }) count in
      rw (unpin_eq s just held_twice kept_j) (
        get_elem?-set_ne s.chunks just idx once (λ same. apart (sym same)) ∙ kept,
        (
          Inv-pin s just held_twice (sub32 held_twice.pin 1) s.clock_reads s.stats kept_j
              (f.queue just v.2) w,
          get_elem?-set_self s.chunks just once (get_elem?-lt s.chunks just kept_j) ∙ ap some is_j,
          f.queue just v.2,
        ),
        f.settings,
        refl,
        refl,
      )

  run-Spares :
      (o : Result (Bool × Region))
      → Admitted asking idx c.len o
      → Spares just j r (do
        (granted, r') ← o
        let unpinned = unpin_chunk r' just
        if granted then fetch_and_retain k idx c unpinned else ok (drop_inline unpinned idx))
  run-Spares (abort x) fault = inl (inl fault)
  run-Spares (ok (true, s)) (((w, f), exact), queue, _) =
      let (kept, beside, settings, same, pinned) = unpinned-Beside s w f in
      stored-Spares k just idx j c apart reads one free r within (k.clock r.clock_reads)
        (add64 r.fault_seq 1) (unpin_chunk s just) kept settings (same ∙ exact)
        (rw (pinned, queue) out) beside
  run-Spares (ok (false, s)) ((w, f), _, _, (exact, _, _)) =
      let (kept, beside, settings, same, _) = unpinned-Beside s w f in
      dropped-Spares k just idx j c apart reads one free r within (k.clock r.clock_reads)
        (add64 r.fault_seq 1) (unpin_chunk s just) kept settings (same ∙ exact) beside

  prefetch_inline-Spares : Spares just j r (prefetch_inline k just idx c r)
  unfolding prefetch_inline
  prefetch_inline-Spares =
      let admitted = ensure_budget_prefetch-Admitted k asking idx flying at_idx small asking-Inv in
      let asked : pin_chunk (start_prefetch k idx r) just ≡ asking =
        ap (λ x. pin_chunk x just) (start_prefetch_eq k idx r c here) ∙ pin_eq off just j at_just in
      subst
        (λ x. Spares just j r (do
          (granted, r') ← ensure_budget_prefetch k x idx
          let unpinned = unpin_chunk r' just
          if granted then fetch_and_retain k idx c unpinned else ok (drop_inline unpinned idx)))
        (sym asked) (run-Spares (ensure_budget_prefetch k asking idx) admitted)

-- On a sound region whose absent chunks have no pin, with chunks inside the file and a pread that returns no
-- more than what is wanted, `maybe_prefetch` after the fetch of a chunk that has one pin and is not in the
-- retention queue leaves that chunk, the settings and the reservations as they are and the region sound, or
-- ends the process for what the kernel did or for a prediction outside the table.
pub maybe_prefetch-Spares :
    (k : Kernel) (just : ℕ) (j : Chunk) (r : Region)
    → IsPread k
    → j.pin ≡ 1
    → ((i : ℕ) (c : Chunk)
        → get_elem? r.chunks i ≡ some c
        → (c.len < 2 ^ 62) × IsInFile r c × (is_absent c.state ≡ true → c.pin ≡ 0))
    → Beside just j r
    → Spares just j r (maybe_prefetch k just r)
unfolding maybe_prefetch
maybe_prefetch-Spares k just j r reads one chunks v = finish r.policy
  where
    target_case :
        (idx : ℕ)
        → Spares just j r (elim (get_elem? r.chunks idx) [
          | none ↦ abort Result.predicted_out_of_range
          | some c ↦
              if idx == just
              then ok r
              else if is_absent c.state
              then prefetch_inline k just idx c r
              else ok r
        ])
    target_case idx = elim (Option-cases (get_elem? r.chunks idx)) [
      | inl beyond ↦ rw beyond (inr refl)
      | inr (c, here) ↦ elim (Bool-cases (idx == just)) [
        | inl same ↦ rw (here, same) (v, refl, refl)
        | inr other ↦ elim (Bool-cases (is_absent c.state)) [
          | inr busy ↦ rw (here, other, busy) (v, refl, refl)
          | inl away ↦
              let (small, within, free) = chunks idx c here in
              rw (here, other, away)
                (prefetch_inline-Spares k just idx j c r (λ same. absurd (ground arith)) reads one
                  here away (free away) small within v)
        ]
      ]
    ]

    predicted :
        (o : Option ℕ)
        → Spares just j r (elim o [
          | none ↦ ok r
          | some idx ↦ elim (get_elem? r.chunks idx) [
            | none ↦ abort Result.predicted_out_of_range
            | some c ↦
                if idx == just
                then ok r
                else if is_absent c.state
                then prefetch_inline k just idx c r
                else ok r
          ]
        ])
    predicted none = (v, refl, refl)
    predicted (some idx) = target_case idx

    finish :
        (o : Option Policy)
        → Spares just j r (elim o [
          | none ↦ ok r
          | some policy ↦ elim (predict_next policy just) [
            | none ↦ ok r
            | some idx ↦ elim (get_elem? r.chunks idx) [
              | none ↦ abort Result.predicted_out_of_range
              | some c ↦
                  if idx == just
                  then ok r
                  else if is_absent c.state
                  then prefetch_inline k just idx c r
                  else ok r
            ]
          ]
        ])
    finish none = (v, refl, refl)
    finish (some policy) = predicted (predict_next policy just)
