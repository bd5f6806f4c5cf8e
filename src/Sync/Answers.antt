-- ===== src/Sync/Answers.antt =====
-- `handle_absent` from the fault to its end, src/pager.c.
use residctl.Prelude.{
  ℕ, ◌+◌, ◌≡◌, refl, sym, subst, ap, inl, Bool, true, false, some, none, Option, get_elem?, set,
  add64, get_elem?-set_self, get_elem?-lt, if◌then◌else◌,
}
use residctl.Result.{Result, ok, abort, ◌>>=◌}
use residctl.State.{Chunk, Region}
use residctl.Kernel.{Kernel}
use residctl.Retain.{entries}
use residctl.Policy.{on_fault}
use residctl.Fetch.Reads.{IsPread}
use residctl.Budget.Accounts.{NotIn, Held-NotIn, Inv}
use residctl.Pool.{Pool, is_absent}
use residctl.Worker.{abandon_fetch, tick, take_off}
use residctl.Worker.Settle.{update_eq}
use residctl.Pager.{tell_policy}
use residctl.System.Prefetches.{Inv-away, absent-resident}
use residctl.Sync.{reserve_fault, finish_fault, handle_absent}
use residctl.Sync.Landing.{Answered}
use residctl.Sync.Waits.{Fetchable, AreCalm, Obtained, reserve_fault-Obtained}
use residctl.Sync.Flights.{Fetchable-set, flown, finish_fault-Answered, abandoned-Answered}

-- The region where the chunk is in flight and the policy knows of the fault.
abbrev told : Kernel → ℕ → Region → Chunk → Region
told k idx r c = record r {
  chunks = set r.chunks idx (flown (k.clock r.clock_reads) (add64 r.fault_seq 1) c);
  fault_seq = add64 r.fault_seq 1;
  clock_reads = r.clock_reads + 1;
  policy = elim r.policy [ none ↦ none | some policy ↦ some (on_fault policy idx) ];
}

told_eq :
    (k : Kernel) (idx : ℕ) (r : Region) (c : Chunk)
    → get_elem? r.chunks idx ≡ some c
    → tell_policy (take_off (tick r) idx (k.clock r.clock_reads)) idx ≡ told k idx r c
told_eq k idx r c got =
    ap (λ x. tell_policy x idx)
      (update_eq (record (tick r) { fault_seq = add64 r.fault_seq 1 }) idx c _ got)

-- On a sound region whose chunks lie in the file and whose absent chunks have no pin, with a pread that
-- returns no more than what is wanted, and with other threads that during a sleep keep the region sound, leave
-- the handler's chunk as it is while it is in flight outside the retention queue, and keep every chunk in the
-- file and every absent one without a pin, `handle_absent` of an absent chunk returns with the region sound
-- and the chunk resident or absent, with no pin, whatever the depth of the prefetch, or ends the process for
-- what the kernel did or a prediction outside the table. So other fetches may land, evict and be counted
-- during the sleep.
pub handle_absent-Answered :
    (k : Kernel) (sleep_others : ℕ → Region → Region) (idx : ℕ) (r : Region) (p : Option Pool)
    (c : Chunk)
    → IsPread k
    → AreCalm idx sleep_others
    → get_elem? r.chunks idx ≡ some c
    → is_absent c.state ≡ true
    → Fetchable r
    → Inv r
    → Answered idx (handle_absent k sleep_others idx (r, p))
unfolding handle_absent
handle_absent-Answered k sleep_others idx r p c reads calm got away chunks v =
    let small = (chunks idx c got).0 in
    rw got (
      subst
        (λ x. Answered idx (do
          (granted, r') ← reserve_fault k sleep_others c.len x
          let finished = finish_fault k idx c (r', p)
          if granted then finished else ok (abandon_fetch r' idx, p)))
        (sym (told_eq k idx r c got))
        (after (reserve_fault k sleep_others c.len s)
          (reserve_fault-Obtained k sleep_others idx c.len s calm small sound)))
  where
    s : Region
    s = told k idx r c

    free : c.pin ≡ 0
    free = (chunks idx c got).2 away

    flying : Chunk
    flying = flown (k.clock r.clock_reads) (add64 r.fault_seq 1) c

    here : get_elem? s.chunks idx ≡ some flying
    here = get_elem?-set_self r.chunks idx flying (get_elem?-lt r.chunks idx got)

    out : NotIn idx (entries r.pinned)
    out =
        Held-NotIn r.chunks (entries r.pinned) idx c v.retained.held got
          (inl (absent-resident c away))

    sound : Inv s
    sound =
        let w =
          Inv-away r idx c flying (add64 r.fault_seq 1) (r.clock_reads + 1) r.stats got
            (absent-resident c away) refl v in
        record {
          accounted = record {
            resident = w.accounted.resident;
            within = w.accounted.within;
            small = w.accounted.small;
          };
          retained = record { ring = w.retained.ring; held = w.retained.held };
        }

    around : Fetchable s
    around = Fetchable-set r s idx c flying got refl refl (refl, refl, refl) (λ e. free) chunks

    after :
        (o : Result (Bool × Region))
        → Obtained idx s c.len o
        → Answered idx (do
          (granted, r') ← o
          let finished = finish_fault k idx c (r', p)
          if granted then finished else ok (abandon_fetch r' idx, p))
    after (abort x) fault = inl (inl fault)
    after (ok (true, t)) (w, f, enough) =
        finish_fault-Answered k idx c reads (k.clock r.clock_reads) (add64 r.fault_seq 1) free t p
          (f.kept flying here refl out).0 enough (f.kept flying here refl out).1 (f.chunks around) w
    after (ok (false, t)) (w, f) =
        abandoned-Answered k idx c reads (k.clock r.clock_reads) (add64 r.fault_seq 1) free t p
          (f.kept flying here refl out).0 w
