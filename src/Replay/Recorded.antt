-- ===== src/Replay/Recorded.antt =====
-- From a replay to the solver: src/replay.c, src/trace.c and src/belady_main.c together.
use residctl.Prelude.{
  if◌then◌else◌, false, not, ◌&&◌, ◌==◌, add64, get_or, not, get_or, add64, ℕ, zero, suc, ◌*◌, ◌%◌,
  ◌^◌, ◌≡◌, ◌<◌, refl, sym, ap, subst, ◌∙◌, Bool, true, List, [], ◌∷◌, ◌++◌, map, Option, arith,
}
use native.Mathlib.Nat.{mod-le}
use mathlib.Core.List.{map-append}
use residctl.Result
use residctl.Result.{Result, ok, ◌>>=◌, guard, >>=-eq-ok}
use residctl.Trace.{Record, File, trace_open, record_all, load_reference_string}
use residctl.Trace.RoundTrip.{IsWrite, IsRead, AreSmall, load_reference_string-record_all}
use residctl.Replay.{
  total_steps, Config, n_chunks, Account, account, reference, replay_cyclic, Driver, Run,
  end_replay,
}
use residctl.Replay.Cyclic.{consumptions, accounts, replayed, replay_cyclic-replayed}
use residctl.Replay.Invariant.{IsConfig}
use residctl.Replay.Lookahead.{Finished}
use residctl.Replay.Finish.{Run-replay_cyclic}

account-records :
    (cfg : Config) (i : ℕ) (a : Account)
    → cfg.traced ≡ true
    → (account cfg i a).records ≡ a.records ++ (reference cfg (add64 a.ref_seq 1) i ∷ [])
unfolding account
account-records cfg i a on = by_trace cfg.traced on
  where
    rs : List Record
    rs = a.records ++ (reference cfg (add64 a.ref_seq 1) i ∷ [])

    bytes : ℕ
    bytes = add64 a.bytes_touched (get_or cfg.lens i 0)

    a' : Account
    a' = record { records = a.records; ref_seq = a.ref_seq; bytes_touched = bytes }

    by_trace :
        (b : Bool)
        → b ≡ true
        → (if b then record a' { records = rs; ref_seq = add64 a.ref_seq 1 } else a').records ≡ rs
    by_trace true e = refl
    by_trace false e = cc e

-- The records of the first `k` steps name their chunks.
accounts-chunks :
    (cfg : Config) (k : ℕ)
    → cfg.traced ≡ true
    → map (λ r. r.chunk_id) (accounts cfg k).records ≡ consumptions cfg k
unfolding account
accounts-chunks cfg zero on = refl
accounts-chunks cfg (suc k) on =
    let i : ℕ = k % n_chunks cfg in
    let a = accounts cfg k in
    ap (map (λ r. r.chunk_id)) (account-records cfg i a on)
    ∙ (map-append (λ r. r.chunk_id) a.records (reference cfg (add64 a.ref_seq 1) i ∷ [])
        ∙ ap (λ xs. xs ++ (i ∷ [])) (accounts-chunks cfg k on))

AreSmall-append :
    (rs : List Record) (r : Record) → AreSmall rs → r.chunk_id < 2 ^ 32 → AreSmall (rs ++ (r ∷ []))
AreSmall-append [] r small here = (here, tt)
AreSmall-append (x ∷ rs) r (first, small) here = (first, AreSmall-append rs r small here)

accounts-AreSmall :
    (cfg : Config) (k : ℕ) → cfg.traced ≡ true → k < 2 ^ 32 → AreSmall (accounts cfg k).records
unfolding account
accounts-AreSmall cfg zero on small = tt
accounts-AreSmall cfg (suc k) on small =
    let i : ℕ = k % n_chunks cfg in
    let a = accounts cfg k in
    subst AreSmall (sym (account-records cfg i a on)) (
      AreSmall-append a.records (reference cfg (add64 a.ref_seq 1) i)
        (accounts-AreSmall cfg k on (omega (arith, small)))
        (omega (arith, small, mod-le k (n_chunks cfg))))

-- For a `write` that writes at least one byte and no more than it is given at each call, and a `read` that
-- returns what is wanted or all that is left: once the threads of a replay with a reference trace have ended
-- their loops, in whatever order they ran and in both modes of the signal, the trace can be written, and what
-- `load_reference_string` reads from it is the string of the chunks that the pager was told of, which is the
-- cyclic string of all passes.
pub load_reference_string-Run :
    (cfg : Config) {n : ℕ} {d : Driver} (write read : ℕ → ℕ → Option ℕ)
    → IsConfig cfg
    → Run cfg n d
    → Finished cfg d
    → cfg.traced ≡ true
    → IsWrite write
    → IsRead read
    → (f : File) × ((trace_open write 0 >>= record_all write d.out.tally.records) ≡ ok f)
      × (load_reference_string read f.bytes ≡ ok d.out.consumed)
      × (d.out.consumed ≡ consumptions cfg (cfg.n_passes * n_chunks cfg))
unfolding end_replay
load_reference_string-Run cfg {n} {d} write read fine run finished on w rd =
    let total : ℕ = cfg.n_passes * n_chunks cfg in
    let same : d.out ≡ replayed cfg total =
      ended (Run-replay_cyclic cfg fine run finished) ∙ replay_cyclic-replayed cfg in
    let tally : d.out.tally.records ≡ (accounts cfg total).records =
      ap (λ o. o.tally.records) same in
    let said : d.out.consumed ≡ consumptions cfg total = ap (λ o. o.consumed) same in
    let small : AreSmall (accounts cfg total).records =
      accounts-AreSmall cfg total on fine.no_wrap in
    let (f, written, loaded) =
      (load_reference_string-record_all write read (accounts cfg total).records w rd small).0 in
    (
      f,
      ap (λ rs. trace_open write 0 >>= record_all write rs) tally ∙ written,
      loaded ∙ ap ok (accounts-chunks cfg total on ∙ sym said),
      said,
    )
  where
    ended : end_replay cfg d ≡ ok (replay_cyclic cfg) → d.out ≡ replay_cyclic cfg
    ended e =
        let (_, _, same) =
          >>=-eq-ok
            (guard (not (cfg.notify_all && not (d.notify_count == total_steps cfg)))
              Result.signals_miscounted)
            (λ _. ok d.out) e in
        cc same
