-- ===== src/Tests/Replays.antt =====
-- Replays of two chunks by two threads, and the results on src/replay.c applied at them.
use residctl.Prelude.{
  ◌==◌, ◌%◌, if◌then◌else◌, subst, ℕ, zero, suc, ◌+◌, ◌*◌, ◌≡◌, ◌≤◌, ◌<◌, refl, ◌⊎◌, true, List, [],
  ◌∷◌, Option, some, none, arith, get_elem?, min,
}
use residctl.Result.{ok, ◌>>=◌}
use residctl.Trace.{File, trace_open, record_all, load_reference_string}
use residctl.Replay.{
  emitting, Config, total_steps, account, replay_cyclic, waiting, reading, Driver, begin_replay,
  is_full, may_start, start_step, mark_done, signal, emit, advance, Run, begin, more, end_replay,
}
use residctl.Replay.Cyclic.{consumptions}
use residctl.Replay.Invariant.{IsConfig}
use residctl.Replay.Lookahead.{Run-window, Run-progress, Finished}
use residctl.Replay.Finish.{Run-bounded, Run-replay_cyclic}
use residctl.Replay.Pages.{times, ArePages, shared, my_reads-once}
use residctl.Replay.{my_reads}
use residctl.Replay.Recorded.{load_reference_string-Run}

abbrev pub two_by_two : Config
two_by_two = record {
  lens = 8192 ∷ 5000 ∷ [];
  n_passes = 1;
  traced = true;
  now = λ n. 100 * n;
  n_threads = 2;
  window = 1;
  notify_all = true;
}

two_by_two-IsConfig : IsConfig two_by_two
two_by_two-IsConfig = record {
  some_chunk = omega arith;
  no_wrap = omega arith;
  some_thread = omega arith;
  few_threads = omega arith;
}

-- The threads take their steps in the order of the list.
abbrev follow : List ℕ → Driver → Option Driver
follow [] d = some d
follow (t ∷ ts) d = elim (advance two_by_two t d) [ none ↦ none | some d' ↦ follow ts d' ]

abbrev plus : List ℕ → ℕ → ℕ
plus [] n = n
plus (t ∷ ts) n = plus ts (suc n)

follow-Run :
    (ts : List ℕ) (n : ℕ) (d d' : Driver)
    → Run two_by_two n d
    → follow ts d ≡ some d'
    → Run two_by_two (plus ts n) d'
follow-Run [] n d d' run e = let same : d ≡ d' = cc e in subst (Run two_by_two n) same run
follow-Run (t ∷ ts) n d d' run e =
    by_step (advance two_by_two t d) refl e (λ x r rest. follow-Run ts (suc n) x d' r rest)
  where
    by_step :
        (o : Option Driver)
        → advance two_by_two t d ≡ o
        → elim o [ none ↦ none | some x ↦ follow ts x ] ≡ some d'
        → ((x : Driver)
            → Run two_by_two (suc n) x
            → follow ts x ≡ some d'
            → Run two_by_two (plus (t ∷ ts) n) d')
        → Run two_by_two (plus (t ∷ ts) n) d'
    by_step none here e go = cc e
    by_step (some x) here e go = go x (more n t run here) e

-- Thread 0 is one step ahead of thread 1.
abbrev part_way : Driver
part_way = record {
  completed = 1 ∷ 0 ∷ [];
  notify_count = 0;
  places = emitting 0 ∷ reading 0 ∷ [];
  out = (begin_replay two_by_two).out;
}

part_way-Run : Run two_by_two 3 part_way
unfolding advance start_step mark_done may_start total_steps
part_way-Run = follow-Run (0 ∷ 1 ∷ 0 ∷ []) 0 (begin_replay two_by_two) part_way begin refl

abbrev order : List ℕ
order = 0 ∷ 0 ∷ 1 ∷ 1 ∷ 1 ∷ 1 ∷ 1 ∷ 0 ∷ 0 ∷ 0 ∷ 0 ∷ 0 ∷ []

abbrev at_end : Driver
at_end = record {
  completed = 2 ∷ 2 ∷ [];
  notify_count = 2;
  places = waiting 2 ∷ waiting 2 ∷ [];
  out = record {
    consumed = 0 ∷ 1 ∷ [];
    tally = record {
      records =
          record {
            seq = 1;
            timestamp_ns = 100;
            chunk_id = 0;
            fault_type = 255;
            was_prefetched = 255;
          }
          ∷ record {
            seq = 2;
            timestamp_ns = 200;
            chunk_id = 1;
            fault_type = 255;
            was_prefetched = 255;
          }
          ∷ [];
      ref_seq = 2;
      bytes_touched = 13192;
    };
  };
}

at_end-Run : Run two_by_two 12 at_end
unfolding advance start_step mark_done may_start total_steps signal emit account
at_end-Run = follow-Run order 0 (begin_replay two_by_two) at_end begin refl

at_end-Finished : Finished two_by_two at_end
unfolding total_steps
at_end-Finished zero p got = cc got
at_end-Finished (suc zero) p got = cc got
at_end-Finished (suc (suc t)) p got = cc got

Run-window_example :
    (m : ℕ) × (m ≤ total_steps two_by_two)
    × ((s : ℕ) → s < m → is_full two_by_two s part_way.completed ≡ true)
    × ((t s : ℕ)
        → get_elem? part_way.places t ≡ some (reading s)
        → (m ≤ s) × (s ≤ m + two_by_two.window))
Run-window_example = Run-window two_by_two {n = 3} {d = part_way} two_by_two-IsConfig part_way-Run

Run-progress_example :
    Finished two_by_two part_way
    ⊎ ((t : ℕ) × (d' : Driver) × (advance two_by_two t part_way ≡ some d'))
Run-progress_example =
    Run-progress two_by_two {n = 3} {d = part_way} two_by_two-IsConfig part_way-Run

Run-bounded_example : 12 ≤ 4 * ((1 * 2) * 2)
Run-bounded_example = Run-bounded two_by_two {n = 12} {d = at_end} two_by_two-IsConfig at_end-Run

Run-replay_cyclic_example : end_replay two_by_two at_end ≡ ok (replay_cyclic two_by_two)
Run-replay_cyclic_example =
    Run-replay_cyclic two_by_two {n = 12} {d = at_end} two_by_two-IsConfig at_end-Run
      at_end-Finished

my_reads-once_example :
    ((j tid : ℕ)
      → j * 4096 < 20000
      → times (j * 4096) (my_reads 4096 3 tid 20000 5 0 0) ≡ (if (j % 3) == tid then 1 else 0))
    × ((tid : ℕ) → ArePages 4096 20000 (my_reads 4096 3 tid 20000 5 0 0))
    × (shared 4096 3 20000 3 5 0 0 ≡ 20000)
my_reads-once_example = my_reads-once 4096 3 20000 5 (omega arith) (omega arith) (omega arith)

abbrev whole_write : ℕ → ℕ → Option ℕ
whole_write i want = some want

abbrev whole_read : ℕ → ℕ → Option ℕ
whole_read want left = some (min want left)

load_reference_string-Run_example :
    (f : File) × ((trace_open whole_write 0 >>= record_all whole_write at_end.out.tally.records)
      ≡ ok f)
    × (load_reference_string whole_read f.bytes ≡ ok at_end.out.consumed)
    × (at_end.out.consumed ≡ consumptions two_by_two (1 * 2))
load_reference_string-Run_example =
    load_reference_string-Run two_by_two {n = 12} {d = at_end} whole_write whole_read
      two_by_two-IsConfig at_end-Run at_end-Finished refl
      (λ i want pos. (want, refl, pos, omega arith)) (λ want left. refl)
