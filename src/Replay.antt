-- ===== src/Replay.antt =====
-- The workload driver, src/replay.c: `replay_cyclic`, and `replay_cyclic_mt` with its threads, which read
-- each chunk together and run ahead of each other by a bounded window of steps.
pub mod Cyclic
pub mod Places
pub mod Invariant
pub mod Steps
pub mod Signals
pub mod Moves
pub mod Marking
pub mod Reaching
pub mod Lookahead
pub mod Finish
pub mod Pages
pub mod Recorded
use residctl.Prelude.{
  ◌^◌, ℕ, zero, suc, ◌+◌, ◌-◌, ◌*◌, ◌%◌, ◌==◌, ◌≡◌, List, [], ◌∷◌, ◌++◌, Bool, true, false, not,
  ◌&&◌, Option, none, some, if◌then◌else◌, length, get_or, get_elem?, set, replicate, ltb, add32,
  add64,
}
use residctl.Result.{Result, ok, guard, ◌>>◌}
use residctl.Result
use residctl.Trace.{Record}

-- The arguments of a replay: the length of each chunk of the region, the passes, whether there is a
-- `ref_trace`, and the reading of the clock for each of its records.
pub record Config : Type 0 where
  pub lens : List ℕ
  pub n_passes : ℕ
  pub traced : Bool
  pub now : ℕ → ℕ
  pub n_threads : ℕ
  pub window : ℕ
  pub notify_all : Bool  -- consumption_signal_all

abbrev pub n_chunks : Config → ℕ
n_chunks cfg = length cfg.lens

-- `n_passes * r->n_chunks`, as a `uint32_t`.
unfoldable pub total_steps : Config → ℕ
total_steps cfg = (cfg.n_passes * n_chunks cfg) % 2 ^ 32

-- What the run has recorded: the records of `ref_trace`, `ref_seq` and `bytes_touched`.
pub record Account : Type 0 where
  pub records : List Record
  pub ref_seq : ℕ
  pub bytes_touched : ℕ

abbrev pub no_account : Account
no_account = record { records = []; ref_seq = 0; bytes_touched = 0 }

-- The record of a reference: TRACE_NA is 255.
abbrev pub reference : Config → ℕ → ℕ → Record
reference cfg seq i = record {
  seq = seq;
  timestamp_ns = cfg.now seq;
  chunk_id = i;
  fault_type = 255;
  was_prefetched = 255;
}

-- A chunk has been read: its bytes are added, and its reference recorded if there is a trace.
unfoldable pub account : Config → ℕ → Account → Account
account cfg i a =
    let a' : Account = record a { bytes_touched = add64 a.bytes_touched (get_or cfg.lens i 0) } in
    if cfg.traced
    then record a' {
      records = a.records ++ (reference cfg (add64 a.ref_seq 1) i ∷ []);
      ref_seq = add64 a.ref_seq 1;
    }
    else a'

-- The chunks of the calls of `pager_notify_access`, in their order, and the account.
pub record Output : Type 0 where
  pub consumed : List ℕ
  pub tally : Account

-- One round of the inner loop of `replay_cyclic`.
abbrev touch : Config → ℕ → Output → Output
touch cfg i o = record { consumed = o.consumed ++ (i ∷ []); tally = account cfg i o.tally }

-- The inner loop of `replay_cyclic`, with `left` chunks to go.
unfoldable pub replay_pass : Config → ℕ → Output → Output
replay_pass cfg zero o = o
replay_pass cfg (suc left) o = replay_pass cfg left (touch cfg (n_chunks cfg - suc left) o)

unfoldable pub replay_passes : Config → ℕ → Output → Output
unfolding replay_pass
replay_passes cfg zero o = o
replay_passes cfg (suc left) o = replay_passes cfg left (replay_pass cfg (n_chunks cfg) o)

-- `replay_cyclic`
unfoldable pub replay_cyclic : Config → Output
unfolding replay_passes
replay_cyclic cfg = replay_passes cfg cfg.n_passes (record { consumed = []; tally = no_account })

-- The pages of a chunk of `len` bytes that thread `tid` of `nt` reads, from page `page_idx` at `off` on, on
-- fuel: for each the offset of the byte that is read and the bytes that are counted for it.
unfoldable pub my_reads : (page nt tid len : ℕ) (fuel page_idx off : ℕ) → List (ℕ × ℕ)
my_reads page nt tid len zero page_idx off = []
my_reads page nt tid len (suc fuel) page_idx off =
    let rest = my_reads page nt tid len fuel (suc page_idx) (off + page) in
    if ltb off len
    then (if (page_idx % nt) == tid
        then (off, (if ltb (len - off) page then len - off else page)) ∷ rest
        else rest)
    else []

-- The bytes that are counted.
abbrev pub my_bytes : List (ℕ × ℕ) → ℕ
my_bytes [] = 0
my_bytes ((off, bytes) ∷ reads) = bytes + my_bytes reads

-- Where a thread stands in `replay_thread_main`, with its step.
pub data Place : Type 0 where
  waiting : ℕ → Place  -- at the head of the loop, before or in `lookahead_wait_to_start`
  reading : ℕ → Place  -- reads its pages of the step's chunk
  signalling : ℕ → Place  -- has made the step full, before `pager_notify_access`
  emitting : ℕ → Place  -- thread 0, before or in `lookahead_wait_full`

-- `lookahead_state_t`, the places of the threads and the output so far.
pub record Driver : Type 0 where
  pub completed : List ℕ
  pub notify_count : ℕ
  pub places : List Place
  pub out : Output

abbrev pub begin_replay : Config → Driver
begin_replay cfg = record {
  completed = replicate (total_steps cfg) 0;
  notify_count = 0;
  places = replicate cfg.n_threads (waiting 0);
  out = record { consumed = []; tally = no_account };
}

-- The test of both waits: all threads have finished the step.
abbrev pub is_full : Config → ℕ → List ℕ → Bool
is_full cfg s completed = not (ltb (get_or completed s 0) cfg.n_threads)

-- What `lookahead_wait_to_start` waits for.
unfoldable pub may_start : Config → ℕ → List ℕ → Bool
may_start cfg s completed =
    if ltb s (cfg.window + 1) then true else is_full cfg (s - (cfg.window + 1)) completed

abbrev pub move : ℕ → Place → Driver → Driver
move t p d = record d { places = set d.places t p }

-- `pager_notify_access` of the chunk of step `s`.
abbrev pub notify : Config → ℕ → Driver → Driver
notify cfg s d = record d {
  out = record { consumed = d.out.consumed ++ ((s % n_chunks cfg) ∷ []); tally = d.out.tally };
}

-- Where a thread goes from `lookahead_mark_done`: thread 0 to `lookahead_wait_full`.
abbrev pub next_place : ℕ → ℕ → Place
next_place t s = if t == 0 then emitting s else waiting (suc s)

-- The start of a step, once it may start.
unfoldable pub start_step : Config → ℕ → ℕ → Driver → Driver
start_step cfg t s d =
    move t (reading s) (if (t == 0) && not cfg.notify_all then notify cfg s d else d)

-- The critical section of `lookahead_mark_done`, behind the reading of the pages.
unfoldable pub mark_done : Config → ℕ → ℕ → Driver → Driver
mark_done cfg t s d =
    let d' : Driver = record d {
      completed = set d.completed s (add32 (get_or d.completed s 0) 1);
    } in
    if get_or d'.completed s 0 == cfg.n_threads
    then (if cfg.notify_all
        then move t (signalling s) (record d' { notify_count = add64 d.notify_count 1 })
        else move t (next_place t s) d')
    else move t (next_place t s) d'

-- The end of `lookahead_mark_done`, outside the lock.
unfoldable pub signal : Config → ℕ → ℕ → Driver → Driver
signal cfg t s d = move t (next_place t s) (notify cfg s d)

-- Thread 0's account of a step that is full.
unfoldable pub emit : Config → ℕ → ℕ → Driver → Driver
emit cfg t s d = move t (waiting (suc s)) (record d {
  out = record { consumed = d.out.consumed; tally = account cfg (s % n_chunks cfg) d.out.tally };
})

abbrev pub step_from : Config → ℕ → Place → Driver → Option Driver
step_from cfg t (waiting s) d =
    if ltb s (total_steps cfg) && may_start cfg s d.completed
    then some (start_step cfg t s d)
    else none
step_from cfg t (reading s) d = some (mark_done cfg t s d)
step_from cfg t (signalling s) d = some (signal cfg t s d)
step_from cfg t (emitting s) d = if is_full cfg s d.completed then some (emit cfg t s d) else none

-- The next step of thread `t` of `replay_thread_main`: none if it waits or its loop has ended.
unfoldable pub advance : Config → ℕ → Driver → Option Driver
advance cfg t d = elim (get_elem? d.places t) [ none ↦ none | some p ↦ step_from cfg t p d ]

-- What the threads reach by `n` steps, in any order.
pub data Run (cfg : Config) : ℕ → Driver → Type 0 where
  begin : Run cfg 0 (begin_replay cfg)
  more : (n t : ℕ) {d d' : Driver} → Run cfg n d → advance cfg t d ≡ some d' → Run cfg (suc n) d'

-- The end of `replay_cyclic_mt`, behind the joins, with its check of the signals.
unfoldable pub end_replay : Config → Driver → Result Output
end_replay cfg d = do
  guard (not (cfg.notify_all && not (d.notify_count == total_steps cfg))) Result.signals_miscounted
  ok d.out
