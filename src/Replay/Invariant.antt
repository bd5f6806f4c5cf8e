-- ===== src/Replay/Invariant.antt =====
-- What holds of the threads of a replay at every moment, src/replay.c.
use residctl.Prelude.{
  ℕ, suc, ◌+◌, ◌*◌, ◌^◌, ◌≡◌, ◌≤◌, ◌<◌, true, false, List, some, length, get_elem?, get_or,
}
use residctl.Replay.{
  Config, n_chunks, total_steps, Place, waiting, reading, signalling, emitting, Driver,
}
use residctl.Replay.Cyclic.{consumptions, accounts}
use residctl.Replay.Places.{done, count_above}

-- At least one chunk, and as many references as a `uint32_t` counts; at least one thread.
pub record IsConfig (cfg : Config) : Type 0 where
  pub some_chunk : 0 < n_chunks cfg
  pub no_wrap : cfg.n_passes * n_chunks cfg < 2 ^ 32
  pub some_thread : 0 < cfg.n_threads
  pub few_threads : cfg.n_threads < 2 ^ 32

-- A place within the steps; only thread 0 emits.
abbrev pub Fits : Config → ℕ → Place → Type 0
Fits cfg t (waiting s) = s ≤ total_steps cfg
Fits cfg t (reading s) = s < total_steps cfg
Fits cfg t (signalling s) = s < total_steps cfg
Fits cfg t (emitting s) = (s < total_steps cfg) × (t ≡ 0)

-- The steps that thread 0 has accounted for, and those that it has begun.
abbrev pub emitted : Place → ℕ
emitted (waiting s) = s
emitted (reading s) = s
emitted (signalling s) = s
emitted (emitting s) = s

abbrev pub begun : Place → ℕ
begun (waiting s) = s
begun (reading s) = suc s
begun (signalling s) = suc s
begun (emitting s) = suc s

-- The signals of --consumption-signal all-threads: their count is the first step that is not full, and
-- the thread that made the last step full is the only one that may still have to signal it.
pub record IsHeard (cfg : Config) (ps : List Place) (m : ℕ) (consumed : List ℕ) : Type 0 where
  pub lower : (t : ℕ) (p : Place) → get_elem? ps t ≡ some p → m ≤ done p
  pub attained : (t : ℕ) × (p : Place) × (get_elem? ps t ≡ some p) × (done p ≡ m)
  pub single :
      (t u s s' : ℕ)
      → get_elem? ps t ≡ some (signalling s)
      → get_elem? ps u ≡ some (signalling s')
      → t ≡ u
  pub owed :
      (t s : ℕ)
      → get_elem? ps t ≡ some (signalling s)
      → (m ≡ suc s) × (consumed ≡ consumptions cfg s)
  pub paid : ((t s : ℕ) → get_elem? ps t ≡ some (signalling s) → ⊥) → consumed ≡ consumptions cfg m

-- Those of --consumption-signal tid0.
pub record IsTold (cfg : Config) (ps : List Place) (m : ℕ) (consumed : List ℕ) : Type 0 where
  pub silent : (t s : ℕ) → get_elem? ps t ≡ some (signalling s) → ⊥
  pub uncounted : m ≡ 0
  pub told : (p : Place) → get_elem? ps 0 ≡ some p → consumed ≡ consumptions cfg (begun p)

-- `completed` counts the threads that have marked a step, and nobody reads more than the window ahead.
pub record IsPlaced (cfg : Config) (cs : List ℕ) (ps : List Place) : Type 0 where
  pub width : length ps ≡ cfg.n_threads
  pub extent : length cs ≡ total_steps cfg
  pub counts : (s : ℕ) → s < total_steps cfg → get_or cs s 0 ≡ count_above s ps
  pub fits : (t : ℕ) (p : Place) → get_elem? ps t ≡ some p → Fits cfg t p
  pub ahead :
      (t u s : ℕ) (q : Place)
      → get_elem? ps t ≡ some (reading s)
      → get_elem? ps u ≡ some q
      → s ≤ done q + cfg.window

pub record IsDriver (cfg : Config) (d : Driver) : Type 0 where
  pub placed : IsPlaced cfg d.completed d.places
  pub accounted :
      (p : Place) → get_elem? d.places 0 ≡ some p → d.out.tally ≡ accounts cfg (emitted p)
  pub by_all : cfg.notify_all ≡ true → IsHeard cfg d.places d.notify_count d.out.consumed
  pub by_first : cfg.notify_all ≡ false → IsTold cfg d.places d.notify_count d.out.consumed
