-- ===== src/Kernel.antt =====
-- The kernel and the hardware as the pager sees them: the answers of each kind of call, in the order in
-- which they are made.
use residctl.Prelude.{ℕ, Bool, Option}

pub record Kernel : Type 0 where
  -- the `shmem` field of a snapshot of memory.stat; none if the file or the field cannot be read
  pub shmem : ℕ → Option ℕ
  -- whether fallocate(FALLOC_FL_PUNCH_HOLE) succeeds
  pub punch : ℕ → Bool
  -- clock_gettime(CLOCK_MONOTONIC), in nanoseconds
  pub clock : ℕ → ℕ
  -- pread, by the bytes wanted: the bytes read, 0 at the end of the file; none for an error other than EINTR, after which the
  -- call is made again and the answer here is that of the last try
  pub pread : ℕ → ℕ → Option ℕ
  -- ioctl(UFFDIO_CONTINUE): the bytes mapped, or none if it fails
  pub continue : ℕ → Option ℕ
