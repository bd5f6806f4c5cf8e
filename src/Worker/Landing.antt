-- ===== src/Worker/Landing.antt =====
-- The end of a demand fetch: the chunk lands resident or absent, and the region is sound.
use residctl.Prelude.{
  ℕ, ◌≤◌, ◌<◌, ◌≡◌, refl, ap, ◌⊎◌, inl, inr, Bool, true, false, not, List, some, arith, uint32_max,
  if◌then◌else◌, get_elem?, get_elem?-set_self, get_elem?-lt,
}
use residctl.Result.{Abort, Result, ok, abort, ◌>>=◌, ◌>>◌, or_abort, guard}
use residctl.Result
use residctl.State.{Chunk, ChunkState, Region}
use residctl.Kernel.{Kernel}
use residctl.Policy.Scan.{is_resident, evictable}
use residctl.Retain.{entries}
use residctl.Budget.Accounts.{weight, resident_sum-set, Held-set, Held-NotIn, Inv}
use residctl.Budget.Frame.{Frame}
use residctl.Fetch.{Segment, fetch_chunk}
use residctl.Fetch.Reads.{IsPread, IsInFile, Fetched, fetch_chunk-Fetched}
use residctl.Pool.{Pool}
use residctl.Worker.{
  complete_demand, is_fetching, enter, abandon_fetch, reserve_demand, settle_demand, finish_demand,
  do_one_demand,
}
use residctl.Worker.Settle.{Inv-reads}
use residctl.Worker.Demand.{AreConsiderate, Reserved, reserve_demand-Reserved}
use residctl.Worker.Settle.{Done, land, in_flight, update_eq}

finish_demand-Done :
    (k : Kernel) (r : Region) (idx : ℕ) (c : Chunk) (p : Pool)
    → get_elem? r.chunks idx ≡ some c
    → is_fetching c.state ≡ true
    → c.len ≤ r.reserved_bytes
    → c.pin < uint32_max
    → IsPread k
    → IsInFile r c
    → Inv r
    → Done idx c (finish_demand k idx c (r, p))
unfolding finish_demand
finish_demand-Done k r idx c p got flying enough few reads inside v =
    after (fetch_chunk k r c) (fetch_chunk-Fetched k r c reads inside)
  where
    after :
        (o : Result (List Segment × Region))
        → Fetched r c o
        → Done idx c (do
          r'' ← do (segments, r') ← o; ok (settle_demand r' idx c)
          ok (complete_demand k idx (r'', p)))
    after (abort x) fault = inr fault
    after (ok (segments, r')) (_, (n, m, same)) = rw same (
        land k (record r { preads = n; continues = m }) idx c p got flying enough few
          (Inv-reads r n m v))

pub abandon_fetch-Done :
    (r : Region) (idx : ℕ) (c : Chunk) (p : Pool)
    → get_elem? r.chunks idx ≡ some c
    → is_fetching c.state ≡ true
    → Inv r
    → Done idx c (ok (abandon_fetch r idx, p))
unfolding abandon_fetch
abandon_fetch-Done r idx c p got flying v =
    let gone = enter ChunkState.absent 0 c in
    let out : is_resident c.state ≡ false = in_flight c.state flying in
    let empty : weight c ≡ 0 = rw out in
    let sum = resident_sum-set r.chunks idx c gone got in
    let apart = Held-NotIn r.chunks (entries r.pinned) idx c v.retained.held got (inl out) in
    rw (update_eq r idx c (enter ChunkState.absent 0) got) (
      record {
        accounted = record {
          resident = omega (arith, sum, empty, v.accounted.resident);
          within = v.accounted.within;
          small = v.accounted.small;
        };
        retained = record {
          ring = v.retained.ring;
          held = Held-set r.chunks (entries r.pinned) idx gone v.retained.held apart;
        };
      },
      (
        gone,
        get_elem?-set_self r.chunks idx gone (get_elem?-lt r.chunks idx got),
        (inr refl, refl, refl),
      ),
    )

-- The last test of the fetch passes.
checked_Done :
    (idx : ℕ) (c : Chunk) (o : Result (Region × Pool))
    → Done idx c o
    → Done idx c (do
      (r'', p') ← o
      c' ← or_abort (get_elem? r''.chunks idx) Result.out_of_bounds
      guard (not (is_fetching c'.state)) Result.left_fetching
      ok (r'', p'))
checked_Done idx c (abort x) fault = fault
checked_Done idx c (ok (r, p)) (v, (c', got, (state, pin, since))) =
    let still : is_fetching c'.state ≡ false = landed c'.state state in
    rw (got, still) (v, (c', got, (state, pin, since)))
  where
    landed :
        (x : ChunkState)
        → ((x ≡ ChunkState.resident) ⊎ (x ≡ ChunkState.absent))
        → is_fetching x ≡ false
    landed x (inl e) = rw e
    landed x (inr e) = rw e

-- From a sound region, for a chunk in flight with fewer than 2^32 - 1 pins that is not empty, is mapped
-- one to one, starts inside the file (if the file's size is set) and ends below 2^61, with other threads
-- that keep what an eviction keeps and a pread that returns no more than it is asked for, `do_one_demand`
-- ends in one of two ways. It returns, with the region sound, and the chunk is resident or absent, with
-- the pins that it had before and no longer in flight. Or it ends the process for what the kernel did:
-- memory.stat, a punch, a read, an early end of the file or UFFDIO_CONTINUE. So it never evicts a pinned
-- or absent chunk, and never leaves the chunk in flight.
pub do_one_demand-Done :
    (k : Kernel) (sleep_others : ℕ → Region → Region) (r : Region) (p : Pool) (idx : ℕ) (c : Chunk)
    → AreConsiderate sleep_others
    → IsPread k
    → get_elem? r.chunks idx ≡ some c
    → is_fetching c.state ≡ true
    → c.pin < uint32_max
    → IsInFile r c
    → Inv r
    → Done idx c (do_one_demand k sleep_others idx (r, p))
unfolding do_one_demand
do_one_demand-Done k sleep_others r p idx c calm reads got flying few inside v =
    rw (got, flying)
      (after (reserve_demand k sleep_others c.len r)
        (reserve_demand-Reserved k sleep_others c.len r calm (omega (arith, inside.small)) v))
  where
    out : is_resident c.state ≡ false
    out = in_flight c.state flying

    bound : evictable c ≡ false
    bound = rw out

    kept : (s : Region) → Frame r s → get_elem? s.chunks idx ≡ some c
    kept s f =
        f.kept idx c got bound
          (Held-NotIn r.chunks (entries r.pinned) idx c v.retained.held got (inl out))

    after :
        (o : Result (Bool × Region))
        → Reserved r c.len o
        → Done idx c (do
          (granted, r') ← o
          let finished : Result (Region × Pool) = do
            (r'', p') ← finish_demand k idx c (r', p)
            c' ← or_abort (get_elem? r''.chunks idx) Result.out_of_bounds
            guard (not (is_fetching c'.state)) Result.left_fetching
            ok (r'', p')
          if granted then finished else ok (abandon_fetch r' idx, p))
    after (abort x) fault = inl fault
    after (ok (false, s)) (w, f) = abandon_fetch-Done s idx c p (kept s f) flying w
    after (ok (true, s)) (w, f, enough) =
        let size : s.model_file_size ≡ r.model_file_size = ap (λ t. t.model_file_size) f.settings in
        let within : IsInFile s c = record {
          identity = inside.identity;
          small = inside.small;
          some_bytes = inside.some_bytes;
          starts_inside = rw size inside.starts_inside;
        } in
        checked_Done idx c (finish_demand k idx c (s, p))
          (finish_demand-Done k s idx c p (kept s f) flying enough few reads within w)
