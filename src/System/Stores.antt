-- ===== src/System/Stores.antt =====
-- The end of a prefetch keeps the invariant, src/prefetch_pool.c.
use residctl.Prelude.{
  sub64, ◌≤◌, ℕ, ◌≡◌, refl, sym, subst, ◌∙◌, ap, some, Bool, true, false, List, [], ◌∷◌, ◌++◌,
  arith, get_elem?, set, length, inr, get_elem?-set_self, get_elem?-lt, length-set, sub32,
  if◌then◌else◌,
}
use residctl.Result.{Result, ok, abort, ◌>>=◌}
use residctl.State.{Chunk, ChunkState, Region, Settings}
use residctl.Kernel.{Kernel}
use residctl.Retain.{entries, make_room, prefetch_retain_on_resident}
use residctl.Retain.Ring.{entries-append_entry, append_entry-IsRing}
use residctl.Policy.Scan.{evictable}
use residctl.Fetch.{Segment, fetch_chunk}
use residctl.Fetch.Reads.{IsFetchFault, IsPread, Fetched, fetch_chunk-Fetched, IsInFile}
use residctl.Budget.{unpin_chunk}
use residctl.Budget.Accounts.{NotIn, Inv}
use residctl.Budget.Retains.{make_room_keeps, NotIn-append, NotIn-of_append, Held-append}
use residctl.Pool.{finish_prefetch}
use residctl.Worker.{is_fetching, enter}
use residctl.Worker.Settle.{settled-Inv, unpin_eq, Inv-reads}
use residctl.Prefetch.{fetch_and_retain, settle_prefetch, count_prefetch}
use residctl.Prefetch.Edits.{stored, settle_prefetch_eq}
use residctl.System.{idle, admitted, System, with_worker}
use residctl.System.Owners.{Moves}
use residctl.System.Moving.{Frame-Moves, set-Moves, Moves-trans}
use residctl.System.Invariant.{IsSystem, promised-set, worker_step, in_file}
use residctl.System.Landings.{Inv-pin, promised_enough}
use residctl.System.Prefetches.{finish_prefetch-IsPool}

abbrev pub Retained : Region → ℕ → Chunk → Result Region → Type 0
Retained r idx c (abort x) = IsFetchFault x
Retained r idx c (ok r') =
    (n : ℕ) × (m : ℕ) × (r' ≡ settle_prefetch (record r { preads = n; continues = m }) idx c)

pub fetch_and_retain-Retained :
    (k : Kernel) (r : Region) (idx : ℕ) (c : Chunk)
    → IsPread k
    → IsInFile r c
    → Retained r idx c (fetch_and_retain k idx c r)
unfolding fetch_and_retain
fetch_and_retain-Retained k r idx c reads v =
    after (fetch_chunk k r c) (fetch_chunk-Fetched k r c reads v)
  where
    after :
        (o : Result (List Segment × Region))
        → Fetched r c o
        → Retained r idx c (do (segments, r') ← o; ok (settle_prefetch r' idx c))
    after (abort x) fault = fault
    after (ok (segments, r')) (_, (n, m, same)) = (n, m, ap (λ x. settle_prefetch x idx c) same)

append-Moves : (i : ℕ) (cs : List Chunk) (es : List ℕ) → Moves i cs es cs (es ++ (i ∷ []))
append-Moves i cs es = record {
  from =
      λ j c apart got. (c, got, (refl, refl, refl), inr (refl, λ n. (NotIn-of_append j i es n).0));
  stay = λ j c apart got out n. (got, NotIn-append j i es n apart);
}

-- What the end of a prefetch makes of the region: its chunk is resident, in the retention queue or unpinned.
pub record Stored (r : Region) (idx : ℕ) (c : Chunk) (r' : Region) : Type 0 where
  pub inv : Inv r'
  pub moves : Moves idx r.chunks (entries r.pinned) r'.chunks (entries r'.pinned)
  pub chunk : Chunk
  pub state : chunk.state ≡ ChunkState.resident
  pub place : get_elem? r'.chunks idx ≡ some chunk
  pub shape :
      (chunk.len ≡ c.len) × (chunk.file_off ≡ c.file_off) × (chunk.region_off ≡ c.region_off)
  pub free : NotIn idx (entries r'.pinned) → chunk.pin ≡ 0
  pub table : length r'.chunks ≡ length r.chunks
  pub reserved : r'.reserved_bytes ≡ sub64 r.reserved_bytes c.len
  pub configured : r'.settings ≡ r.settings

module _ (r : Region) (idx : ℕ) (c : Chunk) (got : get_elem? r.chunks idx ≡ some c)
    (flying : is_fetching c.state ≡ true) (one : c.pin ≡ 1) (enough : c.len ≤ r.reserved_bytes)
    (out : NotIn idx (entries r.pinned)) (v : Inv r) where
  abbrev up : Chunk
  up = record (enter ChunkState.resident 0 c) { pin = c.pin }

  here : get_elem? (set r.chunks idx up) idx ≡ some up
  here = get_elem?-set_self r.chunks idx up (get_elem?-lt r.chunks idx got)

  sound : Inv (stored r idx c)
  sound = settled-Inv r idx c c.pin _ r.clock_reads got flying enough v

  unpin-Stored : Stored r idx c (count_prefetch (unpin_chunk (stored r idx c) idx))
  unpin-Stored =
      let down = record up { pin = sub32 c.pin 1 } in
      let none_left : sub32 c.pin 1 ≡ 0 = omega (arith, one) in
      let edited = unpin_eq (stored r idx c) idx up here in
      let cs = set (set r.chunks idx up) idx down in
      subst (λ x. Stored r idx c (count_prefetch x)) (sym edited)
        (record {
          inv = Inv-pin (stored r idx c) idx up (sub32 c.pin 1) _ _ here out sound;
          moves =
              Moves-trans (set-Moves idx r.chunks (entries r.pinned) up)
                (set-Moves idx (set r.chunks idx up) (entries r.pinned) down);
          chunk = down;
          state = refl;
          place =
              get_elem?-set_self (set r.chunks idx up) idx down
                (get_elem?-lt (set r.chunks idx up) idx here);
          shape = (refl, refl, refl);
          free = λ _. none_left;
          table = length-set (set r.chunks idx up) idx down ∙ length-set r.chunks idx up;
          reserved = refl;
          configured = refl;
        })

  retain-Stored : Stored r idx c (count_prefetch (prefetch_retain_on_resident (stored r idx c) idx))
  unfolding prefetch_retain_on_resident
  retain-Stored =
      let s = make_room (stored r idx c) in
      let (w, f, room, same) = make_room_keeps (stored r idx c) sound in
      let held_up : evictable up ≡ false = ground (arith, one) in
      let kept = f.kept idx up here held_up out in
      let out' = f.queue idx out in
      let list = entries-append_entry s.pinned w.retained.ring idx room in
      record {
        inv = record {
          accounted = record {
            resident = w.accounted.resident;
            within = w.accounted.within;
            small = w.accounted.small;
          };
          retained = record {
            ring = append_entry-IsRing s.pinned idx w.retained.ring room;
            held = rw list (
                Held-append s.chunks (entries s.pinned) idx w.retained.held (up, kept, refl, one)
                  out');
          };
        };
        moves = rw list (
            Moves-trans (set-Moves idx r.chunks (entries r.pinned) up) (
              Moves-trans (Frame-Moves idx (stored r idx c) s f)
                (append-Moves idx s.chunks (entries s.pinned))));
        chunk = up;
        state = refl;
        place = kept;
        shape = (refl, refl, refl);
        free = λ n. absurd ((NotIn-of_append idx idx (entries s.pinned) (rw list at n)).1 refl);
        table = f.table ∙ length-set r.chunks idx up;
        reserved = same;
        configured = f.settings;
      }

  pub settle_prefetch-Stored : Stored r idx c (settle_prefetch r idx c)
  settle_prefetch-Stored =
      subst (Stored r idx c) (sym (settle_prefetch_eq r idx c got))
        (finish r.prefetch_retention_pinned)
    where
      finish :
          (b : Bool)
          → Stored r idx c (
              count_prefetch (
                if b
                then prefetch_retain_on_resident (stored r idx c) idx
                else unpin_chunk (stored r idx c) idx))
      finish true = retain-Stored
      finish false = unpin-Stored

pub store-IsSystem :
    {len_of : ℕ → ℕ} {config : Settings} {s : System} (v : IsSystem len_of config s) (k : Kernel)
    (w idx : ℕ) (c : Chunk) (r : Region)
    → IsPread k
    → get_elem? s.workers w ≡ some (admitted idx)
    → get_elem? s.region.chunks idx ≡ some c
    → fetch_and_retain k idx c s.region ≡ ok r
    → IsSystem len_of config (with_worker s r (finish_prefetch s.pool idx) w idle)
unfolding finish_prefetch
store-IsSystem {len_of} {config} {s} v k w idx c r reads got at_idx done =
    let (n, m, is_r) =
      rw done at (fetch_and_retain-Retained k s.region idx c reads (in_file v idx c at_idx)) in
    let (d, at_d, (flying, one), out) = v.owned.held w (admitted idx) idx (got, refl) in
    let is_c : d ≡ c = ground arith in
    let fits = v.owned.sized idx c at_idx in
    let size = fits.0 in
    let enough : c.len ≤ s.region.reserved_bytes =
      rw size (promised_enough v w idx (admitted idx) got) in
    let end =
      settle_prefetch-Stored (record (s.region) { preads = n; continues = m }) idx c at_idx
        (rw is_c at flying) (rw is_c at one) enough out (Inv-reads s.region n m v.inv) in
    let sum = promised-set len_of s.workers w (admitted idx) idle got in
    subst (λ x. IsSystem len_of config (with_worker s x (finish_prefetch s.pool idx) w idle))
      (sym is_r)
      (record {
        inv = end.inv;
        owned =
            worker_step v w idx (admitted idx) idle c end.chunk _ _ got refl
              (λ j e. absurd (ground arith)) end.moves end.place (ground (arith, fits, end.shape))
              (λ e. absurd (ground arith)) (λ n _. end.free n);
        pool = finish_prefetch-IsPool s.pool idx v.pool;
        room = rw end.table v.room;
        reserved = omega (
          arith, sum, size, enough, end.reserved, v.reserved, v.inv.accounted.within,
          v.inv.accounted.small,
        );
        configured = end.configured ∙ v.configured;
      })
