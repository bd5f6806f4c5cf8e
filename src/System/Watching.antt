-- ===== src/System/Watching.antt =====
-- A pass of the watchdog that finds no orphan keeps the system sound, src/pager.c.
use residctl.Prelude.{
  suc, List, ℕ, ◌+◌, ◌≡◌, refl, sym, subst, some, Bool, false, [], ◌∷◌, arith, get_elem?,
}
use residctl.State.{Chunk, Region, Settings}
use residctl.Kernel.{Kernel}
use residctl.Worker.{tick}
use residctl.Pager.{timeout_ns, is_orphan, fetching_watchdog, watchdog_from}
use residctl.System.{System}
use residctl.System.Invariant.{IsSystem}

-- Without an orphan the loop of the watchdog changes nothing.
watchdog_from-quiet :
    (now : ℕ) (locked : ℕ → Bool) (cs : List Chunk) (i : ℕ) (r : Region)
    → ((j : ℕ) (c : Chunk)
        → get_elem? cs j ≡ some c
        → is_orphan now (timeout_ns r) (locked (i + j)) c ≡ false)
    → watchdog_from now locked cs i r ≡ r
unfolding watchdog_from
watchdog_from-quiet now locked [] i r quiet = refl
watchdog_from-quiet now locked (c ∷ cs) i r quiet =
    let first : i + 0 ≡ i = omega arith in
    let fine : is_orphan now (timeout_ns r) (locked i) c ≡ false = rw first at (quiet 0 c refl) in
    rw fine (
      watchdog_from-quiet now locked cs (i + 1) r (λ j d got.
        let there : i + 1 + j ≡ i + suc j = omega arith in rw there (quiet (suc j) d got)))

module _ {len_of : ℕ → ℕ} {config : Settings} {s : System} (v : IsSystem len_of config s) where
  pub watch-IsSystem :
      (k : Kernel) (locked : ℕ → Bool)
      → ((i : ℕ) (c : Chunk)
          → get_elem? s.region.chunks i ≡ some c
          → is_orphan (k.clock s.region.clock_reads) (timeout_ns s.region) (locked i) c ≡ false)
      → IsSystem len_of config (record s { region = fetching_watchdog k locked s.region })
  unfolding fetching_watchdog
  watch-IsSystem k locked quiet =
      subst (λ x. IsSystem len_of config (record s { region = x })) (sym still)
        (record {
          inv = record {
            accounted = record {
              resident = v.inv.accounted.resident;
              within = v.inv.accounted.within;
              small = v.inv.accounted.small;
            };
            retained = record { ring = v.inv.retained.ring; held = v.inv.retained.held };
          };
          owned = v.owned;
          pool = v.pool;
          room = v.room;
          reserved = v.reserved;
          configured = v.configured;
        })
    where
      still :
          watchdog_from (k.clock s.region.clock_reads) locked s.region.chunks 0 (tick s.region)
          ≡ tick s.region
      still =
          watchdog_from-quiet (k.clock s.region.clock_reads) locked s.region.chunks 0
            (tick s.region)
            (λ j c got. let there : 0 + j ≡ j = omega arith in rw there (quiet j c got))
