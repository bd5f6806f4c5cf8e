-- ===== src/Tests/Budgets.antt =====
-- The retention queue and the budget at concrete inputs, src/prefetch_retain.c and src/budget.c.
use residctl.Prelude.{◌≡◌, refl, arith}
use residctl.Retain.{entries, prefetch_retain_on_resident, prefetch_retain_release}
use residctl.Retain.Ring.{IsRing}
use residctl.Retain.Refines.{
  push_bounded, remove_first, prefetch_retain_on_resident_refines, prefetch_retain_release_refines,
}
use residctl.Budget.{ensure_budget, ensure_budget_prefetch}
use residctl.Budget.Accounts.{Inv}
use residctl.Budget.Ensure.{Ensured, ensure_budget-Ensured}
use residctl.Budget.Admit.{Admitted, ensure_budget_prefetch-Admitted}
use residctl.Tests.Data.{crowded, calm}

pub crowded-IsRing : IsRing crowded.pinned
crowded-IsRing = record {
  storage = omega arith;
  some_room = omega arith;
  small = omega arith;
  head_in = omega arith;
  len_in = omega arith;
}

pub crowded-Inv : Inv crowded
crowded-Inv = record {
  accounted = record { resident = refl; within = omega arith; small = omega arith };
  retained = record { ring = crowded-IsRing; held = ((_, refl, refl, refl), tt, tt) };
}

prefetch_retain_on_resident_refines_example :
    let q = (prefetch_retain_on_resident crowded 2).pinned in
    (entries q ≡ push_bounded 2 (entries crowded.pinned) 2) × IsRing q × (q.cap ≡ 2)
prefetch_retain_on_resident_refines_example =
    prefetch_retain_on_resident_refines crowded 2 crowded-IsRing

prefetch_retain_release_refines_example :
    let q = (prefetch_retain_release crowded 1).pinned in
    (entries q ≡ remove_first 1 (entries crowded.pinned)) × IsRing q × (q.cap ≡ 2)
prefetch_retain_release_refines_example = prefetch_retain_release_refines crowded 1 crowded-IsRing

ensure_budget-Ensured_example : Ensured crowded 4096 (ensure_budget calm crowded 4096)
ensure_budget-Ensured_example = ensure_budget-Ensured calm crowded 4096 (omega arith) crowded-Inv

ensure_budget_prefetch-Admitted_example :
    Admitted crowded 3 4096 (ensure_budget_prefetch calm crowded 3)
ensure_budget_prefetch-Admitted_example =
    ensure_budget_prefetch-Admitted calm crowded 3 _ refl (omega arith) crowded-Inv
