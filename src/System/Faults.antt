-- ===== src/System/Faults.antt =====
-- A fault inside the region never ends the process, src/pager.c.
use residctl.Prelude.{ℕ, ◌<◌, ◌≡◌, List}
use residctl.Result.{Result, ok}
use residctl.State.{Region, Settings}
use residctl.Kernel.{Kernel}
use residctl.Table.Tiles.{Tiles}
use residctl.Budget.Rounds.{In}
use residctl.Pool.{Pool}
use residctl.System.{System}
use residctl.System.Invariant.{IsSystem}

AllBelow : ℕ → List ℕ → Type 0
AllBelow n es = (i : ℕ) → In i es → i < n

module _ {len_of : ℕ → ℕ} {config : Settings} {s : System} (v : IsSystem len_of config s)
    (k : Kernel) where
  Answers : Result (Region × Pool) → Type 0
  Answers o = (w : Region × Pool) × (o ≡ ok w)
