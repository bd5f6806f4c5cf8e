-- ===== src/Startup/Sound.antt =====
-- A region that starts is sound, src/region.c.
use residctl.Prelude.{
  replicate, ltb, ℕ, ◌*◌, ◌-◌, ◌^◌, ◌≤◌, ◌<◌, ◌≡◌, ◌≢◌, ltb, replicate, ◌⊎◌, true, false, List,
  length, uint32_max,
}
use residctl.Result
use residctl.Result.{◌>>◌, Abort, Result, ok, abort}
use residctl.State.{Chunk, Region}
use residctl.Table.{is_empty, build_chunk_table_explicit, round_size}
use residctl.Table.Tiles.{Tiles, AllFresh}
use residctl.Table.Explicit.{total_len}
use residctl.Startup.{RegionConfig}
use residctl.System.Reaching.{IsStarted}

-- What the configuration asks for: sizes within the model's, and a file that is not shorter than the region.
pub record IsConfig (cfg : RegionConfig) (set_up : Result ℕ) : Type 0 where
  pub len : cfg.region_len < 2 ^ 61
  pub budget : cfg.budget_bytes < 2 ^ 62
  pub depth : cfg.prefetch_depth < 2 ^ 31
  pub specs : total_len cfg.explicit_chunks < 2 ^ 64
  pub size : cfg.chunk_size < 2 ^ 62
  pub file : (n : ℕ) → set_up ≡ ok n → (n ≡ 0) ⊎ (cfg.region_len ≤ n)

-- Why no table is built: the explicit chunks are refused, or without any the chunk size is zero or so small
-- that 2^32 - 1 chunks of it do not reach the region's end.
abbrev pub TableRefused : RegionConfig → Abort → Type 0
TableRefused cfg x =
    ((is_empty cfg.explicit_chunks ≡ false)
      × (build_chunk_table_explicit cfg.region_len cfg.explicit_chunks ≡ abort x))
    ⊎ ((is_empty cfg.explicit_chunks ≡ true)
        × (((cfg.chunk_size ≡ 0) × (x ≡ Result.chunk_size_zero))
            ⊎ ((uint32_max * round_size cfg.chunk_size < cfg.region_len)
                × (x ≡ Result.chunk_count_out_of_range))))

abbrev Built : RegionConfig → Result (List Chunk) → Type 0
Built cfg (abort x) = TableRefused cfg x
Built cfg (ok table) = Tiles 0 table cfg.region_len × AllFresh table

-- Why `region_startup` ends the process: a length of zero, a missing path, what steps 1 to 7 abort for, a
-- table that cannot be built, or a budget of zero.
abbrev pub Refused : RegionConfig → Result ℕ → Abort → Type 0
Refused cfg set_up x =
    ((cfg.region_len ≡ 0) × (x ≡ Result.no_region))
    ⊎ ((((cfg.has_model_path ≡ false) ⊎ (cfg.has_cgroup_path ≡ false)) × (x ≡ Result.no_paths))
        ⊎ ((set_up ≡ abort x)
            ⊎ (TableRefused cfg x ⊎ ((cfg.budget_bytes ≡ 0) × (x ≡ Result.no_budget)))))

-- What `region_startup` leaves.
abbrev pub Started : RegionConfig → Result ℕ → Result Region → Type 0
Started cfg set_up (abort x) = Refused cfg set_up x
Started cfg set_up (ok r) =
    (cfg.region_len ≢ 0)
    × (cfg.budget_bytes ≢ 0)
    × (cfg.has_model_path ≡ true)
    × (cfg.has_cgroup_path ≡ true)
    × (set_up ≡ ok r.model_file_size)
    × (r.region_len ≡ cfg.region_len)
    × (length r.chunks < 2 ^ 31 - 1 → IsStarted r)
