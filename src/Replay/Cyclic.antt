-- ===== src/Replay/Cyclic.antt =====
-- The reference string of a replay, src/replay.c: step `s` is for chunk `s % n_chunks`.
use native.Mathlib.Nat.{mul-add-mod_self_right, mod-eq_of_lt}
use residctl.Prelude.{
  ℕ, zero, suc, ◌+◌, ◌-◌, ◌*◌, ◌%◌, ◌≡◌, ◌≤◌, ◌<◌, sym, ap, ◌∙◌, List, [], ◌∷◌, ◌++◌, arith,
}
use residctl.Replay.{
  Config, n_chunks, Account, no_account, account, Output, touch, replay_pass, replay_passes,
  replay_cyclic,
}

-- The chunks of the first `k` steps.
abbrev pub consumptions : Config → ℕ → List ℕ
consumptions cfg zero = []
consumptions cfg (suc k) = consumptions cfg k ++ ((k % n_chunks cfg) ∷ [])

-- The account of the first `k` steps.
abbrev pub accounts : Config → ℕ → Account
accounts cfg zero = no_account
accounts cfg (suc k) = account cfg (k % n_chunks cfg) (accounts cfg k)

abbrev pub replayed : Config → ℕ → Output
replayed cfg k = record { consumed = consumptions cfg k; tally = accounts cfg k }

-- The rest of a pass adds its steps.
replay_pass-replayed :
    (cfg : Config) (p left : ℕ)
    → left ≤ n_chunks cfg
    → replay_pass cfg left (replayed cfg (p * n_chunks cfg + (n_chunks cfg - left)))
      ≡ replayed cfg (suc p * n_chunks cfg)
unfolding replay_pass
replay_pass-replayed cfg p zero small =
    let whole : p * n_chunks cfg + (n_chunks cfg - 0) ≡ suc p * n_chunks cfg = omega arith in
    ap (replayed cfg) whole
replay_pass-replayed cfg p (suc left) small =
    let n = n_chunks cfg in
    let i : ℕ = n - suc left in
    let inside : i < n = omega (arith, small) in
    let index : (p * n + i) % n ≡ i = mul-add-mod_self_right p n i ∙ mod-eq_of_lt inside in
    let next : suc (p * n + i) ≡ p * n + (n - left) = omega (arith, small) in
    let touched : touch cfg i (replayed cfg (p * n + i)) ≡ replayed cfg (suc (p * n + i)) =
      ap (λ j. touch cfg j (replayed cfg (p * n + i))) (sym index) in
    ap (replay_pass cfg left) (touched ∙ ap (replayed cfg) next)
    ∙ replay_pass-replayed cfg p left (omega (arith, small))

replay_passes-replayed :
    (cfg : Config) (left p : ℕ)
    → replay_passes cfg left (replayed cfg (p * n_chunks cfg))
      ≡ replayed cfg ((left + p) * n_chunks cfg)
unfolding replay_passes replay_pass
replay_passes-replayed cfg zero p =
    let same : p * n_chunks cfg ≡ (0 + p) * n_chunks cfg =
      ap (λ k. k * n_chunks cfg) (omega arith) in
    ap (replayed cfg) same
replay_passes-replayed cfg (suc left) p =
    let n = n_chunks cfg in
    let start : p * n ≡ p * n + (n - n) = omega arith in
    let sum : (left + suc p) * n ≡ (suc left + p) * n = ap (λ k. k * n) (omega arith) in
    ap (replay_passes cfg left) (
      ap (λ k. replay_pass cfg n (replayed cfg k)) start
      ∙ replay_pass-replayed cfg p n (omega arith))
    ∙ (replay_passes-replayed cfg left (suc p) ∙ ap (replayed cfg) sum)

-- The single-threaded replay runs through all steps in order.
pub replay_cyclic-replayed :
    (cfg : Config) → replay_cyclic cfg ≡ replayed cfg (cfg.n_passes * n_chunks cfg)
unfolding replay_cyclic replay_passes
replay_cyclic-replayed cfg =
    let start : 0 ≡ 0 * n_chunks cfg = omega arith in
    let end : (cfg.n_passes + 0) * n_chunks cfg ≡ cfg.n_passes * n_chunks cfg =
      ap (λ k. k * n_chunks cfg) (omega arith) in
    ap (λ k. replay_passes cfg cfg.n_passes (replayed cfg k)) start
    ∙ (replay_passes-replayed cfg cfg.n_passes 0 ∙ ap (replayed cfg) end)
