-- ===== src/Tests/Policies.antt =====
-- The policies at concrete inputs, src/policy.c.
use residctl.Prelude.{ℕ, zero, suc, true, ◌<◌, ◌≡◌, refl, some, arith, int64_max}
use residctl.State.{lru, declared}
use residctl.Policy.{select_victim}
use residctl.Policy.Victims.{IsVictim, select_victim-IsVictim}
use residctl.Policy.Declared.{declared_dist, on_access, base, origin, holds}
use residctl.Policy.Declared.Distance.{IsDeclared, IsNextUse, declared_dist_exact}
use residctl.Policy.Declared.Cursor.{Advances, on_access-Advances, declared_dist-on_access}
use residctl.Tests.Data.{mixed, modes, looped}

lru_victim : select_victim modes lru mixed ≡ some 2
unfolding select_victim
lru_victim = refl

-- Chunk 0 is next used four steps on, chunk 2 one step on.
declared_victim : select_victim modes (declared looped) mixed ≡ some 0
unfolding select_victim
declared_victim = refl

select_victim-IsVictim_example :
    IsVictim modes (declared looped) mixed (select_victim modes (declared looped) mixed)
select_victim-IsVictim_example = select_victim-IsVictim modes (declared looped) mixed

looped-IsDeclared : IsDeclared looped
looped-IsDeclared = record {
  len = refl;
  some_access = omega arith;
  few = omega arith;
  pos_in = omega arith;
}

declared_dist-looped :
    (declared_dist modes looped 2 ≡ 1)
    × (declared_dist modes looped 0 ≡ 4)
    × (declared_dist modes looped 3 ≡ int64_max)
unfolding declared_dist
declared_dist-looped = (refl, refl, refl)

declared_dist_exact_example :
    IsNextUse looped.seq 4 (base looped.pos) 0 (origin modes) (declared_dist modes looped 0)
declared_dist_exact_example = declared_dist_exact modes looped 0 looped-IsDeclared refl

on_access-Advances_example : Advances looped 2 (on_access looped 2)
on_access-Advances_example = on_access-Advances looped 2 looped-IsDeclared

only_at_3 : (i : ℕ) → i < 4 → holds looped.seq i 1 ≡ true → i ≡ 3
only_at_3 zero lt here = absurd (ground arith)
only_at_3 (suc zero) lt here = absurd (ground arith)
only_at_3 (suc (suc zero)) lt here = absurd (ground arith)
only_at_3 (suc (suc (suc i))) lt here = omega arith

holds_3 : holds looped.seq 3 1 ≡ true
holds_3 = refl

declared_dist-on_access_example : declared_dist modes (on_access looped 1) 1 ≡ 4
declared_dist-on_access_example =
    declared_dist-on_access modes looped 1 3 looped-IsDeclared refl
      (omega arith, holds_3, only_at_3)
