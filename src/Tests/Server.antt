-- ===== src/Tests/Server.antt =====
-- The theorem on the registry of active runs, behind a tune that ended and a reservation.
use bhtune.Common.{◌≡◌, refl, [], some}
use bhtune.Server.ActiveRun.{no_runs, start, reserve, release}
use bhtune.Server.ActiveRun.Exclusion.{
  Server, Reach, begun, moved, started, task_released, reserved, Reach-exclusion,
}

abbrev behind_tune : Server
behind_tune = record { registry = (reserve 4 (release 3 (start 3 no_runs).1)).1; alive = [] }

tune_then_write : Reach behind_tune
unfolding start reserve release
tune_then_write =
    moved (moved (moved begun (started 3 refl)) (task_released 3 refl)) (reserved 4 refl)

tune_then_write-exclusive : behind_tune.registry.exclusive ≡ some 4
unfolding start reserve release
tune_then_write-exclusive = refl

Reach-exclusion_example : (behind_tune.alive ≡ []) × (behind_tune.registry.tasks ≡ [])
Reach-exclusion_example = Reach-exclusion 4 tune_then_write tune_then_write-exclusive
