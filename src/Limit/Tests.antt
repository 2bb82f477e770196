-- ===== src/Limit/Tests.antt =====
-- Witnesses for the theorems on the limiter.
use part.Common.{List, [], arith, refl, ◌*◌, ◌+◌, ◌∷◌, ◌≡◌, ◌≤◌}
use part.Limit.{forever, Limit, started, new, Step, to_step, receive_step, run}
use part.Limit.Bound.{run_bounded}
use part.Limit.Passing.{run_passes}

-- Three callers; one waits.
abbrev busy : List Step
busy = to_step ∷ to_step ∷ to_step ∷ receive_step ∷ receive_step ∷ []

abbrev fresh : Limit
fresh = started 2 5 forever

run_bounded_example : (2 + 0 ≤ 2 * (0 + 1)) × (0 ≤ 2)
unfolding new run
run_bounded_example = run_bounded 2 5 forever fresh busy (omega arith) refl

abbrev exhausted : Limit
exhausted = record fresh { bucket = 0; wait_num = 1; passed = 2 }

run_passes_example : (3 ≡ 2 + 1) × (0 + 1 ≡ 1)
unfolding run
run_passes_example =
    run_passes exhausted 1 refl (omega arith) refl (omega arith) (omega arith) (omega arith)
