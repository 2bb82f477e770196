-- ===== src/FuncCtrl/BlockN/Tests.antt =====
-- Witnesses for the theorems on BlockFuncN.
use part.Common.{List, [], arith, refl, ℕ, ◌+◌, ◌∷◌, ◌≡◌, ◌≤◌}
use part.FuncCtrl.BlockN.{new_block_func_n, Step, block, block_all, go, step, run}
use part.FuncCtrl.BlockN.Exclusion.{run-excludes}
use part.FuncCtrl.BlockN.Deadlock.{two, run_deadlocks}

abbrev both : List Step
both = block ∷ block ∷ block_all ∷ go 0 ∷ go 0 ∷ go 1 ∷ go 1 ∷ go 2 ∷ []

run-excludes_example : 1 + 1 ≤ 3
unfolding run step new_block_func_n
run-excludes_example = run-excludes 3 both 0 1 1 1 (omega arith) refl refl

run_deadlocks_example :
    (xs : List Step) × (run 3 xs new_block_func_n ≡ two 3 2 1)
    × ((i : ℕ) → step 3 (go i) (two 3 2 1) ≡ two 3 2 1)
run_deadlocks_example = run_deadlocks 3 (omega arith)
