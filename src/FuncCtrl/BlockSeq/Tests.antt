-- ===== src/FuncCtrl/BlockSeq/Tests.antt =====
-- Witnesses for the theorem on BlockSeqFunc.
use part.Common.{List, [], arith, get_elem?, refl, some, ◌∷◌, ◌≡◌}
use part.FuncCtrl.BlockSeq.{
  running, finished, new_block_seq_func, Step, arrive_step, enter_step, done_step, give_up_step,
  run,
}
use part.FuncCtrl.BlockSeq.Order.{run_in_order}

abbrev turns : List Step
turns = arrive_step ∷ arrive_step ∷ enter_step 1 ∷ enter_step 0 ∷ done_step 0 ∷ enter_step 1 ∷ []

run_in_order_example : get_elem? (run turns new_block_seq_func) 0 ≡ some finished
unfolding run new_block_seq_func
run_in_order_example = run_in_order turns 0 1 running tt (omega arith) refl (λ e. cc)

-- Three callers; the second gives up its wait while the first runs, and the third is let in.
abbrev given_up : List Step
given_up =
    arrive_step ∷ enter_step 0 ∷ arrive_step ∷ arrive_step ∷ give_up_step 1 ∷ enter_step 2 ∷ []

two_run : run given_up new_block_seq_func ≡ running ∷ finished ∷ running ∷ []
unfolding run new_block_seq_func
two_run = refl
