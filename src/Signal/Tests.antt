-- ===== src/Signal/Tests.antt =====
-- A witness for the theorem on signals, and two races.
use part.Common.{List, [], pos, refl, true, ◌∷◌, ◌≡◌}
use part.Signal.{init, is_live, wait_test, wait_add, done_test, done_close, done_swap}
use part.Signal.Steps.{Step, start, run}
use part.Signal.Waiting.{IsRight, run-counts_waiters}

abbrev steps : List Step
steps =
    Step.test_step ∷ Step.add_step ∷ Step.done_test_step ∷ Step.close_step ∷ Step.swap_step
    ∷ Step.fin_step ∷ Step.swap_step ∷ []

run-counts_waiters_example : IsRight (run steps start)
run-counts_waiters_example = run-counts_waiters steps

-- Done between the test and the addition of Wait: it returns, and then somebody waits.
abbrev race : List Step
race = Step.test_step ∷ Step.done_test_step ∷ Step.close_step ∷ Step.swap_step ∷ Step.add_step ∷ []

late_waiter :
    ((run race start).returned ≡ true)
    × ((run race start).waiting ≡ 1)
    × ((run race start).signal.wait_count ≡ pos 0)
unfolding init is_live wait_test wait_add done_test done_close done_swap
late_waiter = (refl, refl, refl)

-- Two calls of Done that both pass the test.
abbrev two_done : List Step
two_done = Step.done_test_step ∷ Step.done_test_step ∷ Step.close_step ∷ Step.close_step ∷ []

second_close_panics : (run two_done start).panicked ≡ true
unfolding init is_live done_test done_close
second_close_panics = refl
