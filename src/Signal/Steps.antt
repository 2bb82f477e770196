-- ===== src/Signal/Steps.antt =====
-- The calls of signal/Signal.go as steps of any callers, which come in any order.
use part.Common.{
  Bool, List, [], false, if◌then◌else◌, none, not, some, true, ℕ, ◌+◌, ◌-◌, ◌==◌, ◌||◌, ◌∷◌,
}
use part.Signal.{Signal, init, wait_test, wait_add, fin, done_test, done_close, done_swap}

-- The test and the addition of Wait and WaitC, fin by a caller that waits, the test and the close of
-- Done, and a round of its loop.
pub data Step : Type 0 where
  test_step add_step fin_step done_test_step close_step swap_step : Step

-- The signal; the callers between the test and the addition, and those that wait; the calls of Done
-- between the test and the close, whether one is in its loop, and whether one has returned; how many
-- callers were between the test and the addition at the close; and whether a close has panicked.
pub record State : Type 0 where
  pub signal : Signal
  pub entering : ℕ
  pub waiting : ℕ
  pub closing : ℕ
  pub in_done : Bool
  pub returned : Bool
  pub late : ℕ
  pub panicked : Bool

abbrev pub start : State
start = record {
  signal = init;
  entering = 0;
  waiting = 0;
  closing = 0;
  in_done = false;
  returned = false;
  late = 0;
  panicked = false;
}

-- The close of one of the calls of Done.
abbrev pub close : State → State
close s = elim (done_close s.signal) [
  | none ↦ record s { closing = s.closing - 1; panicked = true }
  | some signal ↦ record s {
    signal = signal;
    closing = s.closing - 1;
    in_done = true;
    late = s.entering;
  }
]

-- A round of the loop of Done.
abbrev pub swap : State → State
swap s =
    let r = done_swap s.signal in
    record s { signal = r.0; in_done = not r.1; returned = s.returned || r.1 }

abbrev pub step : Step → State → State
step Step.test_step s = if wait_test s.signal then record s { entering = s.entering + 1 } else s
step Step.add_step s =
    if s.entering == 0
    then s
    else record s { signal = wait_add s.signal; entering = s.entering - 1; waiting = s.waiting + 1 }
step Step.fin_step s =
    if s.waiting == 0 then s else record s { signal = fin s.signal; waiting = s.waiting - 1 }
step Step.done_test_step s = if done_test s.signal then record s { closing = s.closing + 1 } else s
step Step.close_step s = if s.closing == 0 then s else close s
step Step.swap_step s = if s.in_done then swap s else s

-- A panic ends the program.
abbrev pub run : List Step → State → State
run [] s = s
run (x ∷ xs) s = if s.panicked then s else run xs (step x s)
