-- ===== src/Signal/Waiting.antt =====
-- The counter of signal/Signal.go, and who still waits when Done has returned.
use part.Common.{
  ==_iff, Bool-cases, List, [], ap, arith, false, inl, inr, negsuc, none, pos, refl, some, suc, sym,
  true, zero, ℕ, ℤ, ◌+◌, ◌-◌, ◌<◌, ◌==◌, ◌||◌, ◌∙◌, ◌∷◌, ◌≡◌, ◌≤◌, ◌⊎◌,
}
use part.Common.{chosen}
use part.Sync.Map.{incr, decr}
use part.Signal.{
  Chan, Signal, init, is_live, wait_test, wait_add, fin, done_test, done_close, is_zero, done_swap,
}
use part.Signal.Steps.{Step, State, start, close, swap, step, run}

-- The signal before the close, in the loop of Done, and after it.
abbrev pub IsOpen : State → Type 0
IsOpen s =
    (s.signal.c ≡ Chan.open_chan)
    × (s.signal.wait_count ≡ pos s.waiting)
    × (s.in_done ≡ false)
    × (s.returned ≡ false)

abbrev pub IsClosing : State → Type 0
IsClosing s =
    (s.signal.c ≡ Chan.closed_chan)
    × (s.signal.wait_count ≡ pos s.waiting)
    × (s.in_done ≡ true)
    × (s.returned ≡ false)
    × (s.entering ≤ s.late)

abbrev pub IsOver : State → Type 0
IsOver s =
    (s.signal.c ≡ Chan.closed_chan)
    × (s.signal.wait_count ≡ decr (pos s.waiting))
    × (s.in_done ≡ false)
    × (s.returned ≡ true)
    × (s.waiting + s.entering ≤ s.late)

abbrev pub IsRight : State → Type 0
IsRight s = IsOpen s ⊎ (IsClosing s ⊎ IsOver s)

incr-decr : (w : ℕ) → incr (decr (pos w)) ≡ decr (pos (w + 1))
incr-decr zero = refl
incr-decr (suc w) = let e : suc w + 1 ≡ suc (suc w) = omega arith in rw e (ap pos (omega arith))

decr-decr : (w : ℕ) → 0 < w → decr (decr (pos w)) ≡ decr (pos (w - 1))
decr-decr zero h = absurd (omega arith)
decr-decr (suc w) h = let e : suc w - 1 ≡ w = omega arith in rw e refl

decr_pos : (w : ℕ) → 0 < w → decr (pos w) ≡ pos (w - 1)
decr_pos zero h = absurd (omega arith)
decr_pos (suc w) h = ap pos (omega arith)

live_open : (i : Signal) → is_live (some i) ≡ true → i.c ≡ Chan.open_chan
unfolding is_live
live_open i h = live_at i.c i.wait_count h
  where
    live_at :
        (c : Chan) (n : ℤ)
        → is_live (some (record { c = c; wait_count = n })) ≡ true
        → c ≡ Chan.open_chan
    live_at Chan.open_chan n h = refl
    live_at Chan.nil_chan n h = absurd (cc)
    live_at Chan.closed_chan n h = absurd (cc)

test-IsRight : (s : State) → IsRight s → IsRight (step Step.test_step s)
unfolding wait_test
test-IsRight s h =
    chosen IsRight (wait_test s.signal) _ s (λ live. entered h (live_open s.signal live)) (λ e. h)
  where
    entered :
        IsRight s → s.signal.c ≡ Chan.open_chan → IsRight (record s { entering = s.entering + 1 })
    entered (inl h) live = inl h
    entered (inr (inl (c, n, d, r, le))) live = absurd (cc)
    entered (inr (inr (c, n, d, r, le))) live = absurd (cc)

added :
    (s : State)
    → 0 < s.entering
    → IsRight s
    → IsRight (record s {
      signal = wait_add s.signal;
      entering = s.entering - 1;
      waiting = s.waiting + 1;
    })
unfolding wait_add
added s p (inl (c, n, d, r)) = inl (c, ap incr n, d, r)
added s p (inr (inl (c, n, d, r, le))) = inr (inl (c, ap incr n, d, r, omega arith))
added s p (inr (inr (c, n, d, r, le))) =
    inr (inr (c, ap incr n ∙ incr-decr s.waiting, d, r, omega arith))

add-IsRight : (s : State) → IsRight s → IsRight (step Step.add_step s)
add-IsRight s h = elim (Bool-cases (s.entering == 0)) [
  | inl nobody ↦ rw nobody h
  | inr some_enters ↦ rw some_enters (added s (ground arith) h)
]

left :
    (s : State)
    → 0 < s.waiting
    → IsRight s
    → IsRight (record s { signal = fin s.signal; waiting = s.waiting - 1 })
unfolding fin
left s p (inl (c, n, d, r)) = inl (c, ap decr n ∙ decr_pos s.waiting p, d, r)
left s p (inr (inl (c, n, d, r, le))) = inr (inl (c, ap decr n ∙ decr_pos s.waiting p, d, r, le))
left s p (inr (inr (c, n, d, r, le))) =
    inr (inr (c, ap decr n ∙ decr-decr s.waiting p, d, r, omega arith))

fin-IsRight : (s : State) → IsRight s → IsRight (step Step.fin_step s)
fin-IsRight s h = elim (Bool-cases (s.waiting == 0)) [
  | inl nobody ↦ rw nobody h
  | inr some_wait ↦ rw some_wait (left s (ground arith) h)
]

done_test-IsRight : (s : State) → IsRight s → IsRight (step Step.done_test_step s)
done_test-IsRight s h =
    chosen IsRight (done_test s.signal) (record s { closing = s.closing + 1 }) s (λ e. h) (λ e. h)

done_close-cases :
    (c : Chan) (n : ℤ)
    → let i : Signal = record { c = c; wait_count = n } in
      (done_close i ≡ none)
      ⊎ ((c ≡ Chan.open_chan)
          × (done_close i ≡ some (record { c = Chan.closed_chan; wait_count = n })))
unfolding done_close
done_close-cases Chan.open_chan n = inr (refl, refl)
done_close-cases Chan.nil_chan n = inl refl
done_close-cases Chan.closed_chan n = inl refl

close-IsRight : (s : State) → IsRight s → IsRight (close s)
close-IsRight s h = elim (done_close-cases s.signal.c s.signal.wait_count) [
  | inl panics ↦ rw (close, panics) h
  | inr (live, closes) ↦ rw (close, closes) (closed h live)
]
  where
    closed :
        IsRight s
        → s.signal.c ≡ Chan.open_chan
        → IsRight (record s {
          signal = record { c = Chan.closed_chan; wait_count = s.signal.wait_count };
          closing = s.closing - 1;
          in_done = true;
          late = s.entering;
        })
    closed (inl (c, n, d, r)) live = inr (inl (refl, n, refl, r, omega arith))
    closed (inr (inl (c, n, d, r, le))) live = absurd (cc)
    closed (inr (inr (c, n, d, r, le))) live = absurd (cc)

close_step-IsRight : (s : State) → IsRight s → IsRight (step Step.close_step s)
close_step-IsRight s h = elim (Bool-cases (s.closing == 0)) [
  | inl nobody ↦ rw nobody h
  | inr some_close ↦ rw some_close (close-IsRight s h)
]

swap-IsRight : (s : State) → IsClosing s → IsRight (swap s)
unfolding done_swap
swap-IsRight s (c, n, d, r, le) = elim (Bool-cases (is_zero s.signal.wait_count)) [
  | inl nobody ↦
      let nobody' : (s.waiting == 0) ≡ true = ap is_zero (sym n) ∙ nobody in
      let zero_wait : s.waiting ≡ 0 = (==_iff s.waiting 0).0 nobody' in
      let over : (s.returned || true) ≡ true = ground arith in
      let count : negsuc 0 ≡ decr (pos s.waiting) = ap (λ w. decr (pos w)) (sym zero_wait) in
      rw (swap, done_swap, nobody) (inr (inr (c, count, refl, over, omega arith)))
  | inr waits ↦
      let on : (s.returned || false) ≡ false = ground arith in
      rw (swap, done_swap, waits) (inr (inl (c, n, refl, on, le)))
]

swap_step-IsRight : (s : State) → IsRight s → IsRight (step Step.swap_step s)
swap_step-IsRight s h = chosen IsRight s.in_done (swap s) s (in_loop h) (λ e. h)
  where
    in_loop : IsRight s → s.in_done ≡ true → IsRight (swap s)
    in_loop (inl (c, n, d, r)) e = absurd (cc)
    in_loop (inr (inl h)) e = swap-IsRight s h
    in_loop (inr (inr (c, n, d, r, le))) e = absurd (cc)

step-IsRight : (x : Step) (s : State) → IsRight s → IsRight (step x s)
step-IsRight Step.test_step s h = test-IsRight s h
step-IsRight Step.add_step s h = add-IsRight s h
step-IsRight Step.fin_step s h = fin-IsRight s h
step-IsRight Step.done_test_step s h = done_test-IsRight s h
step-IsRight Step.close_step s h = close_step-IsRight s h
step-IsRight Step.swap_step s h = swap_step-IsRight s h

run-IsRight : (xs : List Step) (s : State) → IsRight s → IsRight (run xs s)
run-IsRight [] s h = h
run-IsRight (x ∷ xs) s h =
    chosen IsRight s.panicked s (run xs (step x s)) (λ e. h)
      (λ e. run-IsRight xs (step x s) (step-IsRight x s h))

-- In any order of the steps of Wait, WaitC, fin by a caller that waits and any calls of Done: until
-- a swap of Done ends its loop, the counter is the number of callers that wait. From then on the
-- channel is closed, the counter is one less than that number, and those that wait, or go on to
-- wait, are no more than were between the test and the addition of Wait or WaitC at the close.
pub run-counts_waiters : (xs : List Step) → IsRight (run xs start)
unfolding init
run-counts_waiters xs = run-IsRight xs start (inl (refl, refl, refl, refl))
