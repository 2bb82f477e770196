-- ===== src/Limit/Bound.antt =====
-- limit/Limit.go lets through no more than the number of a period for each period.
use part.Common.{
  Bool-cases, List, [], arith, inl, inr, none, refl, some, sym, ℕ, ◌*◌, ◌+◌, ◌<◌, ◌==◌, ◌∷◌, ◌≡◌,
  ◌≤◌,
}
use part.Limit.{
  Timeout, Limit, started, new, tick, refill, stop, close, to, receive, time_out, Step, tick_step,
  refill_step, stop_step, close_step, to_step, receive_step, time_out_step, step, run,
}

-- The values in the bucket and those still to come are within what is left.
record IsBounded (n : ℕ) (l : Limit) : Type 0 where
  pub same : l.max_num_in_period ≡ n
  pub positive : 0 < l.druation
  pub full : l.bucket ≤ n
  pub bound : l.passed + l.bucket + l.adding ≤ n * (l.periods + 1)

step-IsBounded : (n : ℕ) (x : Step) (l : Limit) → IsBounded n l → IsBounded n (step x l)
unfolding step tick refill stop close to receive time_out
step-IsBounded n tick_step l h = grind arith
step-IsBounded n refill_step l h = grind arith
step-IsBounded n stop_step l h = grind arith
step-IsBounded n close_step l h = grind arith
step-IsBounded n to_step l h = grind arith
step-IsBounded n receive_step l h = grind arith
step-IsBounded n time_out_step l h = grind arith

run-IsBounded : (n : ℕ) (xs : List Step) (l : Limit) → IsBounded n l → IsBounded n (run xs l)
unfolding run
run-IsBounded n [] l h = h
run-IsBounded n (x ∷ xs) l h = run-IsBounded n xs (step x l) (step-IsBounded n x l h)

new-IsBounded : (n d : ℕ) (t : Timeout) (l : Limit) → 0 < d → new n d t ≡ some l → IsBounded n l
unfolding new
new-IsBounded n d t l p h = elim (Bool-cases (n == 0)) [
  | inl e ↦ let no : new n d t ≡ none = rw (new, e) refl in absurd (cc)
  | inr e ↦
      let yes : new n d t ≡ some (started n d t) = rw (new, e) refl in
      let same : started n d t ≡ l = cc in
      rw (sym same) (record { same = refl; positive = p; full = omega arith; bound = omega arith })
]

-- Where the duration is not 0, in whatever order the goroutine and any callers take their steps: at
-- most `n` callers have got a value for each period, the first included, with what is still in the
-- bucket, which has at most `n`.
pub run_bounded :
    (n d : ℕ) (t : Timeout) (l : Limit) (xs : List Step)
    → 0 < d
    → new n d t ≡ some l
    → ((run xs l).passed + (run xs l).bucket ≤ n * ((run xs l).periods + 1))
      × ((run xs l).bucket ≤ n)
run_bounded n d t l xs p h =
    let b = run-IsBounded n xs l (new-IsBounded n d t l p h) in (omega (arith, b.bound), b.full)
