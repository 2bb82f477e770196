-- ===== src/Limit/Passing.antt =====
-- The callers of TO (limit/Limit.go) that wait are let through in the next period.
use part.Common.{List, arith, false, refl, replicate, suc, zero, ℕ, ◌++◌, ◌+◌, ◌<◌, ◌∷◌, ◌≡◌, ◌≤◌}
use part.Limit.{Limit, tick, refill, receive, Step, tick_step, refill_step, receive_step, step, run}

-- `k` rounds of the inner loop fill the bucket; the callers of `l` wait meanwhile.
record IsFilling (l : Limit) (k : ℕ) (s : Limit) : Type 0 where
  pub opened : s.is_closed ≡ false
  pub positive : 0 < s.druation
  pub same : s.max_num_in_period ≡ l.max_num_in_period
  pub full : s.bucket ≤ s.max_num_in_period
  pub comes : s.max_num_in_period ≤ s.bucket + s.adding
  pub enough : s.max_num_in_period ≤ s.bucket + k
  pub waits : s.wait_num ≡ l.wait_num
  pub passes : s.passed ≡ l.passed

refill-IsFilling :
    (l : Limit) (k : ℕ) (s : Limit) → IsFilling l (suc k) s → IsFilling l k (refill s)
unfolding refill
refill-IsFilling l k s h = grind arith

refills-IsFilling :
    (l : Limit) (k : ℕ) (s : Limit) (xs : List Step)
    → IsFilling l k s
    → (s' : Limit) × IsFilling l 0 s' × (run (replicate k refill_step ++ xs) s ≡ run xs s')
unfolding run step
refills-IsFilling l zero s xs h = (s, h, refl)
refills-IsFilling l (suc k) s xs h = refills-IsFilling l k (refill s) xs (refill-IsFilling l k s h)

receive_lem :
    (s : Limit)
    → 0 < s.wait_num
    → 0 < s.bucket
    → let r : Limit = (receive s).0 in
      (r.wait_num + 1 ≡ s.wait_num) × (r.bucket + 1 ≡ s.bucket) × (r.passed ≡ s.passed + 1)
unfolding receive
receive_lem s w b = grind arith

receives_pass :
    (k : ℕ) (s : Limit)
    → k ≤ s.wait_num
    → k ≤ s.bucket
    → let r : Limit = run (replicate k receive_step) s in
      (r.passed ≡ s.passed + k) × (r.wait_num + k ≡ s.wait_num)
unfolding run step
receives_pass zero s w b = (omega arith, omega arith)
receives_pass (suc k) s w b =
    let one = receive_lem s (omega arith) (omega arith) in
    let more = receives_pass k (receive s).0 (omega arith) (omega arith) in
    (omega arith, omega arith)

tick-IsFilling :
    (l : Limit)
    → l.is_closed ≡ false
    → 0 < l.druation
    → l.adding ≡ 0
    → l.bucket ≤ l.max_num_in_period
    → IsFilling l l.max_num_in_period (tick l)
unfolding tick
tick-IsFilling l o p a f = grind arith

-- In an open limiter whose duration is not 0 and whose goroutine waits for the end of its period: if
-- the period ends, the inner loop goes as often as the number of a period, and as many callers that
-- wait as that receive, then they have all got a value.
pub run_passes :
    (l : Limit) (k : ℕ)
    → l.is_closed ≡ false
    → 0 < l.druation
    → l.adding ≡ 0
    → l.bucket ≤ l.max_num_in_period
    → k ≤ l.max_num_in_period
    → k ≤ l.wait_num
    → let r : Limit =
        run
          (tick_step ∷ (replicate l.max_num_in_period refill_step ++ replicate k receive_step))
          l in
      (r.passed ≡ l.passed + k) × (r.wait_num + k ≡ l.wait_num)
unfolding run step
run_passes l k o p a f m w =
    let filling : IsFilling l l.max_num_in_period (tick l) = tick-IsFilling l o p a f in
    let (s, filled, eq) =
      refills-IsFilling l l.max_num_in_period (tick l) (replicate k receive_step) filling in
    let last =
      receives_pass k s (omega (arith, filled.waits)) (omega (arith, filled.enough, filled.same)) in
    rw eq (omega (arith, last.0, filled.passes), omega (arith, last.1, filled.waits))
