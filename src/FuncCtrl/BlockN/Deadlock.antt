-- ===== src/FuncCtrl/BlockN/Deadlock.antt =====
-- Two callers of BlockAll of funcCtrl/FuncCtrl.go can wait for each other.
use part.Common.{
  List, [], ap, ap₂, arith, false, le→not_ltb, lt→ltb, refl, replicate, suc, zero, ℕ, ◌++◌, ◌+◌,
  ◌-◌, ◌<◌, ◌==◌, ◌∙◌, ◌∷◌, ◌≡◌, ◌≤◌,
}
use part.FuncCtrl.BlockN.{
  acquiring, BlockFuncN, new_block_func_n, Step, block_all, go, advance, step, run,
}

-- The first caller has sent `a` values and the second one `b`.
abbrev pub two : ℕ → ℕ → ℕ → BlockFuncN
two most a b = record { n = a + b; tasks = acquiring a most ∷ acquiring b most ∷ [] }

module _ (most : ℕ) where
  sends_first : (a b : ℕ) → a + b < most → step most (go 0) (two most a b) ≡ two most (a + 1) b
  unfolding step advance
  sends_first a b h =
      let more : (a == most) ≡ false = ground arith in
      let room = lt→ltb (a + b) most h in
      let n : a + b + 1 ≡ a + 1 + b = omega arith in
      rw (more, room)
        (ap (λ x. record { n = x; tasks = acquiring (a + 1) most ∷ acquiring b most ∷ [] }) n)

  sends_second : (a b : ℕ) → a + b < most → step most (go 1) (two most a b) ≡ two most a (b + 1)
  unfolding step advance
  sends_second a b h =
      let more : (b == most) ≡ false = ground arith in
      let room = lt→ltb (a + b) most h in
      let n : a + b + 1 ≡ a + (b + 1) = omega arith in
      rw (more, room)
        (ap (λ x. record { n = x; tasks = acquiring a most ∷ acquiring (b + 1) most ∷ [] }) n)

  sends_first_each :
      (m a : ℕ) (rest : List Step)
      → a + m ≤ most
      → run most (replicate m (go 0) ++ rest) (two most a 0) ≡ run most rest (two most (a + m) 0)
  unfolding run
  sends_first_each zero a rest h =
      let same : a ≡ a + 0 = omega arith in ap (λ x. run most rest (two most x 0)) same
  sends_first_each (suc m) a rest h =
      let next : a + 1 + m ≡ a + suc m = omega arith in
      ap (run most (replicate m (go 0) ++ rest)) (sends_first a 0 (omega arith))
      ∙ sends_first_each m (a + 1) rest (omega arith)
      ∙ ap (λ x. run most rest (two most x 0)) next

  -- With the channel full, nobody of the two can send.
  stuck :
      (a b : ℕ)
      → a + b ≡ most
      → 0 < a
      → 0 < b
      → (i : ℕ) → step most (go i) (two most a b) ≡ two most a b
  unfolding step advance
  stuck a b full pa pb zero =
      let more : (a == most) ≡ false = ground arith in
      let room = le→not_ltb (a + b) most (omega arith) in rw (more, room) refl
  stuck a b full pa pb (suc zero) =
      let more : (b == most) ≡ false = ground arith in
      let room = le→not_ltb (a + b) most (omega arith) in rw (more, room) refl
  stuck a b full pa pb (suc (suc i)) = refl

-- Where there is room for two or more, two callers of BlockAll can come to a state in which
-- neither has got its unBlock and neither can ever send again, in whatever order they try.
pub run_deadlocks :
    (most : ℕ)
    → 2 ≤ most
    → let s : BlockFuncN = two most (most - 1) 1 in
      (xs : List Step) × (run most xs new_block_func_n ≡ s) × ((i : ℕ) → step most (go i) s ≡ s)
unfolding run step new_block_func_n
run_deadlocks most h =
    let m = most - 1 in
    let ends = go 1 ∷ [] in
    (
      block_all ∷ block_all ∷ (replicate m (go 0) ++ ends),
      sends_first_each most m 0 ends (omega arith)
          ∙ sends_second most (0 + m) 0 (omega arith)
          ∙ ap₂ (two most) (omega arith) refl,
      stuck most m 1 (omega arith) (omega arith) (omega arith),
    )
