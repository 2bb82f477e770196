-- ===== src/FuncCtrl/BlockN/Exclusion.antt =====
-- BlockFuncN of funcCtrl/FuncCtrl.go lets in no more than it has room for.
use part.Common.{
  ==_iff, List, Option-cases, [], ap, arith, get_elem?, inl, inr, none, refl, set, some, suc, zero,
  ℕ, ◌++◌, ◌+◌, ◌<◌, ◌∷◌, ◌≡◌, ◌≤◌,
}
use part.FuncCtrl.BlockN.{
  Task, acquiring, holding, releasing, BlockFuncN, new_block_func_n, Step, block, block_all, go,
  advance, step, run,
}

-- The values in the channel that a caller has sent and not received back.
abbrev pub held_by : Task → ℕ
held_by (acquiring held target) = held
held_by (holding target) = target
held_by (releasing held) = held

abbrev pub total : List Task → ℕ
total [] = 0
total (t ∷ ts) = held_by t + total ts

total-append : (xs ys : List Task) → total (xs ++ ys) ≡ total xs + total ys
total-append [] ys = omega arith
total-append (x ∷ xs) ys = omega (arith, total-append xs ys)

total-set :
    (ts : List Task) (i : ℕ) (x y : Task)
    → get_elem? ts i ≡ some x
    → total (set ts i y) + held_by x ≡ total ts + held_by y
total-set [] i x y h = absurd (cc)
total-set (t ∷ ts) zero x y h =
    let e : held_by t ≡ held_by x = ap (λ o. elim o [ none ↦ 0 | some z ↦ held_by z ]) h in
    omega arith
total-set (t ∷ ts) (suc i) x y h = omega (arith, total-set ts i x y h)

total-get : (ts : List Task) (i : ℕ) (x : Task) → get_elem? ts i ≡ some x → held_by x ≤ total ts
total-get [] i x h = absurd (cc)
total-get (t ∷ ts) zero x h =
    let e : held_by t ≡ held_by x = ap (λ o. elim o [ none ↦ 0 | some z ↦ held_by z ]) h in
    omega arith
total-get (t ∷ ts) (suc i) x h = omega (arith, total-get ts i x h)

total-get_two :
    (ts : List Task) (i j : ℕ) (x y : Task)
    → i < j
    → get_elem? ts i ≡ some x
    → get_elem? ts j ≡ some y
    → held_by x + held_by y ≤ total ts
total-get_two [] i j x y lt hx hy = absurd (cc)
total-get_two (t ∷ ts) zero zero x y lt hx hy = absurd (omega arith)
total-get_two (t ∷ ts) zero (suc j) x y lt hx hy =
    let e : held_by t ≡ held_by x = ap (λ o. elim o [ none ↦ 0 | some z ↦ held_by z ]) hx in
    omega (arith, total-get ts j y hy)
total-get_two (t ∷ ts) (suc i) zero x y lt hx hy = absurd (omega arith)
total-get_two (t ∷ ts) (suc i) (suc j) x y lt hx hy =
    omega (arith, total-get_two ts i j x y (omega arith) hx hy)

-- The channel has what the callers have sent, and no more than its room.
abbrev pub IsCounted : ℕ → BlockFuncN → Type 0
IsCounted most t = (t.n ≡ total t.tasks) × (t.n ≤ most)

module _ (most : ℕ) where
  advance_lem :
      (x : Task) (n : ℕ)
      → n ≤ most
      → held_by x ≤ n
      → let r = advance most x n in (r.1 + held_by x ≡ n + held_by r.0) × (r.1 ≤ most)
  unfolding advance
  advance_lem (acquiring held target) n h k = ground (arith, ==_iff held target)
  advance_lem (holding target) n h k = (omega arith, omega arith)
  advance_lem (releasing zero) n h k = (omega arith, omega arith)
  advance_lem (releasing (suc held)) n h k = (omega arith, omega arith)

  step-IsCounted : (s : Step) (t : BlockFuncN) → IsCounted most t → IsCounted most (step most s t)
  unfolding step
  step-IsCounted block t (e, le) = (omega (arith, total-append t.tasks (acquiring 0 1 ∷ [])), le)
  step-IsCounted block_all t (e, le) =
      (omega (arith, total-append t.tasks (acquiring 0 most ∷ [])), le)
  step-IsCounted (go i) t (e, le) = elim (Option-cases (get_elem? t.tasks i)) [
    | inl nobody ↦ rw (step, nobody) (e, le)
    | inr (x, found) ↦
        let r = advance most x t.n in
        let within = total-get t.tasks i x found in
        let moved = advance_lem x t.n le (omega arith) in
        let sums = total-set t.tasks i x r.0 found in rw (step, found) (omega arith, moved.1)
  ]

  run-IsCounted :
      (xs : List Step) (t : BlockFuncN) → IsCounted most t → IsCounted most (run most xs t)
  unfolding run
  run-IsCounted [] t h = h
  run-IsCounted (x ∷ xs) t h = run-IsCounted xs (step most x t) (step-IsCounted x t h)

  -- In any order of the sends and receives of any callers of Block and BlockAll, the callers that
  -- hold their unBlock have sent no more values than there is room for, two of them together too:
  -- while one from BlockAll holds it, nobody from Block does.
  pub run-excludes :
      (xs : List Step) (i j held held' : ℕ)
      → i < j
      → get_elem? (run most xs new_block_func_n).tasks i ≡ some (holding held)
      → get_elem? (run most xs new_block_func_n).tasks j ≡ some (holding held')
      → held + held' ≤ most
  unfolding new_block_func_n
  run-excludes xs i j held held' lt hi hj =
      let t = run most xs new_block_func_n in
      let counted = run-IsCounted xs new_block_func_n (refl, omega arith) in
      omega (arith, total-get_two t.tasks i j (holding held) (holding held') lt hi hj)
