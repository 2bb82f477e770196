-- ===== src/Bools/BoolS/Total.antt =====
-- Check of bools/BoolS.go comes to an end on every rule.
use part.Common.{
  Bool, Bool-cases, List, Option, [], arith, false, inl, inr, length, none, refl, some, suc, true,
  zero, ℕ, ◌<◌, ◌==◌, ◌∷◌, ◌≡◌, ◌≤◌,
}
use part.Bools.BoolS.{
  Sr, Act, Err, Todo, Run, Outcome, goto, next, parse_name, parse_arg, skip_text, skip_to, todo,
  combine, after_sub, perform, check_loop, check, set_rule, new,
}
use part.Bools.BoolS.Names.{
  rule_names, AllKnown, Known, Named, Asks, Known-tail, parse_name-total, skip_text-Known,
  todo-Asks,
}

skip_text-shorter : (b : ℕ) (s : List ℕ) → length (skip_text b s) ≤ length s
unfolding skip_text
skip_text-shorter b [] = omega arith
skip_text-shorter b (c ∷ s) =
    let ih = skip_text-shorter b s in
    elim (Bool-cases (c == b)) [
      | inl same ↦ rw same (omega arith)
      | inr other ↦ rw other (omega arith)
    ]

module _ (t : Sr) where
  -- A result without a panic, at a place no further from the end than `s`, where the names of the
  -- text that is left are known too.
  abbrev Good : List ℕ → Option Outcome → Type 0
  Good s o =
      (s' : List ℕ) × (b : Bool) × (err : Option Err) × (o ≡ some (goto t s', b, err))
      × (length s' ≤ length s)
      × Known t.arg s'

  parse_arg-total :
      (s : List ℕ)
      → Named t.arg [] s
      → Known t.arg s
      → (b : Bool) × (s' : List ℕ) × (parse_arg (goto t s) ≡ some (b, goto t s'))
        × (length s' ≤ length s)
        × Known t.arg s'
  unfolding parse_arg parse_name
  parse_arg-total [] named known = (false, [], refl, omega arith, known)
  parse_arg-total (c ∷ s) named known =
      let (b, s', eq, le, known') = parse_name-total t.arg [] (c ∷ s) named known in
      (b, s', rw eq refl, le, known')

  skip_to-total :
      (b : ℕ) (s : List ℕ)
      → Known t.arg s
      → (s' : List ℕ) × (skip_to b (goto t s) ≡ goto t s') × (length s' ≤ length s) × Known t.arg s'
  unfolding skip_to
  skip_to-total b [] known = ([], refl, omega arith, known)
  skip_to-total b (c ∷ s) known = (
    skip_text b (c ∷ s),
    refl,
    skip_text-shorter b (c ∷ s),
    skip_text-Known t.arg b (c ∷ s) known,
  )

  perform-total :
      (run : Run) (td : Todo) (s : List ℕ) (result : Bool) (act neg : Act)
      → Asks t.arg s td
      → Known t.arg s
      → ((s' : List ℕ) (b : Bool) (a n : Act)
          → length s' ≤ length s
          → Known t.arg s'
          → Good s' (run (goto t s') b a n))
      → Good s (perform run td (goto t s) result act neg)
  unfolding perform
  perform-total run (Todo.go_on act' neg') s result act neg asks known good =
      good s result act' neg' (omega arith) known
  perform-total run Todo.read_arg s result act neg asks known good =
      let (b, s', eq, le, known') = parse_arg-total s asks known in
      let (s2, b2, err, eq2, le2, known2) =
        good s' (combine act neg result b) Act.emp Act.emp le known' in
      (s2, b2, err, rw eq eq2, omega arith, known2)
  perform-total run Todo.read_sub s result act neg asks known good =
      let (s1, b1, err1, eq1, le1, known1) = good s true Act.and_act Act.emp (omega arith) known in
      let (s2, b2, err2, eq2, le2, known2) = after s1 b1 err1 le1 known1 in
      (s2, b2, err2, rw eq1 eq2, omega arith, known2)
    where
      after :
          (s1 : List ℕ) (b1 : Bool) (err : Option Err)
          → length s1 ≤ length s
          → Known t.arg s1
          → Good s (after_sub run result act neg (goto t s1, b1, err))
      after s1 b1 (some err) le known1 = (s1, false, some err, refl, le, known1)
      after s1 b1 none le known1 =
          let (s2, b2, err2, eq2, le2, known2) =
            good s1 (combine act neg result b1) Act.emp Act.emp le known1 in
          (s2, b2, err2, eq2, omega arith, known2)
  perform-total run (Todo.skip_return close b) s result act neg asks known good =
      let (s', eq, le, known') = skip_to-total close s known in
      (s', b, none, rw eq refl, le, known')
  perform-total run (Todo.stop b err) s result act neg asks known good =
      (s, b, err, refl, omega arith, known)

  check_loop-total :
      (fuel : ℕ) (s : List ℕ) (result : Bool) (act neg : Act)
      → length s < fuel
      → Known t.arg s
      → Good s (check_loop fuel (goto t s) result act neg)
  unfolding check_loop next
  check_loop-total zero s result act neg h known = absurd (omega arith)
  check_loop-total (suc fuel) [] result act neg h known =
      ([], result, none, refl, omega arith, known)
  check_loop-total (suc fuel) (c ∷ s) result act neg h known =
      let (s', b, err, eq, le, known') =
        perform-total (λ v b a n. check_loop fuel v b a n) (todo c result act neg) s result act neg
          (todo-Asks t.arg c s result act neg known) (Known-tail t.arg c s known)
          (λ s' b a n le known. check_loop-total fuel s' b a n (omega arith) known) in
      (s', b, err, eq, omega arith, known')

-- Where the map has a function for each name between a `{` of the rule and the first `}` after it,
-- Check of the rule that SetRule sets comes to an end without a panic.
pub check-ends :
    (t : Sr) (s : List ℕ)
    → AllKnown t.arg (rule_names s)
    → (o : Outcome) × (check (set_rule t s) ≡ some o)
unfolding check set_rule
check-ends t s known =
    let t' : Sr = record t { rule = s } in
    let (s', b, err, eq, le, known') =
      check_loop-total t' (suc (length s)) s true Act.and_act Act.emp (omega arith) known in
    ((goto t' s', b, err), eq)

-- A fresh evaluator of the empty rule reads past its end.
check-new_panics : (arg : List (List ℕ × Bool)) → check (new [] arg) ≡ none
unfolding check new check_loop next
check-new_panics arg = refl
