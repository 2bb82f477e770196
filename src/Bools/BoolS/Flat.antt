-- ===== src/Bools/BoolS/Flat.antt =====
-- Rules without parentheses: Check of bools/BoolS.go against an evaluator from left to right.
use part.Common.{
  Bool, List, [], ap, append-nil, append_assoc, arith, false, if◌then◌else◌, length, none, not,
  refl, some, suc, sym, true, ℕ, ◌++◌, ◌-◌, ◌<◌, ◌==◌, ◌∙◌, ◌∷◌, ◌≡◌,
}
use part.Common.Keys.{bytes_eq, lookup}
use part.Bools.BoolS.{
  Sr, Act, goto, is_not, next, parse_name, parse_arg, skip_text, skip_to, todo, perform, check_loop,
  check, set_rule,
}

-- A condition `{name}` or `!{name}`.
pub record Term : Type 0 where
  pub negated : Bool
  pub name : List ℕ

abbrev pub print_term : Term → List ℕ → List ℕ
print_term x s = let body = 123 ∷ x.name ++ (125 ∷ s) in if x.negated then 33 ∷ body else body

-- The terms that follow, each after `|` (true) or `&` (false).
abbrev pub print_rest : List (Bool × Term) → List ℕ
print_rest [] = []
print_rest ((true, x) ∷ xs) = 124 ∷ print_term x (print_rest xs)
print_rest ((false, x) ∷ xs) = 38 ∷ print_term x (print_rest xs)

abbrev pub value : (List ℕ → Bool) → Term → Bool
value v x = if x.negated then not (v x.name) else v x.name

-- From left to right: a false before `&` makes the rule false, a true before `|` makes it true.
abbrev pub eval : (List ℕ → Bool) → Bool → List (Bool × Term) → Bool
eval v r [] = r
eval v r ((true, x) ∷ xs) = if r then true else eval v (value v x) xs
eval v r ((false, x) ∷ xs) = if r then eval v (value v x) xs else false

abbrev pub NoBrace : List ℕ → Type 0
NoBrace [] = Unit
NoBrace (c ∷ s) = ((c == 125) ≡ false) × NoBrace s

-- A name without `}` that the map has, with the value `v`.
abbrev pub IsName : List (List ℕ × Bool) → (List ℕ → Bool) → List ℕ → Type 0
IsName arg v name = NoBrace name × (lookup bytes_eq name arg ≡ some (v name))

abbrev pub AreNames : List (List ℕ × Bool) → (List ℕ → Bool) → List (Bool × Term) → Type 0
AreNames arg v [] = Unit
AreNames arg v ((b, x) ∷ xs) = IsName arg v x.name × AreNames arg v xs

module _ (t : Sr) (v : List ℕ → Bool) where
  parse_name-print :
      (acc name s : List ℕ)
      → NoBrace name
      → lookup bytes_eq (acc ++ name) t.arg ≡ some (v (acc ++ name))
      → parse_name t.arg acc (name ++ (125 ∷ s)) ≡ some (v (acc ++ name), s)
  unfolding parse_name
  parse_name-print acc [] s nb known =
      let here = ap (λ n. lookup bytes_eq n t.arg) (sym (append-nil acc)) ∙ known in rw here refl
  parse_name-print acc (c ∷ name) s (other, nb) known =
      let same = append_assoc acc (c ∷ []) name in
      let known' : lookup bytes_eq ((acc ++ (c ∷ [])) ++ name) t.arg
          ≡ some (v ((acc ++ (c ∷ [])) ++ name)) =
        rw same known in
      rw other (parse_name-print (acc ++ (c ∷ [])) name s nb known' ∙ rw same refl)

  parse_arg-print :
      (name s : List ℕ)
      → IsName t.arg v name
      → parse_arg (goto t (name ++ (125 ∷ s))) ≡ some (v name, goto t s)
  unfolding parse_arg
  parse_arg-print [] s nb = rw (parse_name-print [] [] s nb.0 nb.1) refl
  parse_arg-print (c ∷ name) s nb = rw (parse_name-print [] (c ∷ name) s nb.0 nb.1) refl

  -- The loop reads a term whose value decides the rule so far.
  brace-and :
      (fuel : ℕ) (name s : List ℕ) (neg : Act)
      → IsName t.arg v name
      → check_loop (suc fuel) (goto t (123 ∷ name ++ (125 ∷ s))) true Act.and_act neg
        ≡ check_loop fuel (goto t s) (if is_not neg then not (v name) else v name) Act.emp Act.emp
  unfolding check_loop next todo perform
  brace-and fuel name s neg nb = rw (parse_arg-print name s nb) refl

  abbrev Ends : ℕ → List ℕ → Bool → Act → Act → Bool → Type 0
  Ends fuel s r act neg b =
      (s' : List ℕ) × (check_loop fuel (goto t s) r act neg ≡ some (goto t s', b, none))

  -- How a loop that has read enough text ends.
  abbrev After : List ℕ → Bool → Bool → Type 0
  After s r b = (fuel : ℕ) → length s < fuel → Ends fuel s r Act.emp Act.emp b

  length-print : (name s : List ℕ) → length s < length (name ++ (125 ∷ s))
  length-print [] s = omega arith
  length-print (c ∷ name) s = let ih = length-print name s in omega arith

  skip_text-print : (name s : List ℕ) → NoBrace name → skip_text 125 (name ++ (125 ∷ s)) ≡ s
  unfolding skip_text
  skip_text-print [] s nb = refl
  skip_text-print (c ∷ name) s (other, nb) = rw other (skip_text-print name s nb)

  skip_to-print :
      (name s : List ℕ) → NoBrace name → skip_to 125 (goto t (name ++ (125 ∷ s))) ≡ goto t s
  unfolding skip_to
  skip_to-print [] s nb = rw (skip_text-print [] s nb) refl
  skip_to-print (c ∷ name) s nb = rw (skip_text-print (c ∷ name) s nb) refl

  -- After `{a}` is false, `&{b}` ends the loop just behind it.
  false-and :
      (fuel : ℕ) (name s : List ℕ)
      → NoBrace name
      → check_loop (suc (suc fuel)) (goto t (38 ∷ 123 ∷ name ++ (125 ∷ s))) false Act.emp Act.emp
        ≡ some (goto t s, false, none)
  unfolding check_loop next todo perform
  false-and fuel name s nb = rw (skip_to-print name s nb) refl

  sub-step :
      (fuel : ℕ) (text s : List ℕ) (r : Bool)
      → check_loop fuel (goto t text) true Act.and_act Act.emp ≡ some (goto t s, r, none)
      → check_loop (suc fuel) (goto t (40 ∷ text)) true Act.and_act Act.emp
        ≡ check_loop fuel (goto t s) r Act.emp Act.emp
  unfolding check_loop next todo perform
  sub-step fuel text s r h = rw h refl

  paren-false :
      (fuel : ℕ) (a b c s : List ℕ)
      → IsName t.arg v a
      → NoBrace b
      → NoBrace c
      → v a ≡ false
      → check_loop
          (suc (suc (suc (suc fuel))))
          (goto t (40 ∷ 123 ∷ a ++ (125 ∷ 38 ∷ 123 ∷ b ++ (125 ∷ 38 ∷ 123 ∷ c ++ (125 ∷ s)))))
          true
          Act.and_act
          Act.emp
        ≡ some (goto t s, false, none)
  paren-false fuel a b c s na nb nc h =
      let more = 38 ∷ 123 ∷ c ++ (125 ∷ s) in
      let sub =
        brace-and (suc (suc fuel)) a (38 ∷ 123 ∷ b ++ (125 ∷ more)) Act.emp na
        ∙ ap
            (λ r.
              check_loop (suc (suc fuel)) (goto t (38 ∷ 123 ∷ b ++ (125 ∷ more))) r Act.emp Act.emp)
            h
        ∙ false-and fuel b more nb in
      sub-step (suc (suc (suc fuel))) (123 ∷ a ++ (125 ∷ 38 ∷ 123 ∷ b ++ (125 ∷ more))) more false
        sub
      ∙ false-and (suc fuel) c s nc

-- A rule that begins with `({a}&{b}&{c}` is false where a is false, whatever follows: `)|{d}` too.
pub check-paren_false :
    (t : Sr) (v : List ℕ → Bool) (a b c s : List ℕ)
    → IsName t.arg v a
    → NoBrace b
    → NoBrace c
    → v a ≡ false
    → let rule = 40 ∷ 123 ∷ a ++ (125 ∷ 38 ∷ 123 ∷ b ++ (125 ∷ 38 ∷ 123 ∷ c ++ (125 ∷ s))) in
      (u : Sr) × (check (set_rule t rule) ≡ some (u, false, none))
unfolding check set_rule
check-paren_false t v a b c s na nb nc h =
    let rule = 40 ∷ 123 ∷ a ++ (125 ∷ 38 ∷ 123 ∷ b ++ (125 ∷ 38 ∷ 123 ∷ c ++ (125 ∷ s))) in
    let t' : Sr = record t { rule = rule } in
    let long : suc (suc (suc (suc (length rule - 3)))) ≡ suc (length rule) =
      let la = length-print t' v a (38 ∷ 123 ∷ b ++ (125 ∷ 38 ∷ 123 ∷ c ++ (125 ∷ s))) in
      omega arith in
    (
      goto t' s,
      ap (λ f. check_loop f (goto t' rule) true Act.and_act Act.emp) (sym long)
          ∙ paren-false t' v (length rule - 3) a b c s na nb nc h,
    )
