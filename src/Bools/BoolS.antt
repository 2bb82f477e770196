-- ===== src/Bools/BoolS.antt =====
-- The rule evaluator `sr` of bools/BoolS.go. The text from position `i` on is kept as a list of
-- bytes in place of the index, and the loops on it run on fuel. The map `arg` is the list of its
-- names, each with what its function returns. `none` is a panic, or fuel that
-- is spent.
pub mod Names
pub mod Total
pub mod Flat
mod Tests
use part.Common.{
  ==_iff, ==_refl, Bool, Bool-cases, List, Option, [], ap, append-nil, append_assoc, ap₂, arith,
  drop, drop-append_exact, drop-append_sum, drop-drop, drop-min, drop-take, drop_all, false,
  get_elem?, if◌then◌else◌, inl, inr, leb, leb→le, length, length-append, length-drop,
  length-replicate, length-set, length-take, le→leb, ltb, ltb→lt, lt→ltb, max, min, negsuc, none,
  not, pos, refl, replicate, require, set, some, suc, sym, take, take-append, take-append-drop,
  take-append_exact, take-append_sum, take-min, take-take, take_all, true, zero, ℕ, ℤ, ◌%◌, ◌&&◌,
  ◌*◌, ◌++◌, ◌+◌, ◌-◌, ◌/◌, ◌<◌, ◌==◌, ◌>>=◌, ◌>>◌, ◌^◌, ◌||◌, ◌↔◌, ◌∙◌, ◌∷◌, ◌≡◌, ◌≢◌, ◌≤◌, ◌⊎◌,
}
use part.Common.Keys.{bytes_eq, lookup}

abbrev pub lbrace : ℕ
lbrace = 123

abbrev pub rbrace : ℕ
rbrace = 125

abbrev pub is_nil : List ℕ → Bool
is_nil [] = true
is_nil (c ∷ s) = false

pub data Act : Type 0 where
  emp and_act or_act not_act : Act

pub data Err : Type 0 where
  err_no_act err_had_act err_unkown_char : Err

abbrev pub is_emp : Act → Bool
is_emp Act.emp = true
is_emp _ = false

abbrev pub is_not : Act → Bool
is_not Act.not_act = true
is_not _ = false

pub record Sr : Type 0 where
  pub rule : List ℕ
  pub rest : List ℕ
  pub fin : Bool
  pub arg : List (List ℕ × Bool)

pub new : List ℕ → List (List ℕ × Bool) → Sr
new s arg = record { rule = s; rest = s; fin = false; arg = arg }

-- The state after a read, at the text that is left.
abbrev pub goto : Sr → List ℕ → Sr
goto t s = record t { rest = s; fin = is_nil s }

pub set_rule : Sr → List ℕ → Sr
set_rule t s = record t { rule = s; rest = s; fin = is_nil s }

pub set_arg : Sr → List (List ℕ × Bool) → Sr
set_arg t arg = record t { arg = arg; rest = t.rule; fin = is_nil t.rule }

pub next : Sr → Option (ℕ × Sr)
next t = elim (t.rest) [ [] ↦ none | c ∷ s ↦ some (c, goto t s) ]

-- The name between the braces; a name that `arg` has no function for is a call of nil.
pub parse_name : List (List ℕ × Bool) → List ℕ → List ℕ → Option (Bool × List ℕ)
parse_name arg name [] = some (false, [])
parse_name arg name (c ∷ s) =
    if c == rbrace
    then (do b ← lookup bytes_eq name arg; some (b, s))
    else parse_name arg (name ++ (c ∷ [])) s

pub parse_arg : Sr → Option (Bool × Sr)
unfolding parse_name
parse_arg t =
    if t.fin then some (false, t) else (do r ← parse_name t.arg [] t.rest; some (r.0, goto t r.1))

pub skip_text : ℕ → List ℕ → List ℕ
skip_text b [] = []
skip_text b (c ∷ s) = if c == b then s else skip_text b s

pub skip_to : ℕ → Sr → Sr
unfolding skip_text
skip_to b t = if t.fin then t else goto t (skip_text b t.rest)

-- `result && x` or `result || x`, with the value negated after a `!`.
abbrev pub combine : Act → Act → Bool → Bool → Bool
combine act neg result b = elim act [
  | Act.or_act ↦ result || (if is_not neg then not b else b)
  | _ ↦ result && (if is_not neg then not b else b)
]

abbrev pub Outcome : Type 0
Outcome = Sr × Bool × Option Err

-- What a byte asks of the loop: to go on with an act and a negation, to read an argument, to
-- read a rule in parentheses, or to stop.
pub data Todo : Type 0 where
  go_on : Act → Act → Todo
  read_arg read_sub : Todo
  skip_return : ℕ → Bool → Todo
  stop : Bool → Option Err → Todo

-- A `{` or a `(`, which ends at the byte `close`.
abbrev pub open_todo : Todo → ℕ → Bool → Act → Todo
open_todo read close result Act.and_act = if result then read else Todo.skip_return close false
open_todo read close result Act.or_act = if result then Todo.skip_return close true else read
open_todo read close result _ = Todo.stop false (some Err.err_no_act)

abbrev pub set_act : Act → Act → Act → Todo
set_act new_act act neg =
    if is_emp act && is_emp neg
    then Todo.go_on new_act neg
    else Todo.stop false (some Err.err_had_act)

pub todo : ℕ → Bool → Act → Act → Todo
todo c result act neg =
    if c == 123
    then open_todo Todo.read_arg 125 result act
    else if c == 33
    then (if is_emp neg then Todo.go_on act Act.not_act else Todo.go_on act Act.emp)
    else if c == 38
    then set_act Act.and_act act neg
    else if c == 124
    then set_act Act.or_act act neg
    else if c == 40
    then open_todo Todo.read_sub 41 result act
    else if c == 41
    then Todo.stop result none
    else if c == 9 || c == 10 || c == 32
    then Todo.go_on act neg
    else Todo.stop false (some Err.err_unkown_char)

abbrev pub Run : Type 0
Run = Sr → Bool → Act → Act → Option Outcome

-- What follows a rule in parentheses.
abbrev pub after_sub : Run → Bool → Act → Act → Outcome → Option Outcome
after_sub run result act neg (v, cr, some err) = some (v, false, some err)
after_sub run result act neg (v, cr, none) = run v (combine act neg result cr) Act.emp Act.emp

-- The case of one byte; `run` is the loop from there on.
pub perform : Run → Todo → Sr → Bool → Act → Act → Option Outcome
unfolding parse_arg skip_to
perform run (Todo.go_on act' neg') u result act neg = run u result act' neg'
perform run Todo.read_arg u result act neg = do
  r ← parse_arg u
  run r.1 (combine act neg result r.0) Act.emp Act.emp
perform run Todo.read_sub u result act neg = do
  r ← run u true Act.and_act Act.emp
  after_sub run result act neg r
perform run (Todo.skip_return close b) u result act neg = some (skip_to close u, b, none)
perform run (Todo.stop b err) u result act neg = some (u, b, err)

pub check_loop : ℕ → Sr → Bool → Act → Act → Option Outcome
unfolding next todo perform
check_loop zero t result act neg = none
check_loop (suc fuel) t result act neg = if t.fin then some (t, result, none) else (do
  r ← next t
  perform (λ v b a n. check_loop fuel v b a n) (todo r.0 result act neg) r.1 result act neg)

-- Each round reads a byte, so one round more than the text has bytes is enough.
pub check : Sr → Option Outcome
unfolding check_loop
check t = check_loop (suc (length t.rest)) t true Act.and_act Act.emp
