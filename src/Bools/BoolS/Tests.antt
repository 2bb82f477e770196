-- ===== src/Bools/BoolS/Tests.antt =====
-- Witnesses for the theorems on rules.
use part.Common.{Bool, List, [], false, refl, some, true, ℕ, ◌==◌, ◌∷◌, ◌≡◌}
use part.Common.Keys.{lookup}
use part.Bools.BoolS.{Sr, Outcome, check, set_rule}
use part.Bools.BoolS.Total.{check-ends}
use part.Bools.BoolS.Flat.{Term}

-- The value of a name: only `t` is true.
abbrev is_t : List ℕ → Bool
is_t (c ∷ []) = c == 116
is_t _ = false

-- The map has the names `t` and `f`.
abbrev arg : List (List ℕ × Bool)
arg = (116 ∷ [], true) ∷ (102 ∷ [], false) ∷ []

abbrev start : Sr
start = record { rule = []; rest = []; fin = true; arg = arg }

abbrev t_term : Term
t_term = record { negated = false; name = 116 ∷ [] }

abbrev not_f : Term
not_f = record { negated = true; name = 102 ∷ [] }

-- `!{f}&{t}|!{f}`
abbrev terms : List (Bool × Term)
terms = (false, t_term) ∷ (true, not_f) ∷ []

-- `{t}&({f`
abbrev open_rule : List ℕ
open_rule = 123 ∷ 116 ∷ 125 ∷ 38 ∷ 40 ∷ 123 ∷ 102 ∷ []

check-ends_example : (o : Outcome) × (check (set_rule start open_rule) ≡ some o)
unfolding lookup
check-ends_example = check-ends start open_rule ((true, refl), tt)
