-- ===== src/Bools/BoolS/Names.antt =====
-- The names in a rule of bools/BoolS.go, and what the loop asks of them.
use part.Common.{
  Bool, Bool-cases, List, Option, [], ap, append-nil, append_assoc, arith, chosen, false,
  if◌then◌else◌, inl, inr, length, none, refl, some, sym, true, ℕ, ◌&&◌, ◌++◌, ◌==◌, ◌||◌, ◌∙◌, ◌∷◌,
  ◌≡◌, ◌≤◌,
}
use part.Common.{chosen}
use part.Common.Keys.{bytes_eq, lookup}
use part.Bools.BoolS.{
  Act, Todo, parse_name, skip_text, todo, lbrace, rbrace, is_emp, open_todo, set_act,
}

-- The text before the first `}`.
abbrev pub name_before : List ℕ → Option (List ℕ)
name_before [] = none
name_before (c ∷ s) =
    let rest = name_before s in
    if c == rbrace then some [] else elim rest [ none ↦ none | some n ↦ some (c ∷ n) ]

abbrev pub add_name : Option (List ℕ) → List (List ℕ) → List (List ℕ)
add_name none ns = ns
add_name (some n) ns = n ∷ ns

-- What stands between a `{` and the first `}` after it.
abbrev pub rule_names : List ℕ → List (List ℕ)
rule_names [] = []
rule_names (c ∷ s) =
    let rest = rule_names s in if c == lbrace then add_name (name_before s) rest else rest

-- The map has a function for each of the names.
abbrev pub AllKnown : List (List ℕ × Bool) → List (List ℕ) → Type 0
AllKnown arg [] = Unit
AllKnown arg (n ∷ ns) = ((b : Bool) × (lookup bytes_eq n arg ≡ some b)) × AllKnown arg ns

module _ (arg : List (List ℕ × Bool)) where
  abbrev pub Known : List ℕ → Type 0
  Known s = AllKnown arg (rule_names s)

  -- The name that ends at the first `}` of `s` and begins with `acc`.
  abbrev pub Named : List ℕ → List ℕ → Type 0
  Named acc s =
      (n : List ℕ) → name_before s ≡ some n → (b : Bool) × (lookup bytes_eq (acc ++ n) arg ≡ some b)

  add_name-rest :
      (o : Option (List ℕ)) (ns : List (List ℕ)) → AllKnown arg (add_name o ns) → AllKnown arg ns
  add_name-rest none ns h = h
  add_name-rest (some n) ns (h, hs) = hs

  add_name-first :
      (o : Option (List ℕ)) (ns : List (List ℕ)) (n : List ℕ)
      → AllKnown arg (add_name o ns)
      → o ≡ some n
      → (b : Bool) × (lookup bytes_eq n arg ≡ some b)
  add_name-first none ns n h e = absurd (cc)
  add_name-first (some m) ns n ((b, h), hs) e =
      let same : m ≡ n = cc in (b, ap (λ z. lookup bytes_eq z arg) (sym same) ∙ h)

  pub Known-tail : (c : ℕ) (s : List ℕ) → Known (c ∷ s) → Known s
  Known-tail c s h = elim (Bool-cases (c == lbrace)) [
    | inl opens ↦
        let h' : AllKnown arg (add_name (name_before s) (rule_names s)) = rw opens at h in
        add_name-rest (name_before s) (rule_names s) h'
    | inr other ↦ rw other at h
  ]

  Known-name : (c : ℕ) (s : List ℕ) → Known (c ∷ s) → (c == lbrace) ≡ true → Named [] s
  Known-name c s h opens n e =
      let h' : AllKnown arg (add_name (name_before s) (rule_names s)) = rw opens at h in
      add_name-first (name_before s) (rule_names s) n h' e

  Named-next :
      (acc : List ℕ) (c : ℕ) (s : List ℕ)
      → Named acc (c ∷ s)
      → (c == rbrace) ≡ false
      → Named (acc ++ (c ∷ [])) s
  Named-next acc c s h other n e =
      let whole : name_before (c ∷ s) ≡ some (c ∷ n) = rw (other, e) refl in
      let (b, eq) = h (c ∷ n) whole in
      (b, ap (λ z. lookup bytes_eq z arg) (append_assoc acc (c ∷ []) n) ∙ eq)

  pub parse_name-total :
      (name s : List ℕ)
      → Named name s
      → Known s
      → (b : Bool) × (s' : List ℕ) × (parse_name arg name s ≡ some (b, s'))
        × (length s' ≤ length s)
        × Known s'
  unfolding parse_name
  parse_name-total name [] named known = (false, [], refl, omega arith, known)
  parse_name-total name (c ∷ s) named known = elim (Bool-cases (c == rbrace)) [
    | inl closes ↦
        let ends : name_before (c ∷ s) ≡ some [] = rw closes refl in
        let (b, eq) = named [] ends in
        let found = ap (λ n. lookup bytes_eq n arg) (sym (append-nil name)) ∙ eq in
        (b, s, rw (closes, found) refl, omega arith, Known-tail c s known)
    | inr other ↦
        let (b, s', eq, le, known') =
          parse_name-total (name ++ (c ∷ [])) s (Named-next name c s named other)
            (Known-tail c s known) in
        (b, s', rw other eq, omega arith, known')
  ]

  pub skip_text-Known : (b : ℕ) (s : List ℕ) → Known s → Known (skip_text b s)
  unfolding skip_text
  skip_text-Known b [] known = known
  skip_text-Known b (c ∷ s) known =
      chosen Known (c == b) s (skip_text b s) (λ e. Known-tail c s known)
        (λ e. skip_text-Known b s (Known-tail c s known))

  -- What an argument needs of the text behind its `{`.
  abbrev pub Asks : List ℕ → Todo → Type 0
  Asks s Todo.read_arg = Named [] s
  Asks s (Todo.go_on act neg) = Unit
  Asks s Todo.read_sub = Unit
  Asks s (Todo.skip_return close b) = Unit
  Asks s (Todo.stop b err) = Unit

  open_todo-Asks :
      (s : List ℕ) (read : Todo) (close : ℕ) (result : Bool) (act : Act)
      → Asks s read
      → Asks s (open_todo read close result act)
  open_todo-Asks s read close true Act.and_act h = h
  open_todo-Asks s read close false Act.and_act h = tt
  open_todo-Asks s read close true Act.or_act h = tt
  open_todo-Asks s read close false Act.or_act h = h
  open_todo-Asks s read close result Act.emp h = tt
  open_todo-Asks s read close result Act.not_act h = tt

  set_act-Asks : (s : List ℕ) (which act neg : Act) → Asks s (set_act which act neg)
  set_act-Asks s which act neg = chosen (Asks s) (is_emp act && is_emp neg) _ _ (λ e. tt) (λ e. tt)

  pub todo-Asks :
      (c : ℕ) (s : List ℕ) (result : Bool) (act neg : Act)
      → Known (c ∷ s)
      → Asks s (todo c result act neg)
  unfolding todo
  todo-Asks c s result act neg known =
      chosen (Asks s) (c == 123) _ _
        (λ e. open_todo-Asks s Todo.read_arg 125 result act (Known-name c s known e))
        (λ e.
          chosen (Asks s) (c == 33) _ _ (λ e. chosen (Asks s) (is_emp neg) _ _ (λ e. tt) (λ e. tt))
            (λ e.
              chosen (Asks s) (c == 38) _ _ (λ e. set_act-Asks s Act.and_act act neg)
                (λ e.
                  chosen (Asks s) (c == 124) _ _ (λ e. set_act-Asks s Act.or_act act neg)
                    (λ e.
                      chosen (Asks s) (c == 40) _ _
                        (λ e. open_todo-Asks s Todo.read_sub 41 result act tt)
                        (λ e.
                          chosen (Asks s) (c == 41) _ _ (λ e. tt)
                            (λ e.
                              chosen (Asks s) (c == 9 || c == 10 || c == 32) _ _ (λ e. tt)
                                (λ e. tt)))))))
