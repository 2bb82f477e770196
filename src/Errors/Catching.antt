-- ===== src/Errors/Catching.antt =====
-- What Catch of errors/errors.go finds in what Join makes.
use part.Common.{
  ==_refl, Bool, Bool-cases, List, [], ap, false, inl, inr, refl, true, ℕ, ◌++◌, ◌==◌, ◌||◌, ◌∙◌,
  ◌∷◌, ◌≡◌,
}
use part.Errors.{
  Err, action, reasoned, plain, caused, joined, to_list, from_list, go_join, each_some, unwrap_all,
  flat, join, new_err, unwrap, is_error, some_error, catch_error,
}

-- An error of the action itself.
abbrev pub has_action : ℕ → Err → Bool
has_action t (reasoned reason t') = t' == t
has_action t (action _) = false
has_action t (plain _) = false
has_action t (caused _ _) = false
has_action t (joined _) = false

abbrev pub any_action : ℕ → List Err → Bool
any_action t [] = false
any_action t (e ∷ es) = has_action t e || any_action t es

-- An error of the action, the action, or errors joined of which one is an error of the action.
abbrev pub has_inside : ℕ → Err → Bool
has_inside t (reasoned reason t') = t' == t
has_inside t (action t') = t' == t
has_inside t (plain _) = false
has_inside t (caused _ _) = false
has_inside t (joined es) = any_action t (to_list es)

abbrev pub any_inside : ℕ → List Err → Bool
any_inside t [] = false
any_inside t (e ∷ es) = has_inside t e || any_inside t es

any_action-append :
    (t : ℕ) (xs ys : List Err) → any_action t (xs ++ ys) ≡ (any_action t xs || any_action t ys)
any_action-append t [] ys = refl
any_action-append t (x ∷ xs) ys = elim (Bool-cases (has_action t x)) [
  | inl same ↦ rw same refl
  | inr other ↦ rw other (any_action-append t xs ys)
]

any_action-flat : (t : ℕ) (es : List Err) → any_action t (flat es) ≡ any_inside t es
unfolding flat unwrap_all
any_action-flat t [] = refl
any_action-flat t (reasoned reason t' ∷ es) = ap (λ b. (t' == t) || b) (any_action-flat t es)
any_action-flat t (action t' ∷ es) = ap (λ b. (t' == t) || b) (any_action-flat t es)
any_action-flat t (plain text ∷ es) = any_action-flat t es
any_action-flat t (caused text e ∷ es) = any_action-flat t es
any_action-flat t (joined fs ∷ es) =
    any_action-append t (to_list fs) (flat es)
    ∙ ap (λ b. any_action t (to_list fs) || b) (any_action-flat t es)

to_list-from_list : (es : List Err) → to_list (from_list es) ≡ es
to_list-from_list [] = refl
to_list-from_list (e ∷ es) = ap (λ z. e ∷ z) (to_list-from_list es)

some_error-each_some : (t : ℕ) (es : List Err) → some_error t (each_some es) ≡ any_action t es
unfolding some_error is_error
some_error-each_some t [] = refl
some_error-each_some t (reasoned reason t' ∷ es) = elim (Bool-cases (t' == t)) [
  | inl same ↦ rw same refl
  | inr other ↦ rw other (some_error-each_some t es)
]
some_error-each_some t (action t' ∷ es) = some_error-each_some t es
some_error-each_some t (plain text ∷ es) = some_error-each_some t es
some_error-each_some t (caused text e ∷ es) = some_error-each_some t es
some_error-each_some t (joined fs ∷ es) = some_error-each_some t es

catch_error-go_join : (t : ℕ) (es : List Err) → catch_error (go_join es) t ≡ any_action t es
unfolding catch_error is_error unwrap
catch_error-go_join t [] = refl
catch_error-go_join t (e ∷ es) =
    some_error-each_some t (to_list (from_list (e ∷ es)))
    ∙ ap (any_action t) (to_list-from_list (e ∷ es))

catches : (t : ℕ) (es : List Err) → catch_error (join es) t ≡ any_inside t es
unfolding join
catches t [] = catch_error-go_join t []
catches t (e ∷ es) = catch_error-go_join t (flat (e ∷ es)) ∙ any_action-flat t (e ∷ es)

-- Catch of joined errors finds an action exactly where one of them is it, is an error of it, or is
-- itself of joined errors of which one is an error of it; what has one cause is not looked into. So
-- what NewErr of an action makes is caught by that action, whatever it is joined with.
pub catch_error-join :
    (t : ℕ) (es : List Err)
    → (catch_error (join es) t ≡ any_inside t es) × (catch_error (new_err t es) t ≡ true)
unfolding new_err
catch_error-join t es =
    let itself : (t == t) ≡ true = ==_refl t in
    (catches t es, catches t (action t ∷ es) ∙ rw itself refl)
