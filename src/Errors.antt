-- ===== src/Errors.antt =====
-- errors/errors.go: errors as trees, Join, Unwrap and Catch. Strings are only compared, so a string
-- is a number. An error that is none of the package is one without Unwrap, with one cause (as of
-- fmt.Errorf) or with several (as of the errors.Join of Go). `none` is nil.
pub mod Catching
mod Tests
use part.Common.{
  ==_iff, ==_refl, Bool, Bool-cases, List, Option, Option-cases, [], ap, append-nil, append_assoc,
  ap₂, arith, drop, drop-append_exact, drop-append_sum, drop-drop, drop-min, drop-take, drop_all,
  false, get_elem?, if◌then◌else◌, inl, inr, leb, leb→le, length, length-append, length-drop,
  length-replicate, length-set, length-take, le→leb, le→not_ltb, ltb, ltb→lt, lt→ltb, max, min,
  negsuc, none, not, pos, refl, replicate, require, set, some, suc, sym, take, take-append,
  take-append-drop, take-append_exact, take-append_sum, take-min, take-take, take_all, true, zero,
  ℕ, ℤ, ◌%◌, ◌&&◌, ◌*◌, ◌++◌, ◌+◌, ◌-◌, ◌/◌, ◌<◌, ◌==◌, ◌>>=◌, ◌>>◌, ◌^◌, ◌||◌, ◌↔◌, ◌∙◌, ◌∷◌, ◌≡◌,
  ◌≢◌, ◌≤◌, ◌⊎◌,
}

-- `reasoned` is the type Error, with its reason and its action.
mutual
  pub data Err : Type 0 where
    action : ℕ → Err
    reasoned : ℕ → ℕ → Err
    plain : ℕ → Err
    caused : ℕ → Err → Err
    joined : Errs → Err

  pub data Errs : Type 0 where
    no_errs : Errs
    and_err : Err → Errs → Errs

abbrev pub to_list : Errs → List Err
to_list no_errs = []
to_list (and_err e es) = e ∷ to_list es

abbrev pub from_list : List Err → Errs
from_list [] = no_errs
from_list (e ∷ es) = and_err e (from_list es)

-- The errors.Join of Go, of errors that are not nil.
abbrev pub go_join : List Err → Option Err
go_join [] = none
go_join (e ∷ es) = some (joined (from_list (e ∷ es)))

unfoldable pub new_of : ℕ → Option ℕ → Err
new_of t none = reasoned t t
new_of t (some reason) = reasoned reason t

-- The method Unwrap() []error, where an error has it.
unfoldable pub unwrap_all : Err → Option (List Err)
unwrap_all (action t) = some (reasoned t t ∷ [])
unwrap_all (reasoned reason t) = none
unwrap_all (plain text) = none
unwrap_all (caused text e) = none
unwrap_all (joined es) = some (to_list es)

-- The loop of Join.
unfoldable pub flat : List Err → List Err
unfolding unwrap_all
flat [] = []
flat (v ∷ vs) = elim (unwrap_all v) [ none ↦ v ∷ flat vs | some es ↦ es ++ flat vs ]

unfoldable pub join : List Err → Option Err
unfolding flat
join [] = none
join (v ∷ vs) = go_join (flat (v ∷ vs))

unfoldable pub new_err : ℕ → List Err → Option Err
unfolding join
new_err t es = join (action t ∷ es)

abbrev pub each_some : List Err → List (Option Err)
each_some [] = []
each_some (e ∷ es) = some e ∷ each_some es

unfoldable pub unwrap : Option Err → List (Option Err)
unwrap none = []
unwrap (some (action t)) = some (reasoned t t) ∷ []
unwrap (some (reasoned reason t)) = none ∷ []
unwrap (some (plain text)) = none ∷ []
unwrap (some (caused text e)) = some e ∷ []
unwrap (some (joined es)) = each_some (to_list es)

-- The test of Catch.
unfoldable pub is_error : ℕ → Option Err → Bool
is_error t none = false
is_error t (some (reasoned reason t')) = t' == t
is_error t (some (action _)) = false
is_error t (some (plain _)) = false
is_error t (some (caused _ _)) = false
is_error t (some (joined _)) = false

unfoldable pub some_error : ℕ → List (Option Err) → Bool
unfolding is_error
some_error t [] = false
some_error t (e ∷ es) = if is_error t e then true else some_error t es

unfoldable pub catch_error : Option Err → ℕ → Bool
unfolding is_error some_error unwrap
catch_error e t = if is_error t e then true else some_error t (unwrap e)
