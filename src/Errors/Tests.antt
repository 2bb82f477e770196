-- ===== src/Errors/Tests.antt =====
-- A witness for the theorem on joined errors, and a run of Catch on an error with a cause.
use part.Common.{List, [], false, none, refl, some, true, ◌∷◌, ◌≡◌}
use part.Errors.{
  Err, reasoned, plain, caused, new_of, join, new_err, flat, unwrap_all, unwrap, is_error,
  some_error, catch_error,
}
use part.Errors.Catching.{catch_error-join}

abbrev two_errors : List Err
two_errors = plain 9 ∷ reasoned 8 5 ∷ []

catch_error-join_example :
    (catch_error (join two_errors) 5 ≡ true) × (catch_error (new_err 5 two_errors) 5 ≡ true)
unfolding join new_err flat unwrap_all unwrap is_error some_error catch_error
catch_error-join_example = catch_error-join 5 two_errors

-- An error of the action 5 as the cause of another: it is caught, but no longer once that is joined.
caught_alone : catch_error (some (caused 7 (new_of 5 none))) 5 ≡ true
unfolding unwrap is_error some_error catch_error new_of
caught_alone = refl

lost_joined : catch_error (join (caused 7 (new_of 5 none) ∷ [])) 5 ≡ false
unfolding join flat unwrap_all unwrap is_error some_error catch_error new_of
lost_joined = refl
