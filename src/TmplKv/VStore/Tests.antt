-- ===== src/TmplKv/VStore/Tests.antt =====
-- Witnesses for the theorems on `tmplV`.
use part.Common.{List, [], length, none, pos, refl, some, ℕ, ◌↔◌, ◌∷◌, ◌≡◌, ◌≢◌, ◌≤◌}
use part.Common.Keys.{lookup, insert, erase}
use part.IdPool.{PoolId}
use part.TmplKv.VStore.{VStore, new, set_value, get}
use part.TmplKv.VStore.Limit.{Call, run, run_limited, AllFresh, set_value_deadlocks}

abbrev short : List (Call ℕ)
short = Call.set_call 5 1 0 ∷ Call.tick_call 10 ∷ Call.get_call 1 ∷ Call.set_call 8 1 0 ∷ []

short-AllFresh : AllFresh short (new (pos 2) (pos 3))
unfolding new set_value get lookup insert erase
short-AllFresh = (refl, (tt, (tt, (refl, tt))))

positive : pos 2 ≢ pos 0
positive h = absurd (cc)

run_limited_example :
    (s : VStore ℕ) × (run short (new (pos 2) (pos 3)) ≡ some s)
    × (s.pool.sum ≡ pos (length s.kvt_map))
    × ((n : ℕ) → pos 2 ≡ pos n → length s.kvt_map ≤ n)
run_limited_example = run_limited short (pos 2) (pos 3) positive short-AllFresh

abbrev any_id : PoolId
any_id = record { id = 1; item = some 0 }

set_value_deadlocks_example :
    let s : VStore ℕ = new (pos 0) (pos 3) in
    (set_value s 5 any_id 0 0 ≡ none) ↔ ((s.sum_in_druation ≡ pos 0) × (s.kvt_map ≡ []))
unfolding new
set_value_deadlocks_example = set_value_deadlocks (new (pos 0) (pos 3)) 5 any_id 0 0 refl
