-- ===== src/Pool/Items/Tests.antt =====
-- Witnesses for the theorems on the pool of items.
use part.Common.{List, [], false, length, none, pos, refl, true, ℕ, ◌==◌, ◌∷◌, ◌≡◌, ◌≤◌}
use part.Common.Keys.{lookup, insert}
use part.Pool.Items.{PoolFunc, new, get, put, put_one, find_free}
use part.Pool.Items.Holding.{Call, run, run-holds, IsDistinct, AllFresh}

abbrev pf : PoolFunc
pf = record { has_new = true; has_in_use = true; reuse = none }

-- Two items are put away; InUse says that the first is in use still, so the second is lent again.
abbrev calls : List Call
calls =
    Call.get_call (λ k. false) [] 100
    ∷ Call.get_call (λ k. false) [] 101
    ∷ Call.put_call 1
    ∷ Call.put_call 0
    ∷ Call.get_call (λ k. k == 100) (100 ∷ 101 ∷ []) 102
    ∷ []

lends_second : (run calls (new pf (pos 2)) []).1 ≡ 101 ∷ []
unfolding new get put put_one find_free lookup insert
lends_second = refl

calls-AllFresh : AllFresh calls (new pf (pos 2)) []
unfolding new get put put_one find_free lookup insert
calls-AllFresh = ((refl, refl), ((refl, refl), (tt, (tt, ((refl, refl), tt)))))

run-holds_example :
    let r = run calls (new pf (pos 2)) [] in
    IsDistinct r.1 × ((n : ℕ) → r.0.maxsize ≡ pos n → length r.0.mbuf ≤ n)
run-holds_example = run-holds pf (pos 2) calls refl calls-AllFresh
