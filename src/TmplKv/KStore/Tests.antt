-- ===== src/TmplKv/KStore/Tests.antt =====
-- Witnesses for the theorem on `tmplK`.
use part.Common.{List, [], length, pos, ℕ, ◌+◌, ◌∷◌, ◌≡◌, ◌≤◌}
use part.Common.Keys.{nat_eq}
use part.Sync.Map.{len}
use part.TmplKv.KStore.{new}
use part.TmplKv.KStore.Limit.{Call, run, run_limited_ids}

abbrev calls : List (Call ℕ)
calls =
    Call.set_call 7 1 0
    ∷ Call.set_call 8 2 0
    ∷ Call.set_call 7 3 0
    ∷ Call.tick_call 10
    ∷ Call.get_call 8
    ∷ Call.set_call 9 4 0
    ∷ []

run_limited_ids_example :
    let s = run nat_eq calls (new (pos 2) (pos 3)) in
    (s.pool.sum ≡ pos (length s.kvt_map.m + length s.slow_back_list))
    × (len nat_eq s.kvt_map ≡ pos (length s.kvt_map.m))
    × ((n : ℕ) → pos 2 ≡ pos n → length s.kvt_map.m ≤ n)
run_limited_ids_example = run_limited_ids nat_eq calls (pos 2) (pos 3)
