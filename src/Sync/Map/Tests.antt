-- ===== src/Sync/Map/Tests.antt =====
-- Witnesses for the theorems on sync.Map.
use part.Common.{List, [], pos, refl, ℕ, ◌∷◌, ◌≡◌}
use part.Common.Keys.{nat_eq, lookup}
use part.Sync.Map.{SyncMap, load}
use part.Sync.Map.Counting.{Call, IsCounted}
use part.Sync.Map.Finite.{run, run_spec, run-counts}

abbrev pub two : SyncMap ℕ ℕ
two = record { size = pos 2; m = (1, 10) ∷ (2, 20) ∷ [] }

two-IsCounted : IsCounted nat_eq two
unfolding lookup
two-IsCounted = record { counted = refl; distinct = (refl, (refl, tt)) }

abbrev calls : List (Call ℕ ℕ)
calls =
    Call.swap_call 1 11
    ∷ Call.store_call 3 30
    ∷ Call.load_or_store_call 2 0
    ∷ Call.compare_delete_call 2 20
    ∷ Call.load_delete_call 7
    ∷ []

run-counts_example :
    (load nat_eq (run nat_eq nat_eq calls two).0
      ≡ (run_spec nat_eq nat_eq calls (load nat_eq two)).0)
    × ((run nat_eq nat_eq calls two).1 ≡ (run_spec nat_eq nat_eq calls (load nat_eq two)).1)
    × IsCounted nat_eq (run nat_eq nat_eq calls two).0
unfolding load lookup
run-counts_example =
    run-counts nat_eq nat_eq calls two two-IsCounted (refl, (tt, (tt, (tt, (tt, tt)))))
