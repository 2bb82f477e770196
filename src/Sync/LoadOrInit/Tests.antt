-- ===== src/Sync/LoadOrInit/Tests.antt =====
-- Witnesses for the theorem on `LoadOrInitFunc`.
use part.Common.{[], false, none, pos, refl, true, ℕ, ◌+◌, ◌∷◌, ◌≡◌}
use part.Common.Keys.{nat_eq, lookup}
use part.Sync.Map.{load}
use part.Sync.LoadOrInit.{LoadOrInit, fill_cache, load_or_init_p}
use part.Sync.LoadOrInit.Once.{call_all, load_or_init_lem}

abbrev empty : LoadOrInit ℕ
empty = record {
  map = record { size = pos 0; m = [] };
  init = λ n. n + 100;
  calls = 0;
  cache = none;
}

load_or_init_example :
    let r = load_or_init_p nat_eq empty 4 in
    let again = load_or_init_p nat_eq (call_all nat_eq r.0 (5 ∷ 4 ∷ [])) 4 in
    (r.1 ≡ (fill_cache empty).0)
    × (r.2 ≡ false)
    × (again.1 ≡ r.1)
    × (again.2 ≡ true)
    × ((load_or_init_p nat_eq again.0 6).0.calls ≡ again.0.calls)
unfolding load lookup
load_or_init_example = load_or_init_lem nat_eq empty 4 6 (5 ∷ 4 ∷ []) refl
