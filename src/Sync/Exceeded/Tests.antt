-- ===== src/Sync/Exceeded/Tests.antt =====
-- Witnesses for the theorems on `MapExceeded`.
use part.Common.{[], if◌then◌else◌, ltb, none, pos, some, ℕ, ◌∷◌, ◌≡◌}
use part.Common.Keys.{nat_eq}
use part.Sync.Map.{load}
use part.Sync.Exceeded.{Item, Exceeded, store_for, load_live}
use part.Sync.Exceeded.Expiry.{load_live-store_for}

abbrev item : Item ℕ
item = record { data_ = 4; exceeded = 50 }

abbrev one : Exceeded ℕ ℕ
one = record { m = record { size = pos 1; m = (9, 0) ∷ [] }; items = λ a. item; next_item = 1 }

load_live-store_for_example :
    let r = load_live nat_eq (store_for nat_eq one 100 9 7 5) 104 9 in
    (r.1 ≡ (if ltb 104 105 then some 7 else none))
    × (load nat_eq r.0.m 9 ≡ (if ltb 104 105 then some 1 else none))
load_live-store_for_example = load_live-store_for nat_eq one 9 7 100 5 104
