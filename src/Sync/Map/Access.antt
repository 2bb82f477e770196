-- ===== src/Sync/Map/Access.antt =====
-- What Load of sync/Map.go gives after a Store or a Delete.
use part.Common.{if◌then◌else◌, none, some, ◌≡◌}
use part.Common.Keys.{Eq, lookup-insert, lookup-erase}
use part.Sync.Map.{SyncMap, store, load, delete, load_and_delete}

module _ {ℓ κ} {K : Type ℓ} {V : Type κ} (e : Eq K) where
  pub load-store :
      (t : SyncMap K V) (k j : K) (v : V)
      → load e (store e t k v) j ≡ (if e.beq k j then some v else load e t j)
  unfolding load store
  load-store t k j v = lookup-insert e k j v t.m

  pub load-delete :
      (t : SyncMap K V) (k j : K)
      → load e (delete e t k) j ≡ (if e.beq k j then none else load e t j)
  unfolding load delete load_and_delete
  load-delete t k j = lookup-erase e k j t.m
