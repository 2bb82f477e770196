-- ===== src/IdPool.antt =====
-- The package idpool (idpool/Idpool.go). An Id that sync.Pool hands out is an argument of `get_id`;
-- a pointer, and the address of its field, is a number, and a nil item is `none`.
use part.Common.{List, Option, [], if◌then◌else◌, none, pos, some, ℕ, ℤ, ◌∷◌}
use part.Sync.Map.{incr, decr, is_some}

pub record PoolId : Type 0 where
  pub id : ℕ
  pub item : Option ℕ

pub record IdPool : Type 0 where
  pub pool : List PoolId
  pub sum : ℤ

abbrev pub new_pool : IdPool
new_pool = record { pool = []; sum = pos 0 }

-- `o` comes from sync.Pool; `fresh` and `address` are for an Id that has no item.
abbrev pub get_id : IdPool → PoolId → ℕ → ℕ → IdPool × PoolId
get_id t o fresh address = (
  record t { sum = incr t.sum },
  elim (o.item) as (λ x. PoolId) [ none ↦ record { id = address; item = some fresh } | some i ↦ o ],
)

abbrev pub put_ids : IdPool → List PoolId → IdPool
put_ids t [] = t
put_ids t (i ∷ is) =
    put_ids (if is_some i.item then record { pool = i ∷ t.pool; sum = decr t.sum } else t) is

abbrev pub in_use : IdPool → ℤ
in_use t = t.sum
