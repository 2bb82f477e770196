-- ===== src/Sync/Map.antt =====
-- `Map` of sync/Map.go: Go's sync.Map beside a counter of its entries. The calls run one after the
-- other; sync.Map itself is a list of entries with distinct keys, and Range visits them in order.
pub mod Counting
pub mod Finite
pub mod Access
pub mod Copying
mod Tests
use part.Common.{
  ==_iff, ==_refl, Bool, Bool-cases, List, Option, [], ap, append-nil, append_assoc, ap₂, arith,
  drop, drop-append_exact, drop-append_sum, drop-drop, drop-min, drop-take, drop_all, false,
  get_elem?, if◌then◌else◌, inl, inr, leb, leb→le, length, length-append, length-drop,
  length-replicate, length-set, length-take, le→leb, ltb, ltb→lt, lt→ltb, max, min, negsuc, none,
  not, pos, refl, replicate, require, set, some, suc, sym, take, take-append, take-append-drop,
  take-append_exact, take-append_sum, take-min, take-take, take_all, true, zero, ℕ, ℤ, ◌%◌, ◌&&◌,
  ◌*◌, ◌++◌, ◌+◌, ◌-◌, ◌/◌, ◌<◌, ◌==◌, ◌>>=◌, ◌>>◌, ◌^◌, ◌||◌, ◌↔◌, ◌∙◌, ◌∷◌, ◌≡◌, ◌≢◌, ◌≤◌, ◌⊎◌,
}
use part.Common.Keys.{Eq, lookup, insert, erase}

-- An Int64 that Add(1) and Add(-1) move; it never comes near its bounds.
abbrev pub incr : ℤ → ℤ
incr (pos n) = pos (n + 1)
incr (negsuc zero) = pos 0
incr (negsuc (suc n)) = negsuc n

abbrev pub decr : ℤ → ℤ
decr (pos zero) = negsuc 0
decr (pos (suc n)) = pos n
decr (negsuc n) = negsuc (n + 1)

pub record SyncMap {ℓ κ} (K : Type ℓ) (V : Type κ) : Type (ℓ ⊔ κ) where
  pub size : ℤ
  pub m : List (K × V)

abbrev pub is_some {ℓ} : {A : Type ℓ} → Option A → Bool
is_some none = false
is_some (some a) = true

module _ {ℓ κ} {K : Type ℓ} {V : Type κ} (e : Eq K) where
  unfoldable pub store : SyncMap K V → K → V → SyncMap K V
  store t k v = record {
    size = if is_some (lookup e k t.m) then t.size else incr t.size;
    m = insert e k v t.m;
  }

  unfoldable pub load_and_delete : SyncMap K V → K → SyncMap K V × Option V
  load_and_delete t k = (
    record { size = if is_some (lookup e k t.m) then decr t.size else t.size; m = erase e k t.m },
    lookup e k t.m,
  )

  -- Swap does not move the counter.
  pub swap : SyncMap K V → K → V → SyncMap K V × Option V
  swap t k v = (record t { m = insert e k v t.m }, lookup e k t.m)

  unfoldable pub load_or_store : SyncMap K V → K → V → SyncMap K V × V × Bool
  load_or_store t k v = elim (lookup e k t.m) [
    | some w ↦ (t, w, true)
    | none ↦ (record { size = incr t.size; m = insert e k v t.m }, v, false)
  ]

  unfoldable pub load : SyncMap K V → K → Option V
  load t k = lookup e k t.m

  -- The calls of `f` by Range, with the state of its caller; `false` stops.
  pub range_entries {μ} : {C : Type μ} → (C → K → V → C × Bool) → C → List (K × V) → C
  range_entries f c [] = c
  range_entries f c ((k, v) ∷ m) = elim (f c k v).1 [
    | true ↦ range_entries f (f c k v).0 m
    | false ↦ (f c k v).0
  ]

  unfoldable pub delete : SyncMap K V → K → SyncMap K V
  unfolding load_and_delete
  delete t k = (load_and_delete t k).0

  -- ClearAll deletes each entry that Range visits, then sets the counter to 0.
  pub clear_entries : List (K × V) → List (K × V) → List (K × V)
  clear_entries [] m = m
  clear_entries ((k, v) ∷ rest) m = clear_entries rest (erase e k m)

  pub clear_all : SyncMap K V → SyncMap K V
  unfolding clear_entries
  clear_all t = record { size = pos 0; m = clear_entries t.m t.m }

  unfoldable pub len : SyncMap K V → ℤ
  len t = t.size

  pub copy_entries : List (K × V) → SyncMap K V → SyncMap K V
  unfolding store
  copy_entries [] t = t
  copy_entries ((k, v) ∷ m) t = copy_entries m (store t k v)

  pub copy_map : SyncMap K V → SyncMap K V
  unfolding copy_entries
  copy_map t = copy_entries t.m (record { size = pos 0; m = [] })

  -- Contains: the keys that are missing.
  pub contains_missing : SyncMap K V → List K → List K
  contains_missing t [] = []
  contains_missing t (k ∷ ks) =
      if is_some (lookup e k t.m) then contains_missing t ks else k ∷ contains_missing t ks

module _ {ℓ κ} {K : Type ℓ} {V : Type κ} (e : Eq K) (veq : Eq V) where
  abbrev pub holds : SyncMap K V → K → V → Bool
  holds t k old = elim (lookup e k t.m) [ none ↦ false | some v ↦ veq.beq v old ]

  pub compare_and_swap : SyncMap K V → K → V → V → SyncMap K V × Bool
  compare_and_swap t k old new =
      if holds t k old then (record t { m = insert e k new t.m }, true) else (t, false)

  pub compare_and_delete : SyncMap K V → K → V → SyncMap K V × Bool
  compare_and_delete t k old =
      if holds t k old then (record { size = decr t.size; m = erase e k t.m }, true) else (t, false)
