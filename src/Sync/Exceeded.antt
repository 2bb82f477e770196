-- ===== src/Sync/Exceeded.antt =====
-- `MapExceeded` of sync/MapExceeded.go, over `Map`. An entry is a pointer to an item, since the
-- function that LoadOrStore returns writes through it: the items are a function from addresses.
-- Times and durations are natural numbers; `none` is a panic.
pub mod Expiry
mod Tests
use part.Common.{
  ==_iff, ==_refl, Bool, Bool-cases, List, Option, [], ap, append-nil, append_assoc, ap₂, arith,
  drop, drop-append_exact, drop-append_sum, drop-drop, drop-min, drop-take, drop_all, false,
  get_elem?, if◌then◌else◌, inl, inr, leb, leb→le, length, length-append, length-drop,
  length-replicate, length-set, length-take, le→leb, ltb, ltb→lt, lt→ltb, max, min, negsuc, none,
  not, pos, refl, replicate, require, set, some, suc, sym, take, take-append, take-append-drop,
  take-append_exact, take-append_sum, take-min, take-take, take_all, true, zero, ℕ, ℤ, ◌%◌, ◌&&◌,
  ◌*◌, ◌++◌, ◌+◌, ◌-◌, ◌/◌, ◌<◌, ◌==◌, ◌>>=◌, ◌>>◌, ◌^◌, ◌||◌, ◌↔◌, ◌∙◌, ◌∷◌, ◌≡◌, ◌≢◌, ◌≤◌, ◌⊎◌,
}
use part.Common.Keys.{Eq}
use part.Sync.Map.{SyncMap, store, load, delete, load_or_store}

pub record Item {ℓ} (V : Type ℓ) : Type ℓ where
  pub data_ : V
  pub exceeded : ℕ

pub record Exceeded {ℓ κ} (K : Type ℓ) (V : Type κ) : Type (ℓ ⊔ κ) where
  pub m : SyncMap K ℕ
  pub items : ℕ → Item V
  pub next_item : ℕ

module _ {κ} {V : Type κ} where
  -- `exceeded.After(now)` and `exceeded.Before(now)`
  abbrev pub is_after : ℕ → Item V → Bool
  is_after now item = ltb now item.exceeded

  abbrev pub is_before : ℕ → Item V → Bool
  is_before now item = ltb item.exceeded now

module _ {ℓ κ} {K : Type ℓ} {V : Type κ} where
  abbrev pub write_item : Exceeded K V → ℕ → Item V → Exceeded K V
  write_item t p item = record t { items = λ a. if p == a then item else t.items a }

  -- `&mapExceededItem[V]{...}`: the item is at the address `next_item`.
  abbrev pub new_item : Exceeded K V → Item V → Exceeded K V
  new_item t item = record (write_item t t.next_item item) { next_item = t.next_item + 1 }

  -- What `store` of LoadOrStore does with the item, and the function that does nothing.
  pub run_store : Exceeded K V → Option ℕ → ℕ → V → ℕ → Exceeded K V
  run_store t none now v dur = t
  run_store t (some p) now v dur = write_item t p (record { data_ = v; exceeded = now + dur })

module _ {ℓ κ} {K : Type ℓ} {V : Type κ} (e : Eq K) where
  pub store_for : Exceeded K V → ℕ → K → V → ℕ → Exceeded K V
  store_for t now k v dur =
      let u = new_item t (record { data_ = v; exceeded = now + dur }) in
      record u { m = store e t.m k t.next_item }

  pub delete_key : Exceeded K V → K → Exceeded K V
  delete_key t k = record t { m = delete e t.m k }

  pub load_live : Exceeded K V → ℕ → K → Exceeded K V × Option V
  unfolding delete_key
  load_live t now k = elim (load e t.m k) [
    | none ↦ (t, none)
    | some p ↦
        if is_after now (t.items p) then (t, some (t.items p).data_) else (delete_key t k, none)
  ]

  -- The entries of Len and of GC: those that are over are deleted, the others counted.
  pub len_entries : Exceeded K V → ℕ → List (K × ℕ) → Exceeded K V × ℕ
  unfolding delete_key
  len_entries t now [] = (t, 0)
  len_entries t now ((k, p) ∷ m) =
      let over = is_before now (t.items p) in
      let rest = len_entries (if over then delete_key t k else t) now m in
      (rest.0, if over then rest.1 else rest.1 + 1)

  pub len_live : Exceeded K V → ℕ → Exceeded K V × ℕ
  unfolding len_entries
  len_live t now = len_entries t now t.m.m

  pub gc : Exceeded K V → ℕ → Exceeded K V
  unfolding len_entries
  gc t now = (len_entries t now t.m.m).0

  -- The assertion of an item to *V panics.
  pub range_live : Exceeded K V → ℕ → List (K × ℕ) → Option (Exceeded K V)
  unfolding delete_key
  range_live t now [] = some t
  range_live t now ((k, p) ∷ m) =
      let rest = range_live (delete_key t k) now m in
      if is_after now (t.items p) then none else rest

  pub copy_live : Exceeded K V → ℕ → List (K × ℕ) → SyncMap K ℕ → SyncMap K ℕ
  copy_live t now [] d = d
  copy_live t now ((k, p) ∷ m) d =
      copy_live t now m (if is_after now (t.items p) then store e d k p else d)

  -- The value, whether it was there, and the item that `store` writes to.
  pub load_or_store_for : V → Exceeded K V → ℕ → ℕ → K → Exceeded K V × V × Bool × Option ℕ
  load_or_store_for zero_value t now second k =
      let u = new_item t (record { data_ = zero_value; exceeded = now - second }) in
      let r = load_or_store e t.m k t.next_item in
      let item = u.items r.1 in
      let live = r.2 && ltb now item.exceeded in
      (record u { m = r.0 }, item.data_, live, if live then none else some r.1)
