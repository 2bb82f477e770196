-- ===== src/TmplKv/VStore.antt =====
-- `tmplV` of tmplKV/tmplV.go: values under ids, with a limit and a duration. The Go map is a list
-- of entries, whose order is that in which the code ranges over it; `none` is a lock that is
-- taken twice and never given back.
pub mod Limit
mod Tests
use part.Common.{
  ==_iff, ==_refl, Bool, Bool-cases, List, Option, [], ap, append-nil, append_assoc, ap₂, arith,
  drop, drop-append_exact, drop-append_sum, drop-drop, drop-min, drop-take, drop_all, false,
  get_elem?, if◌then◌else◌, inl, inr, leb, leb→le, length, length-append, length-drop,
  length-replicate, length-set, length-take, le→leb, ltb, ltb→lt, lt→ltb, max, min, negsuc, none,
  not, pos, refl, replicate, require, set, some, suc, sym, take, take-append, take-append-drop,
  take-append_exact, take-append_sum, take-min, take-take, take_all, true, zero, ℕ, ℤ, ◌%◌, ◌&&◌,
  ◌*◌, ◌++◌, ◌+◌, ◌-◌, ◌/◌, ◌<◌, ◌==◌, ◌>>=◌, ◌>>◌, ◌^◌, ◌||◌, ◌↔◌, ◌∙◌, ◌∷◌, ◌≡◌, ◌≢◌, ◌≤◌, ◌⊎◌,
}
use part.Common.Keys.{nat_eq, lookup, insert, erase}
use part.IdPool.{IdPool, PoolId, new_pool, get_id, put_ids, in_use}
use part.Sync.Map.{is_some}
use part.TmplKv.Times.{reached, within, is_negative}

pub record Item {ℓ} (V : Type ℓ) : Type ℓ where
  pub kv : V
  pub kt : ℕ
  pub uid : PoolId

pub record VStore {ℓ} (V : Type ℓ) : Type ℓ where
  pub sum_in_druation : ℤ
  pub druation : ℤ
  pub now : ℕ
  pub delete_num : ℕ
  pub pool : IdPool
  pub kvt_map : List (ℕ × Item V)

module _ {ℓ} {V : Type ℓ} where
  pub new : ℤ → ℤ → VStore V
  new limit druation = record {
    sum_in_druation = limit;
    druation = druation;
    now = 0;
    delete_num = 0;
    pool = new_pool;
    kvt_map = [];
  }

  -- The first entry of the range takes the value; where there is none, the lock stays taken.
  abbrev pub replace_first : VStore V → V → List (ℕ × Item V) → Option (VStore V × ℕ)
  replace_first s contect [] = none
  replace_first s contect ((key, item) ∷ m) =
      let item' : Item V = record { kv = contect; kt = s.now; uid = item.uid } in
      some (record s { kvt_map = (key, item') ∷ m }, key)

  -- `o` is the Id that pool.Get gives.
  abbrev pub add_value : VStore V → V → IdPool × PoolId → Option (VStore V × ℕ)
  add_value s contect (pool, o) =
      let item : Item V = record { kv = contect; kt = s.now; uid = o } in
      some (record s { pool = pool; kvt_map = insert nat_eq o.id item s.kvt_map }, o.id)

  pub set_value : VStore V → V → PoolId → ℕ → ℕ → Option (VStore V × ℕ)
  set_value s contect o fresh address =
      if reached s.sum_in_druation (in_use s.pool)
      then replace_first s contect s.kvt_map
      else add_value s contect (get_id s.pool o fresh address)

  -- The time of the zero item where the key is missing.
  abbrev pub time_of : Option (Item V) → ℕ
  time_of none = 0
  time_of (some item) = item.kt

  abbrev pub is_live : VStore V → Option (Item V) → Bool
  is_live s k = (is_some k && is_negative s.druation) || within s.now (time_of k) s.druation

  -- Tidy would run beside the callers; no code adds to deleteNum.
  abbrev pub tidy_due : VStore V → Bool
  tidy_due s = ltb (length s.kvt_map) s.delete_num

  abbrev pub remove : VStore V → ℕ → Item V → VStore V
  remove s key item =
      let s' : VStore V = record s {
        pool = put_ids s.pool (item.uid ∷ []);
        kvt_map = erase nat_eq key s.kvt_map;
      } in
      if tidy_due s' then record s' { delete_num = 0 } else s'

  -- The value is "" (`none`) where the key is missing.
  pub get : VStore V → ℕ → VStore V × Bool × Option V
  get s key = elim (lookup nat_eq key s.kvt_map) [
    | none ↦ (s, is_live s none, none)
    | some item ↦ (
      if is_live s (some item) then s else remove s key item,
      is_live s (some item),
      some item.kv,
    )
  ]

  pub copy_to : List (ℕ × Item V) → List (ℕ × Item V) → List (ℕ × Item V)
  copy_to [] tmp = tmp
  copy_to ((k, v) ∷ m) tmp = copy_to m (insert nat_eq k v tmp)

  pub tidy : VStore V → VStore V
  unfolding copy_to
  tidy s = record s { kvt_map = copy_to s.kvt_map [] }

  pub check_value : (V → V → Bool) → V → VStore V → ℕ → V → VStore V × Bool
  unfolding get
  check_value same empty s key contect =
      let r = get s key in
      (r.0, r.1 && same (elim (r.2) as (λ x. V) [ none ↦ empty | some v ↦ v ]) contect)

  pub store_size : VStore V → ℕ × ℕ
  store_size s = (s.now, length s.kvt_map)
