-- ===== src/TmplKv/KStore.antt =====
-- `tmplK` of tmplKV/tmplK.go: ids under keys, with a limit, a duration and a list of ids that wait
-- before they go back to the pool.
pub mod Sound
pub mod Limit
mod Tests
use part.Common.{
  ==_iff, ==_refl, Bool, Bool-cases, List, Option, [], ap, append-nil, append_assoc, ap₂, arith,
  drop, drop-append_exact, drop-append_sum, drop-drop, drop-min, drop-take, drop_all, false,
  get_elem?, if◌then◌else◌, inl, inr, leb, leb→le, length, length-append, length-drop,
  length-replicate, length-set, length-take, le→leb, ltb, ltb→lt, lt→ltb, max, min, negsuc, none,
  not, pos, refl, replicate, require, set, some, suc, sym, take, take-append, take-append-drop,
  take-append_exact, take-append_sum, take-min, take-take, take_all, true, zero, ℕ, ℤ, ◌%◌, ◌&&◌,
  ◌*◌, ◌++◌, ◌+◌, ◌-◌, ◌/◌, ◌<◌, ◌==◌, ◌>>=◌, ◌>>◌, ◌^◌, ◌||◌, ◌↔◌, ◌∙◌, ◌∷◌, ◌≡◌, ◌≢◌, ◌≤◌, ◌⊎◌,
}
use part.Common.Keys.{Eq}
use part.IdPool.{IdPool, PoolId, new_pool, get_id, put_ids, in_use}
use part.Sync.Map.{SyncMap, incr, is_some, store, load, delete, len}
use part.TmplKv.Times.{reached, exceeds, within, is_negative}

pub record Item : Type 0 where
  pub kv : ℕ
  pub kt : ℕ
  pub uid : PoolId

pub record KStore {ℓ} (K : Type ℓ) : Type ℓ where
  pub sum_in_druation : ℤ
  pub druation : ℤ
  pub now : ℕ
  pub pool : IdPool
  pub kvt_map : SyncMap K Item
  pub slow_back_list : List PoolId

abbrev pub add_nat : ℤ → ℕ → ℤ
add_nat (pos n) k = pos (n + k)
add_nat (negsuc n) k = if ltb n k then pos (k - n - 1) else negsuc (n - k)

module _ {ℓ} {K : Type ℓ} where
  pub new : ℤ → ℤ → KStore K
  new limit druation = record {
    sum_in_druation = limit;
    druation = druation;
    now = 0;
    pool = new_pool;
    kvt_map = record { size = pos 0; m = [] };
    slow_back_list = [];
  }

  abbrev pub free_len : KStore K → ℤ
  free_len s = add_nat (in_use s.pool) (length s.slow_back_list)

  -- The front of the list goes back to the pool.
  abbrev pub put_front : KStore K → List PoolId → KStore K
  put_front s [] = s
  put_front s (el ∷ rest) = record s { slow_back_list = rest; pool = put_ids s.pool (el ∷ []) }

  pub free : KStore K → PoolId → KStore K
  free s i =
      let s' : KStore K = record s { slow_back_list = s.slow_back_list ++ (i ∷ []) } in
      if exceeds (free_len s') s.sum_in_druation then put_front s' s'.slow_back_list else s'

module _ {ℓ} {K : Type ℓ} (e : Eq K) where
  -- `pool` and `o` are what pool.Get gives.
  abbrev pub add_key : KStore K → K → IdPool × PoolId → KStore K × ℕ
  add_key s key (pool, o) =
      let item : Item = record { kv = o.id; kt = s.now; uid = o } in
      (record s { pool = pool; kvt_map = store e s.kvt_map key item }, o.id)

  -- The first entry of the range gives its id to the key and is removed; where there is none the
  -- id is 0.
  abbrev pub replace_first : KStore K → K → List (K × Item) → KStore K × ℕ
  replace_first s key [] = (s, 0)
  replace_first s key ((oldkey, item) ∷ m) =
      let item' : Item = record { kv = item.kv; kt = s.now; uid = item.uid } in
      (record s { kvt_map = delete e (store e s.kvt_map key item') oldkey }, item.kv)

  pub set_key : KStore K → K → PoolId → ℕ → ℕ → KStore K × ℕ
  unfolding free
  set_key s key o fresh address = elim (load e s.kvt_map key) [
    | some tmp ↦ let s' = free s tmp.uid in add_key s' key (get_id s'.pool o fresh address)
    | none ↦
        if reached s.sum_in_druation (free_len s)
        then replace_first s key s.kvt_map.m
        else add_key s key (get_id s.pool o fresh address)
  ]

  abbrev pub is_live : KStore K → Option Item → Bool
  is_live s tmp =
      let kt = elim (tmp) as (λ x. ℕ) [ none ↦ 0 | some item ↦ item.kt ] in
      (is_some tmp && is_negative s.druation) || within s.now kt s.druation

  pub get : KStore K → K → KStore K × Bool × ℕ
  unfolding free
  get s key = elim (load e s.kvt_map key) [
    | none ↦ (s, is_live s none, 0)
    | some item ↦
        let s' = free s item.uid in
        (
          if is_live s (some item) then s else record s' { kvt_map = delete e s'.kvt_map key },
          is_live s (some item),
          item.kv,
        )
  ]

  pub check_id : KStore K → K → ℕ → KStore K × Bool
  unfolding get
  check_id s key id = let r = get s key in (r.0, r.1 && r.2 == id)

  pub store_len : KStore K → ℕ × ℤ
  store_len s = (s.now, len e s.kvt_map)
