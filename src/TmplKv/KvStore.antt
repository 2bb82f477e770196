-- ===== src/TmplKv/KvStore.antt =====
-- `tmplKV` of tmplKV/tmplKV.go. A nil value is `none`.
pub mod Lifetime
mod Tests
use part.Common.{
  ==_iff, ==_refl, Bool, Bool-cases, List, Option, [], ap, append-nil, append_assoc, ap₂, arith,
  drop, drop-append_exact, drop-append_sum, drop-drop, drop-min, drop-take, drop_all, false,
  get_elem?, if◌then◌else◌, inl, inr, leb, leb→le, length, length-append, length-drop,
  length-replicate, length-set, length-take, le→leb, ltb, ltb→lt, lt→ltb, max, min, negsuc, none,
  not, pos, refl, replicate, require, set, some, suc, sym, take, take-append, take-append-drop,
  take-append_exact, take-append_sum, take-min, take-take, take_all, true, zero, ℕ, ℤ, ◌%◌, ◌&&◌,
  ◌*◌, ◌++◌, ◌+◌, ◌-◌, ◌/◌, ◌<◌, ◌==◌, ◌>>=◌, ◌>>◌, ◌^◌, ◌||◌, ◌↔◌, ◌∙◌, ◌∷◌, ◌≡◌, ◌≢◌, ◌≤◌, ◌⊎◌,
}
use part.Common.Keys.{Eq}
use part.Sync.Map.{SyncMap, is_some, store, load, delete, len}
use part.TmplKv.Times.{wrap_int64, is_negative}

pub record Item {ℓ} (V : Type ℓ) : Type ℓ where
  pub kv : Option V
  pub kt : ℤ

pub record KvStore {ℓ κ} (K : Type ℓ) (V : Type κ) : Type (ℓ ⊔ κ) where
  pub now : ℕ
  pub kvt_map : SyncMap K (Item V)

abbrev pub not_after : ℕ → ℤ → Bool
not_after now (pos n) = leb now n
not_after now (negsuc n) = false

module _ {κ} {V : Type κ} where
  -- What the type assertion gives: the zero item where the key is missing.
  abbrev pub item_of : Option (Item V) → Item V
  item_of none = record { kv = none; kt = pos 0 }
  item_of (some item) = item

  -- `ok && item.kt < 0 || s.now <= item.kt`
  abbrev pub is_live : ℕ → Option (Item V) → Bool
  is_live now tmp =
      let item = item_of tmp in (is_some tmp && is_negative item.kt) || not_after now item.kt

module _ {ℓ κ} {K : Type ℓ} {V : Type κ} (e : Eq K) where
  pub set_value : KvStore K V → K → Option V → ℤ → KvStore K V
  unfolding store
  set_value s key value exp =
      let kt = elim (exp) as (λ x. ℤ) [ pos n ↦ wrap_int64 (s.now + n) | negsuc n ↦ negsuc n ] in
      record s { kvt_map = store e s.kvt_map key (record { kv = value; kt = kt }) }

  -- The store without the key, where it has it and it is over.
  abbrev pub drop_dead : KvStore K V → K → KvStore K V
  drop_dead s key =
      let tmp = load e s.kvt_map key in
      if not (is_live s.now tmp) && is_some tmp
      then record s { kvt_map = delete e s.kvt_map key }
      else s

  pub get : KvStore K V → K → KvStore K V × Bool × Option V
  unfolding load delete
  get s key =
      let tmp = load e s.kvt_map key in (drop_dead s key, is_live s.now tmp, (item_of tmp).kv)

  pub get_v : KvStore K V → K → KvStore K V × Option V
  unfolding load delete
  get_v s key =
      let tmp = load e s.kvt_map key in
      (drop_dead s key, if not (is_live s.now tmp) && is_some tmp then none else (item_of tmp).kv)

  -- Go's == on two values of the interface type.
  pub check_value : (Option V → Option V → Bool) → KvStore K V → K → Option V → KvStore K V × Bool
  unfolding get
  check_value same s key value = let r = get s key in (r.0, r.1 && same r.2 value)

  pub store_len : KvStore K V → ℕ × ℤ
  unfolding len
  store_len s = (s.now, len e s.kvt_map)
