-- ===== src/Sync/LoadOrInit.antt =====
-- `LoadOrInitFunc` of sync/LoadOrStoreFunc.go over `Map`. Init may give another pointer at each
-- call, so it is a function of how often it was called; a pointer is a number.
pub mod Once
mod Tests
use part.Common.{
  ==_iff, ==_refl, Bool, Bool-cases, List, Option, [], ap, append-nil, append_assoc, ap₂, arith,
  drop, drop-append_exact, drop-append_sum, drop-drop, drop-min, drop-take, drop_all, false,
  get_elem?, if◌then◌else◌, inl, inr, leb, leb→le, length, length-append, length-drop,
  length-replicate, length-set, length-take, le→leb, ltb, ltb→lt, lt→ltb, max, min, negsuc, none,
  not, pos, refl, replicate, require, set, some, suc, sym, take, take-append, take-append-drop,
  take-append_exact, take-append_sum, take-min, take-take, take_all, true, zero, ℕ, ℤ, ◌%◌, ◌&&◌,
  ◌*◌, ◌++◌, ◌+◌, ◌-◌, ◌/◌, ◌<◌, ◌==◌, ◌>>=◌, ◌>>◌, ◌^◌, ◌||◌, ◌↔◌, ◌∙◌, ◌∷◌, ◌≡◌, ◌≢◌, ◌≤◌, ◌⊎◌,
}
use part.Common.Keys.{Eq}
use part.Sync.Map.{SyncMap, load_or_store}

pub record LoadOrInit {ℓ} (K : Type ℓ) : Type ℓ where
  pub map : SyncMap K ℕ
  pub init : ℕ → ℕ
  pub calls : ℕ
  pub cache : Option ℕ

module _ {ℓ} {K : Type ℓ} where
  pub new : SyncMap K ℕ → (ℕ → ℕ) → LoadOrInit K
  new map init = record { map = map; init = init; calls = 0; cache = none }

  pub set_init : LoadOrInit K → (ℕ → ℕ) → LoadOrInit K
  set_init l init = record l { init = init; calls = 0 }

  -- The pointer that is kept, or a new one, and how often Init was called.
  abbrev pub fill_cache : LoadOrInit K → ℕ × ℕ
  fill_cache l = elim (l.cache) [ none ↦ (l.init l.calls, l.calls + 1) | some c ↦ (c, l.calls) ]

module _ {ℓ} {K : Type ℓ} (e : Eq K) where
  pub load_or_init_p : LoadOrInit K → K → LoadOrInit K × ℕ × Bool
  load_or_init_p l k =
      let c = fill_cache l in
      let r = load_or_store e l.map k c.0 in
      (record l { map = r.0; calls = c.1; cache = if r.2 then some c.0 else none }, r.1, r.2)

  -- The value behind the pointer.
  pub load_or_init {κ} : {V : Type κ} → (ℕ → V) → LoadOrInit K → K → LoadOrInit K × V × Bool
  unfolding load_or_init_p
  load_or_init value l k = let r = load_or_init_p l k in (r.0, value r.1, r.2)

  pub load_or_init_p_then :
      (LoadOrInit K → ℕ → Bool → LoadOrInit K × ℕ × Bool)
      → LoadOrInit K
      → K
      → LoadOrInit K × ℕ × Bool
  unfolding load_or_init_p
  load_or_init_p_then f l k = let r = load_or_init_p l k in f r.0 r.1 r.2
