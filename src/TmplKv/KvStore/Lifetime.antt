-- ===== src/TmplKv/KvStore/Lifetime.antt =====
-- How long an entry of `tmplKV` lives (tmplKV/tmplKV.go).
use part.Common.{
  Bool, Bool-cases, Option, arith, inl, inr, leb, ltb, lt→ltb, negsuc, none, pos, refl, some, sym,
  true, ℕ, ◌+◌, ◌<◌, ◌==◌, ◌^◌, ◌||◌, ◌∙◌, ◌≡◌,
}
use part.Common.Keys.{Eq, beq_self}
use part.Sync.Map.Access.{load-store, load-delete}
use part.Sync.Map.{is_some, store, load, delete}
use part.TmplKv.Times.{wrap_int64, is_negative}
use part.TmplKv.KvStore.{Item, KvStore, set_value, get, not_after}

module _ {ℓ κ} {K : Type ℓ} {V : Type κ} (e : Eq K) where
  -- A Get at the time `then`, after the ticks of the clock since a Set.
  abbrev pub at_time : KvStore K V → ℕ → KvStore K V
  at_time s later = record s { now = later }

  abbrev live : ℕ → Item V → Bool
  live now item = is_negative item.kt || not_after now item.kt

  get_found :
      (s : KvStore K V) (k : K) (item : Item V)
      → load e s.kvt_map k ≡ some item
      → let r = get e s k in
        (r.1 ≡ live s.now item)
        × (r.2 ≡ item.kv)
        × (is_some (load e r.0.kvt_map k) ≡ live s.now item)
  unfolding get
  get_found s k item there = elim (Bool-cases (live s.now item)) [
    | inl on ↦ rw (there, on) (refl, refl, rw there refl)
    | inr off ↦ rw (there, off) (refl, refl, rw gone refl)
  ]
    where
      gone : load e (delete e s.kvt_map k) k ≡ none
      gone = load-delete e s.kvt_map k k ∙ rw (beq_self e k) refl

  -- An entry set for `exp` seconds, where the end fits into an int64, is live with its value up to
  -- that end; after it Get reports that it is not live and removes it.
  pub get-set_value :
      (s : KvStore K V) (k : K) (v : Option V) (exp later : ℕ)
      → s.now + exp < 2 ^ 63
      → let r = get e (at_time (set_value e s k v (pos exp)) later) k in
        (r.1 ≡ leb later (s.now + exp))
        × (r.2 ≡ v)
        × (is_some (load e r.0.kvt_map k) ≡ leb later (s.now + exp))
  unfolding set_value
  get-set_value s k v exp later h =
      let item : Item V = record { kv = v; kt = wrap_int64 (s.now + exp) } in
      let there : load e (store e s.kvt_map k item) k ≡ some item =
        load-store e s.kvt_map k k item ∙ rw (beq_self e k) refl in
      let fits : ltb (s.now + exp) (2 ^ 63) ≡ true = lt→ltb _ _ h in
      let end : live later item ≡ leb later (s.now + exp) = rw fits refl in
      let (a, b, c) = get_found (at_time (set_value e s k v (pos exp)) later) k item there in
      (a ∙ end, b, c ∙ end)

  -- An entry set with a negative `exp` is live with its value at any time.
  pub get-set_value_forever :
      (s : KvStore K V) (k : K) (v : Option V) (n later : ℕ)
      → let r = get e (at_time (set_value e s k v (negsuc n)) later) k in
        (r.1 ≡ true) × (r.2 ≡ v) × (is_some (load e r.0.kvt_map k) ≡ true)
  unfolding set_value
  get-set_value_forever s k v n later =
      let item : Item V = record { kv = v; kt = negsuc n } in
      let there : load e (store e s.kvt_map k item) k ≡ some item =
        load-store e s.kvt_map k k item ∙ rw (beq_self e k) refl in
      get_found (at_time (set_value e s k v (negsuc n)) later) k item there

  -- Get of a key that is missing changes nothing and reports it live exactly where the clock has
  -- not ticked yet.
  pub get_missing :
      (s : KvStore K V) (k : K)
      → load e s.kvt_map k ≡ none
      → let r = get e s k in (r.0 ≡ s) × (r.1 ≡ (s.now == 0)) × (r.2 ≡ none)
  unfolding get
  get_missing s k h =
      let start : leb s.now 0 ≡ (s.now == 0) = ground arith in
      elim (Bool-cases (leb s.now 0)) [
        | inl on ↦ rw (h, on) (refl, sym on ∙ start, refl)
        | inr off ↦ rw (h, off) (refl, sym off ∙ start, refl)
      ]
