-- ===== src/Sync/LoadOrInit/Once.antt =====
-- `LoadOrInitFunc` (sync/LoadOrStoreFunc.go) makes one value for each key.
use part.Common.{
  Bool-cases, List, Option, [], ap, false, if◌then◌else◌, inl, inr, none, refl, some, sym, true, ℕ,
  ◌∙◌, ◌∷◌, ◌≡◌, ◌⊎◌,
}
use part.Common.Keys.{Eq, lookup-insert, beq_self}
use part.Sync.Map.{load, load_or_store}
use part.Sync.LoadOrInit.{LoadOrInit, fill_cache, load_or_init_p}

module _ {ℓ} {K : Type ℓ} (e : Eq K) where
  -- The first call for a key, with the value `c`, and any later one.
  first_call :
      (l : LoadOrInit K) (k : K)
      → load e l.map k ≡ none
      → let r = load_or_init_p e l k in
        let c = fill_cache l in
        (r.1 ≡ c.0)
        × (r.2 ≡ false)
        × (r.0.cache ≡ none)
        × (r.0.calls ≡ c.1)
        × ((j : K) → load e r.0.map j ≡ (if e.beq k j then some c.0 else load e l.map j))
  unfolding load_or_init_p load load_or_store
  first_call l k h =
      rw (h, load_or_store)
        (refl, refl, refl, refl, λ j. lookup-insert e k j (fill_cache l).0 l.map.m)

  later_call :
      (l : LoadOrInit K) (k : K) (p : ℕ)
      → load e l.map k ≡ some p
      → let r = load_or_init_p e l k in
        let c = fill_cache l in
        (r.1 ≡ p) × (r.2 ≡ true) × (r.0.cache ≡ some c.0) × (r.0.calls ≡ c.1) × (r.0.map ≡ l.map)
  unfolding load_or_init_p load load_or_store
  later_call l k p h = rw (h, load_or_store) (refl, refl, refl, refl, refl)

  abbrev pub call_all : LoadOrInit K → List K → LoadOrInit K
  call_all l [] = l
  call_all l (k ∷ ks) = call_all (load_or_init_p e l k).0 ks

  load-cases :
      (l : LoadOrInit K) (k : K) → (load e l.map k ≡ none) ⊎ ((p : ℕ) × (load e l.map k ≡ some p))
  load-cases l k = split (load e l.map k) refl
    where
      split :
          (o : Option ℕ)
          → load e l.map k ≡ o
          → (load e l.map k ≡ none) ⊎ ((p : ℕ) × (load e l.map k ≡ some p))
      split none h = inl h
      split (some p) h = inr (p, h)

  call-keeps :
      (l : LoadOrInit K) (j k : K) (p : ℕ)
      → load e l.map k ≡ some p
      → load e (load_or_init_p e l j).0.map k ≡ some p
  call-keeps l j k p h = elim (load-cases l j) [
    | inr (q, found) ↦ let r = later_call l j q found in ap (λ m. load e m k) r.4 ∙ h
    | inl absent ↦
        let r = first_call l j absent in
        elim (Bool-cases (e.beq j k)) [
          | inl same ↦
              let q : j ≡ k = (e.beq_iff j k).0 same in
              let no_value : none ≡ some p = sym absent ∙ rw q h in absurd (cc)
          | inr other ↦ r.4 k ∙ rw other h
        ]
  ]

  call_all-keeps :
      (ks : List K) (l : LoadOrInit K) (k : K) (p : ℕ)
      → load e l.map k ≡ some p
      → load e (call_all l ks).map k ≡ some p
  call_all-keeps [] l k p h = h
  call_all-keeps (j ∷ ks) l k p h =
      call_all-keeps ks (load_or_init_p e l j).0 k p (call-keeps l j k p h)

  no_call :
      (l : LoadOrInit K) (k : K) (p : ℕ)
      → l.cache ≡ some p
      → (load_or_init_p e l k).0.calls ≡ l.calls
  unfolding load_or_init_p
  no_call l k p h = rw (h, fill_cache) refl

  -- The first call for a missing key gives it the pointer that was kept or made, as not loaded.
  -- After calls for any keys a second call for it gives the same pointer, as loaded, and keeps the
  -- one that it did not use, so that the next call makes none.
  pub load_or_init_lem :
      (l : LoadOrInit K) (k next : K) (ks : List K)
      → load e l.map k ≡ none
      → let r = load_or_init_p e l k in
        let again = load_or_init_p e (call_all r.0 ks) k in
        (r.1 ≡ (fill_cache l).0)
        × (r.2 ≡ false)
        × (again.1 ≡ r.1)
        × (again.2 ≡ true)
        × ((load_or_init_p e again.0 next).0.calls ≡ again.0.calls)
  load_or_init_lem l k next ks absent =
      let r = first_call l k absent in
      let c = (fill_cache l).0 in
      let there : load e (load_or_init_p e l k).0.map k ≡ some c = r.4 k ∙ rw (beq_self e k) refl in
      let still = call_all-keeps ks (load_or_init_p e l k).0 k c there in
      let again = later_call (call_all (load_or_init_p e l k).0 ks) k c still in
      (r.0, r.1, again.0 ∙ sym r.0, again.1, no_call _ next _ again.2)
