-- ===== src/Sync/Exceeded/Expiry.antt =====
-- How long an entry of `MapExceeded` lives (sync/MapExceeded.go).
use part.Common.{
  ==_refl, Bool, Bool-cases, List, [], ap, ap₂, false, if◌then◌else◌, inl, inr, ltb, none, not,
  refl, some, sym, ℕ, ◌+◌, ◌||◌, ◌∙◌, ◌∷◌, ◌≡◌,
}
use part.Common.Keys.{Eq, beq_self}
use part.Sync.Map.{is_some, load}
use part.Sync.Map.Access.{load-store, load-delete}
use part.Sync.Exceeded.{Item, Exceeded, store_for, delete_key, load_live, range_live}

module _ {ℓ κ} {K : Type ℓ} {V : Type κ} (e : Eq K) where
  load_found :
      (t : Exceeded K V) (k : K) (p now : ℕ)
      → load e t.m k ≡ some p
      → let r = load_live e t now k in
        let live = ltb now (t.items p).exceeded in
        (r.1 ≡ (if live then some (t.items p).data_ else none))
        × (load e r.0.m k ≡ (if live then some p else none))
  unfolding load_live delete_key
  load_found t k p now h = elim (Bool-cases (ltb now (t.items p).exceeded)) [
    | inl live ↦ rw (h, load_live, live) (refl, h)
    | inr over ↦ rw (h, load_live, over) (refl, load-delete e t.m k k ∙ rw (beq_self e k) refl)
  ]

  -- An entry stored for `dur` is found with its value before the end of that time and not from
  -- then on, when it is removed.
  pub load_live-store_for :
      (t : Exceeded K V) (k : K) (v : V) (now dur later : ℕ)
      → let r = load_live e (store_for e t now k v dur) later k in
        (r.1 ≡ (if ltb later (now + dur) then some v else none))
        × (load e r.0.m k ≡ (if ltb later (now + dur) then some t.next_item else none))
  unfolding store_for
  load_live-store_for t k v now dur later =
      let s = store_for e t now k v dur in
      let item : Item V = record { data_ = v; exceeded = now + dur } in
      let there : load e s.m k ≡ some t.next_item =
        load-store e t.m k k t.next_item ∙ rw (beq_self e k) refl in
      let written : s.items t.next_item ≡ item = rw (==_refl t.next_item) refl in
      let (a, b) = load_found s k t.next_item later there in
      (
        a ∙ ap (λ x. if ltb later x.exceeded then some x.data_ else none) written,
        b ∙ ap (λ x. if ltb later x.exceeded then some t.next_item else none) written,
      )

  abbrev pub any_live : Exceeded K V → ℕ → List (K × ℕ) → Bool
  any_live t now [] = false
  any_live t now ((k, p) ∷ m) = ltb now (t.items p).exceeded || any_live t now m

  any_live-items :
      (t u : Exceeded K V) (now : ℕ) (m : List (K × ℕ))
      → t.items ≡ u.items
      → any_live t now m ≡ any_live u now m
  any_live-items t u now [] h = refl
  any_live-items t u now ((k, p) ∷ m) h =
      ap₂ ◌||◌ (ap (λ items. ltb now (items p).exceeded) h) (any_live-items t u now m h)

  -- Range comes to its end without a panic exactly where no entry that it visits is live.
  pub range_live_panics :
      (t : Exceeded K V) (now : ℕ) (m : List (K × ℕ))
      → is_some (range_live e t now m) ≡ not (any_live t now m)
  unfolding range_live delete_key
  range_live_panics t now [] = refl
  range_live_panics t now ((k, p) ∷ m) =
      let ih = range_live_panics (delete_key e t k) now m in
      let same = any_live-items t (delete_key e t k) now m refl in
      elim (Bool-cases (ltb now (t.items p).exceeded)) [
        | inl live ↦ rw live refl
        | inr over ↦ rw over (ih ∙ ap not (sym same))
      ]
