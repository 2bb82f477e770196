-- ===== src/Sync/Map/Finite.antt =====
-- `Map` of sync/Map.go as a finite function: what a sequence of calls returns and leaves.
use part.Common.{
  Bool, Bool-cases, List, Option, [], ap, ap₂, false, inl, inr, none, refl, some, true, ◌∙◌, ◌∷◌,
  ◌≡◌,
}
use part.Common.Keys.{Eq, lookup, insert, erase, lookup-insert, lookup-erase}
use part.Sync.Map.{
  SyncMap, holds, store, compare_and_swap, compare_and_delete, load_and_delete, swap, load_or_store,
  load, delete,
}
use part.Sync.Map.Counting.{
  Call, IsCounted, call, call_spec, put, is_at, Allowed, call-IsCounted, clear_all_lem, Found-cases,
}
use mathlib.Core.Path.{fun_ext}

module _ {ℓ κ} {K : Type ℓ} {V : Type κ} (e : Eq K) (veq : Eq V) where
  abbrev at : List (K × V) → K → Option V
  at m j = lookup e j m

  load-insert :
      (k : K) (v : V) (m : List (K × V)) → at (insert e k v m) ≡ put e veq k (some v) (at m)
  unfolding put
  load-insert k v m = fun_ext (λ j. lookup-insert e k j v m)

  load-erase : (k : K) (m : List (K × V)) → at (erase e k m) ≡ put e veq k none (at m)
  unfolding put
  load-erase k m = fun_ext (λ j. lookup-erase e k j m)

  abbrev View : Type (ℓ ⊔ κ)
  View = (K → Option V) × Option V × Bool

  abbrev Same : View → View → Type (ℓ ⊔ κ)
  Same a b = a ≡ b

  abbrev view : {f g : K → Option V} (o : Option V) (b : Bool) → f ≡ g → Same (f, o, b) (g, o, b)
  view o b p = ap (λ f. (f, o, b)) p

  call-refines :
      (op : Call K V) (t : SyncMap K V)
      → let r = call e veq op t in Same (load e r.0, r.1, r.2) (call_spec e veq op (load e t))
  unfolding call store load swap load_or_store compare_and_swap compare_and_delete delete
      load_and_delete call_spec is_at lookup
  call-refines (Call.store_call k v) t = view none true (load-insert k v t.m)
  call-refines (Call.load_or_store_call k v) t = elim (Found-cases e k t.m) [
    | inl absent ↦ rw (absent, load_or_store) (view (some v) false (load-insert k v t.m))
    | inr (w, present) ↦ rw (present, load_or_store) refl
  ]
  call-refines (Call.swap_call k v) t = view _ _ (load-insert k v t.m)
  call-refines (Call.compare_delete_call k v) t = elim (Found-cases e k t.m) [
    | inl absent ↦ rw (absent, holds) refl
    | inr (w, present) ↦ elim (Bool-cases (veq.beq w v)) [
      | inl same ↦ rw (present, same, holds) (view none true (load-erase k t.m))
      | inr other ↦ rw (present, other, holds) refl
    ]
  ]
  call-refines (Call.compare_swap_call k old new) t = elim (Found-cases e k t.m) [
    | inl absent ↦ rw (absent, holds) refl
    | inr (w, present) ↦ elim (Bool-cases (veq.beq w old)) [
      | inl same ↦ rw (present, same, holds) (view none true (load-insert k new t.m))
      | inr other ↦ rw (present, other, holds) refl
    ]
  ]
  call-refines (Call.delete_call k) t = view none true (load-erase k t.m)
  call-refines (Call.load_delete_call k) t = view _ _ (load-erase k t.m)
  call-refines Call.clear_call t = rw (clear_all_lem e t) refl

  -- The map after a sequence of calls, and what each of them returned.
  abbrev pub run : List (Call K V) → SyncMap K V → SyncMap K V × List (Option V × Bool)
  run [] t = (t, [])
  run (op ∷ ops) t =
      let r = call e veq op t in let rest = run ops r.0 in (rest.0, (r.1, r.2) ∷ rest.1)

  abbrev pub run_spec : List (Call K V) → (K → Option V) → (K → Option V) × List (Option V × Bool)
  run_spec [] f = (f, [])
  run_spec (op ∷ ops) f =
      let r = call_spec e veq op f in let rest = run_spec ops r.0 in (rest.0, (r.1, r.2) ∷ rest.1)

  abbrev pub AllAllowed : List (Call K V) → (K → Option V) → Type 0
  AllAllowed [] f = Unit
  AllAllowed (op ∷ ops) f = (Allowed e veq op f) × (AllAllowed ops (call_spec e veq op f).0)

  -- From a map whose counter is right, a sequence of calls in which every Swap finds its key
  -- returns what the same calls return on a function from keys to values, leaves a map that holds
  -- the values of that function, and leaves the counter at the number of distinct keys.
  pub run-counts :
      (ops : List (Call K V)) (t : SyncMap K V)
      → IsCounted e t
      → AllAllowed ops (load e t)
      → (load e (run ops t).0 ≡ (run_spec ops (load e t)).0)
        × ((run ops t).1 ≡ (run_spec ops (load e t)).1)
        × IsCounted e (run ops t).0
  run-counts [] t c a = (refl, refl, c)
  run-counts (op ∷ ops) t c (a, later) =
      let step = call-refines op t in
      let here = ap (λ r. r.0) step in
      let ih = run-counts ops (call e veq op t).0 (call-IsCounted e veq op t c a) (rw here later) in
      (
        ih.0 ∙ ap (λ f. (run_spec ops f).0) here,
        ap₂ {A = Option V × Bool} (λ r rs. r ∷ rs) (ap (λ r. (r.1, r.2)) step)
            (ih.1 ∙ ap (λ f. (run_spec ops f).1) here),
        ih.2,
      )
