-- ===== src/Sync/Map/Copying.antt =====
-- Copy of sync/Map.go, and what Swap does to the counter.
use part.Common.{
  Bool-cases, List, Option, [], ap, arith, inl, inr, length, none, pos, refl, some, sym, ◌∙◌, ◌∷◌,
  ◌≡◌,
}
use part.Common.Keys.{Eq, lookup, IsUnique, beq_self, lookup-insert, length-insert_absent}
use part.Sync.Map.{SyncMap, store, swap, load, len, copy_entries, copy_map, incr}
use part.Sync.Map.Counting.{IsCounted, store-IsCounted}

module _ {ℓ κ} {K : Type ℓ} {V : Type κ} (e : Eq K) where
  copy_entries-IsCounted :
      (m : List (K × V)) (t : SyncMap K V) → IsCounted e t → IsCounted e (copy_entries e m t)
  unfolding copy_entries
  copy_entries-IsCounted [] t c = c
  copy_entries-IsCounted ((k, v) ∷ m) t c =
      copy_entries-IsCounted m (store e t k v) (store-IsCounted e k v t c)

  abbrev first_of : Option V → Option V → Option V
  first_of none o = o
  first_of (some v) o = some v

  first_of-none : (o : Option V) → first_of o none ≡ o
  first_of-none none = refl
  first_of-none (some v) = refl

  copy_entries-load :
      (m : List (K × V)) (t : SyncMap K V) (j : K)
      → IsUnique e m
      → load e (copy_entries e m t) j ≡ first_of (lookup e j m) (load e t j)
  unfolding copy_entries load store lookup
  copy_entries-load [] t j u = refl
  copy_entries-load ((k, v) ∷ m) t j (fresh, u) =
      copy_entries-load m (store e t k v) j u
      ∙ rw (lookup-insert e k j v t.m) (elim (Bool-cases (e.beq k j)) [
        | inl same ↦ let p : k ≡ j = (e.beq_iff k j).0 same in rw (same, rw p at fresh) refl
        | inr other ↦ rw other refl
      ])

  pub copy_map_lem :
      (t : SyncMap K V)
      → IsCounted e t
      → IsCounted e (copy_map e t) × ((j : K) → load e (copy_map e t) j ≡ load e t j)
  unfolding copy_map load lookup
  copy_map_lem t c = (
    copy_entries-IsCounted t.m (record { size = pos 0; m = [] })
        (record { counted = refl; distinct = tt }),
    λ j.
        copy_entries-load t.m (record { size = pos 0; m = [] }) j c.distinct
        ∙ first_of-none (lookup e j t.m),
  )

  -- Where the key of a Swap is missing, the map gets an entry that Len does not count.
  pub swap_miscounts :
      (t : SyncMap K V) (k : K) (v : V)
      → IsCounted e t
      → load e t k ≡ none
      → let t' = (swap e t k v).0 in (load e t' k ≡ some v) × (pos (length t'.m) ≡ incr (len e t'))
  unfolding swap load len
  swap_miscounts t k v c absent = (
    lookup-insert e k k v t.m ∙ rw (beq_self e k) refl,
    ap pos (length-insert_absent e k v t.m absent ∙ omega arith) ∙ sym (ap incr c.counted),
  )
