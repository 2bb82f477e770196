-- ===== src/Sync/Map/Counting.antt =====
-- Every call of `Map` (sync/Map.go) but Swap keeps the counter equal to the number of entries, and
-- acts on the value at each key as a finite function does.
use part.Common.{
  Bool, Bool-cases, List, Option, [], ap, arith, false, if◌then◌else◌, inl, inr, length, none, pos,
  refl, some, suc, sym, true, ℕ, ℤ, ◌∙◌, ◌∷◌, ◌≡◌, ◌⊎◌,
}
use part.Common.Keys.{
  Eq, lookup, insert, erase, IsUnique, lookup-erase, IsUnique-insert, IsUnique-erase,
  length-insert_absent, length-insert_present, length-erase, erase-absent, beq_self,
}
use part.Sync.Map.{
  SyncMap, incr, decr, is_some, holds, store, compare_and_swap, compare_and_delete, load_and_delete,
  swap, load_or_store, load, delete, clear_entries, clear_all,
}

-- The calls of a client that may change the map.
pub data Call {ℓ κ} (K : Type ℓ) (V : Type κ) : Type (ℓ ⊔ κ) where
  store_call load_or_store_call swap_call compare_delete_call : K → V → Call K V
  compare_swap_call : K → V → V → Call K V
  delete_call load_delete_call : K → Call K V
  clear_call : Call K V

raised : {n : ℕ} {z : ℤ} → z ≡ pos n → incr z ≡ pos (suc n)
raised {n} h = ap incr h ∙ ap pos (omega arith)

lowered : {n l : ℕ} {z : ℤ} → z ≡ pos l → suc n ≡ l → decr z ≡ pos n
lowered h p = ap decr (h ∙ sym (ap pos p))

-- The map holds as many entries as the counter says, with distinct keys.
pub record IsCounted {ℓ κ} {K : Type ℓ} {V : Type κ} (e : Eq K) (t : SyncMap K V) : Type κ where
  pub counted : t.size ≡ pos (length t.m)
  pub distinct : IsUnique e t.m

module _ {ℓ κ} {K : Type ℓ} {V : Type κ} (e : Eq K) (veq : Eq V) where
  -- A call gives the map after it, the value it returns if any, and its Boolean result.
  unfoldable pub call : Call K V → SyncMap K V → SyncMap K V × Option V × Bool
  call (Call.store_call k v) t = (store e t k v, none, true)
  call (Call.load_or_store_call k v) t = let r = load_or_store e t k v in (r.0, some r.1, r.2)
  call (Call.swap_call k v) t = let r = swap e t k v in (r.0, r.1, is_some r.1)
  call (Call.compare_delete_call k v) t = let r = compare_and_delete e veq t k v in (r.0, none, r.1)
  call (Call.compare_swap_call k old new) t =
      let r = compare_and_swap e veq t k old new in (r.0, none, r.1)
  call (Call.delete_call k) t = (delete e t k, none, true)
  call (Call.load_delete_call k) t = let r = load_and_delete e t k in (r.0, r.1, is_some r.1)
  call Call.clear_call t = (clear_all e t, none, true)

  unfoldable pub put : K → Option V → (K → Option V) → K → Option V
  put k o f j = if e.beq k j then o else f j

  unfoldable pub is_at : Option V → V → Bool
  is_at none v = false
  is_at (some w) v = veq.beq w v

  -- The same calls on a finite function from keys to values.
  unfoldable pub call_spec : Call K V → (K → Option V) → (K → Option V) × Option V × Bool
  unfolding put is_at
  call_spec (Call.store_call k v) f = (put k (some v) f, none, true)
  call_spec (Call.load_or_store_call k v) f =
      if is_some (f k) then (f, f k, true) else (put k (some v) f, some v, false)
  call_spec (Call.swap_call k v) f = (put k (some v) f, f k, is_some (f k))
  call_spec (Call.compare_delete_call k v) f =
      if is_at (f k) v then (put k none f, none, true) else (f, none, false)
  call_spec (Call.compare_swap_call k old new) f =
      if is_at (f k) old then (put k (some new) f, none, true) else (f, none, false)
  call_spec (Call.delete_call k) f = (put k none f, none, true)
  call_spec (Call.load_delete_call k) f = (put k none f, f k, is_some (f k))
  call_spec Call.clear_call f = (λ j. none, none, true)

  -- A Swap must find its key; every other call may find it or not.
  abbrev pub Allowed : Call K V → (K → Option V) → Type 0
  Allowed (Call.swap_call k v) f = is_some (f k) ≡ true
  Allowed _ f = Unit

module _ {ℓ κ} {K : Type ℓ} {V : Type κ} (e : Eq K) where
  pub Found-cases :
      (k : K) (m : List (K × V)) → (lookup e k m ≡ none) ⊎ ((v : V) × (lookup e k m ≡ some v))
  Found-cases k m = split (lookup e k m) refl
    where
      split :
          (o : Option V)
          → lookup e k m ≡ o
          → (lookup e k m ≡ none) ⊎ ((v : V) × (lookup e k m ≡ some v))
      split none h = inl h
      split (some v) h = inr (v, h)

  insert_new :
      (k : K) (v : V) (t : SyncMap K V)
      → IsCounted e t
      → lookup e k t.m ≡ none
      → IsCounted e (record { size = incr t.size; m = insert e k v t.m })
  insert_new k v t c absent = record {
    counted = raised c.counted ∙ sym (ap pos (length-insert_absent e k v t.m absent));
    distinct = IsUnique-insert e k v t.m c.distinct;
  }

  insert_old :
      (k : K) (v : V) (t : SyncMap K V) {w : V}
      → IsCounted e t
      → lookup e k t.m ≡ some w
      → IsCounted e (record { size = t.size; m = insert e k v t.m })
  insert_old k v t {w} c present = record {
    counted = c.counted ∙ sym (ap pos (length-insert_present e k v t.m present));
    distinct = IsUnique-insert e k v t.m c.distinct;
  }

  erase_old :
      (k : K) (t : SyncMap K V) {w : V}
      → IsCounted e t
      → lookup e k t.m ≡ some w
      → IsCounted e (record { size = decr t.size; m = erase e k t.m })
  erase_old k t {w} c present = record {
    counted = lowered c.counted (length-erase e k t.m c.distinct present);
    distinct = IsUnique-erase e k t.m c.distinct;
  }

  pub store-IsCounted :
      (k : K) (v : V) (t : SyncMap K V) → IsCounted e t → IsCounted e (store e t k v)
  unfolding store
  store-IsCounted k v t c = elim (Found-cases k t.m) [
    | inl absent ↦ rw absent (insert_new k v t c absent)
    | inr (w, present) ↦ rw present (insert_old k v t c present)
  ]

  load_and_delete-IsCounted :
      (k : K) (t : SyncMap K V) → IsCounted e t → IsCounted e (load_and_delete e t k).0
  unfolding load_and_delete
  load_and_delete-IsCounted k t c = elim (Found-cases k t.m) [
    | inl absent ↦ rw (absent, erase-absent e k t.m absent) c
    | inr (w, present) ↦ rw present (erase_old k t c present)
  ]

  clear_entries-nothing :
      (l m : List (K × V))
      → ((j : K) → lookup e j l ≡ none → lookup e j m ≡ none)
      → clear_entries e l m ≡ []
  unfolding clear_entries lookup
  clear_entries-nothing [] [] h = refl
  clear_entries-nothing [] ((k, v) ∷ m) h =
      let gone : some v ≡ none = rw (beq_self e k) at (h k refl) in absurd (cc)
  clear_entries-nothing ((k, v) ∷ l) m h = clear_entries-nothing l (erase e k m) (λ j absent.
      lookup-erase e k j m ∙ elim (Bool-cases (e.beq k j)) [
        | inl same ↦ rw same
        | inr other ↦ rw other (h j (rw other absent))
      ])

  pub clear_all_lem : (t : SyncMap K V) → clear_all e t ≡ record { size = pos 0; m = [] }
  unfolding clear_all
  clear_all_lem t =
      ap (λ l. record { size = pos 0; m = l }) (clear_entries-nothing t.m t.m (λ j h. h))

  pub delete-IsCounted : (k : K) (t : SyncMap K V) → IsCounted e t → IsCounted e (delete e t k)
  unfolding delete
  delete-IsCounted k t c = load_and_delete-IsCounted k t c

module _ {ℓ κ} {K : Type ℓ} {V : Type κ} (e : Eq K) (veq : Eq V) where
  pub call-IsCounted :
      (op : Call K V) (t : SyncMap K V)
      → IsCounted e t
      → Allowed e veq op (load e t)
      → IsCounted e (call e veq op t).0
  unfolding call load swap load_or_store compare_and_swap compare_and_delete delete
  call-IsCounted (Call.store_call k v) t c a = store-IsCounted e k v t c
  call-IsCounted (Call.load_or_store_call k v) t c a = elim (Found-cases e k t.m) [
    | inl absent ↦ rw (absent, load_or_store) (insert_new e k v t c absent)
    | inr (w, present) ↦ rw (present, load_or_store) c
  ]
  call-IsCounted (Call.swap_call k v) t c a = elim (Found-cases e k t.m) [
    | inl absent ↦ let no : false ≡ true = rw absent at a in absurd (cc)
    | inr (w, present) ↦ insert_old e k v t c present
  ]
  call-IsCounted (Call.compare_delete_call k v) t c a = elim (Found-cases e k t.m) [
    | inl absent ↦ rw (absent, holds) c
    | inr (w, present) ↦ elim (Bool-cases (veq.beq w v)) [
      | inl same ↦ rw (present, same, holds) (erase_old e k t c present)
      | inr other ↦ rw (present, other, holds) c
    ]
  ]
  call-IsCounted (Call.compare_swap_call k old new) t c a = elim (Found-cases e k t.m) [
    | inl absent ↦ rw (absent, holds) c
    | inr (w, present) ↦ elim (Bool-cases (veq.beq w old)) [
      | inl same ↦ rw (present, same, holds) (insert_old e k new t c present)
      | inr other ↦ rw (present, other, holds) c
    ]
  ]
  call-IsCounted (Call.delete_call k) t c a = load_and_delete-IsCounted e k t c
  call-IsCounted (Call.load_delete_call k) t c a = load_and_delete-IsCounted e k t c
  call-IsCounted Call.clear_call t c a =
      rw (clear_all_lem e t) (record { counted = refl; distinct = tt })
