-- ===== src/TmplKv/VStore/Limit.antt =====
-- The limit of `tmplV` (tmplKV/tmplV.go).
use mathlib.Core.Path.{subst}
use part.Common.{
  Bool-cases, List, Option, [], ap, ap₂, arith, false, if◌then◌else◌, inl, inr, leb, length, ltb,
  negsuc, none, pos, refl, some, suc, sym, true, ℕ, ℤ, ◌==◌, ◌>>=◌, ◌↔◌, ◌∙◌, ◌∷◌, ◌≡◌, ◌≢◌, ◌≤◌,
}
use part.Common.Keys.{
  nat_eq, lookup, insert, erase, IsUnique, IsUnique-insert, lookup-insert, lookup-erase,
  IsUnique-erase, length-insert_absent, length-erase,
}
use part.IdPool.{PoolId, get_id, put_ids}
use part.Sync.Map.{incr, decr, is_some}
use part.TmplKv.Times.{reached}
use part.TmplKv.VStore.{
  Item, VStore, new, set_value, replace_first, add_value, get, is_live, remove,
}

-- A Set with the number and the item of the Id that sync.Pool would give, a Get, and a tick of the clock.
pub data Call {ℓ} (V : Type ℓ) : Type ℓ where
  set_call : V → ℕ → ℕ → Call V
  get_call tick_call : ℕ → Call V

reached_zero : (l : ℤ) → reached l (pos 0) ≡ true → l ≡ pos 0
reached_zero (pos n) h = ap pos (ground arith)
reached_zero (negsuc n) h = absurd (cc)

-- What the store holds: one Id in use for each entry, and no more entries than the limit.
record IsSound {ℓ} {V : Type ℓ} (s : VStore V) : Type ℓ where
  counted : s.pool.sum ≡ pos (length s.kvt_map)
  distinct : IsUnique nat_eq s.kvt_map
  bound : (n : ℕ) → s.sum_in_druation ≡ pos n → length s.kvt_map ≤ n
  own :
      (k : ℕ) (item : Item V)
      → lookup nat_eq k s.kvt_map ≡ some item
      → (i : ℕ) × (item.uid.item ≡ some i)

module _ {ℓ} {V : Type ℓ} where
  -- `some s'`, or `none` where Set never returns.
  abbrev pub step : Call V → VStore V → Option (VStore V)
  step (Call.set_call v id i) s = do
    r ← set_value s v (record { id = id; item = some i }) 0 0
    some r.0
  step (Call.get_call key) s = some (get s key).0
  step (Call.tick_call time) s = some (record s { now = time })

  abbrev pub run : List (Call V) → VStore V → Option (VStore V)
  run [] s = some s
  run (c ∷ cs) s = do s' ← step c s; run cs s'

  -- No entry is under the Id.
  abbrev pub IsFresh : Call V → VStore V → Type ℓ
  IsFresh (Call.set_call v id i) s = lookup nat_eq id s.kvt_map ≡ none
  IsFresh c s = Unit

  Keeps : VStore V → Option (VStore V) → Type ℓ
  Keeps s o =
      (s' : VStore V) × (o ≡ some s') × IsSound s' × (s'.sum_in_druation ≡ s.sum_in_druation)

  full-Keeps :
      (s : VStore V) (v : V)
      → IsSound s
      → s.sum_in_druation ≢ pos 0
      → reached s.sum_in_druation s.pool.sum ≡ true
      → Keeps s (replace_first s v s.kvt_map >>= λ r. some r.0)
  unfolding Keeps lookup
  full-Keeps s v l positive full = split s.kvt_map refl
    where
      split :
          (m : List (ℕ × Item V)) → s.kvt_map ≡ m → Keeps s (replace_first s v m >>= λ r. some r.0)
      split [] p =
          let zero_used : s.pool.sum ≡ pos 0 = l.counted ∙ ap (λ m. pos (length m)) p in
          absurd (positive (reached_zero s.sum_in_druation (rw zero_used at full)))
      split ((key, item) ∷ m) p =
          let u = rw p at l.distinct in
          (
            _,
            refl,
            record {
              counted = l.counted ∙ ap (λ m. pos (length m)) p;
              distinct = u;
              bound = λ n eq. subst (λ k. length k ≤ n) p (l.bound n eq);
              own = λ k it h. elim (Bool-cases (key == k)) [
                | inl same ↦
                    let item' : Item V = record { kv = v; kt = s.now; uid = item.uid } in
                    let h' : some item' ≡ some it = rw same at h in
                    let (i, has) = l.own k item (rw (p, same) refl) in
                    (i, (let q : item' ≡ it = cc in ap (λ x. x.uid.item) (sym q)) ∙ has)
                | inr other ↦ l.own k it (rw (p, other) (rw other at h))
              ];
            },
            refl,
          )

  room-Keeps :
      (s : VStore V) (v : V) (id i : ℕ)
      → IsSound s
      → lookup nat_eq id s.kvt_map ≡ none
      → reached s.sum_in_druation s.pool.sum ≡ false
      → let o : PoolId = record { id = id; item = some i } in
        Keeps s (add_value s v (get_id s.pool o 0 0) >>= λ r. some r.0)
  unfolding Keeps
  room-Keeps s v id i l absent room =
      let item : Item V = record { kv = v; kt = s.now; uid = record { id = id; item = some i } } in
      let len : length (insert nat_eq id item s.kvt_map) ≡ suc (length s.kvt_map) =
        length-insert_absent nat_eq id item s.kvt_map absent in
      (
        _,
        refl,
        record {
          counted = ap incr l.counted ∙ ap pos (omega arith);
          distinct = IsUnique-insert nat_eq id item s.kvt_map l.distinct;
          bound = λ n eq.
              let room' : leb n (length s.kvt_map) ≡ false =
                ap₂ reached (sym eq) (sym l.counted) ∙ room in
              rw len (ground arith);
          own = λ k it h.
              let h' = rw (lookup-insert nat_eq id k item s.kvt_map) at h in
              elim (Bool-cases (id == k)) [
                | inl same ↦
                    let h2 : some item ≡ some it = rw same at h' in
                    (i, (let q : item ≡ it = cc in ap (λ x. x.uid.item) (sym q)))
                | inr other ↦ l.own k it (rw other at h')
              ];
        },
        refl,
      )

  remove-IsSound :
      (s : VStore V) (key : ℕ) (item : Item V)
      → IsSound s
      → lookup nat_eq key s.kvt_map ≡ some item
      → IsSound (remove s key item) × ((remove s key item).sum_in_druation ≡ s.sum_in_druation)
  remove-IsSound s key item l found =
      let (i, has) = l.own key item found in
      let len = length-erase nat_eq key s.kvt_map l.distinct found in
      let m = erase nat_eq key s.kvt_map in
      let on : is_some item.uid.item ≡ true = ap is_some has in
      let after : put_ids s.pool (item.uid ∷ [])
          ≡ record { pool = item.uid ∷ s.pool.pool; sum = decr s.pool.sum } =
        rw on refl in
      let sound : (d : ℕ)
          → IsSound (record s {
            delete_num = d;
            pool = record { pool = item.uid ∷ s.pool.pool; sum = decr s.pool.sum };
            kvt_map = m;
          }) =
        λ d. record {
          counted = ap decr (l.counted ∙ ap pos (sym len));
          distinct = IsUnique-erase nat_eq key s.kvt_map l.distinct;
          bound = λ n eq. let b = l.bound n eq in omega arith;
          own = λ k it h.
              let h' = rw (lookup-erase nat_eq key k s.kvt_map) at h in
              elim (Bool-cases (key == k)) [
                | inl same ↦ let h2 : none ≡ some it = rw same at h' in absurd (cc)
                | inr other ↦ l.own k it (rw other at h')
              ];
        } in
      let pruned = ap (λ q. prune (record s { pool = q; kvt_map = m })) after in
      subst (λ r. IsSound r × (r.sum_in_druation ≡ s.sum_in_druation)) (sym pruned)
        (elim (Bool-cases (ltb (length m) s.delete_num)) [
          | inl due ↦ rw due (sound 0, refl)
          | inr other ↦ rw other (sound s.delete_num, refl)
        ])
    where
      prune : VStore V → VStore V
      prune s' = if ltb (length s'.kvt_map) s'.delete_num then record s' { delete_num = 0 } else s'

  step-Keeps :
      (c : Call V) (s : VStore V)
      → IsSound s
      → s.sum_in_druation ≢ pos 0
      → IsFresh c s
      → Keeps s (step c s)
  unfolding Keeps set_value get
  step-Keeps (Call.set_call v id i) s l positive fresh =
      elim (Bool-cases (reached s.sum_in_druation s.pool.sum)) [
        | inl full ↦ rw full (full-Keeps s v l positive full)
        | inr room ↦ rw room (room-Keeps s v id i l fresh room)
      ]
  step-Keeps (Call.get_call key) s l positive fresh = split (lookup nat_eq key s.kvt_map) refl
    where
      split : (o : Option (Item V)) → lookup nat_eq key s.kvt_map ≡ o → Keeps s (some (get s key).0)
      split none h = rw (h, get) (s, refl, l, refl)
      split (some item) h = elim (Bool-cases (is_live s (some item))) [
        | inl live ↦ rw (h, get, live) (s, refl, l, refl)
        | inr dead ↦
            let (l', same) = remove-IsSound s key item l h in
            rw (h, get, dead) (remove s key item, refl, l', same)
      ]
  step-Keeps (Call.tick_call time) s l positive fresh = (
    record s { now = time },
    refl,
    record { counted = l.counted; distinct = l.distinct; bound = l.bound; own = l.own },
    refl,
  )

  abbrev pub After : (VStore V → Type ℓ) → Option (VStore V) → Type ℓ
  After P none = Unit
  After P (some s) = P s

  -- Every Id of a Set that adds an entry is one that no entry is under.
  abbrev pub AllFresh : List (Call V) → VStore V → Type ℓ
  AllFresh [] s = Unit
  AllFresh (c ∷ cs) s = IsFresh c s × After (AllFresh cs) (step c s)

  run-Keeps :
      (cs : List (Call V)) (s : VStore V)
      → IsSound s
      → s.sum_in_druation ≢ pos 0
      → AllFresh cs s
      → Keeps s (run cs s)
  unfolding Keeps
  run-Keeps [] s l positive fresh = (s, refl, l, refl)
  run-Keeps (c ∷ cs) s l positive (fresh, later) =
      let (s1, e1, l1, same1) = step-Keeps c s l positive fresh in
      let (s2, e2, l2, same2) =
        run-Keeps cs s1 l1 (λ q. positive (sym same1 ∙ q)) (subst (After (AllFresh cs)) e1 later) in
      (s2, rw e1 e2, l2, same2 ∙ same1)

  -- From a new store whose limit is not 0, any sequence of Set, Get and ticks in which sync.Pool
  -- gives no Id that an entry is under comes to an end without a lock that is never given back,
  -- with one Id in use for each entry and no more entries than a limit that is not negative.
  pub run_limited :
      (cs : List (Call V)) (limit druation : ℤ)
      → limit ≢ pos 0
      → AllFresh cs (new limit druation)
      → (s : VStore V) × (run cs (new limit druation) ≡ some s)
        × (s.pool.sum ≡ pos (length s.kvt_map))
        × ((n : ℕ) → limit ≡ pos n → length s.kvt_map ≤ n)
  unfolding new Keeps lookup
  run_limited cs limit druation positive fresh =
      let (s, e, l, same) =
        run-Keeps cs (new limit druation)
          (record {
            counted = refl;
            distinct = tt;
            bound = λ n eq. omega arith;
            own = λ k item h. absurd (cc);
          })
          positive fresh in
      (s, e, l.counted, λ n eq. l.bound n (same ∙ eq))

  -- On a store with one Id in use for each entry, Set takes its lock twice and never returns
  -- exactly where the limit is 0 and the store has no entries.
  pub set_value_deadlocks :
      (s : VStore V) (v : V) (o : PoolId) (fresh address : ℕ)
      → s.pool.sum ≡ pos (length s.kvt_map)
      → (set_value s v o fresh address ≡ none) ↔ ((s.sum_in_druation ≡ pos 0) × (s.kvt_map ≡ []))
  unfolding set_value
  set_value_deadlocks s v o fresh address counted = (only, when)
    where
      when : (s.sum_in_druation ≡ pos 0) × (s.kvt_map ≡ []) → set_value s v o fresh address ≡ none
      when (limit, empty) =
          let full : reached s.sum_in_druation s.pool.sum ≡ true =
            ap₂ reached limit (counted ∙ ap (λ m. pos (length m)) empty) in
          rw full (ap (replace_first s v) empty)

      stuck :
          (m : List (ℕ × Item V))
          → s.kvt_map ≡ m
          → reached s.sum_in_druation s.pool.sum ≡ true
          → replace_first s v m ≡ none
          → (s.sum_in_druation ≡ pos 0) × (s.kvt_map ≡ [])
      stuck [] p full h = (
        reached_zero s.sum_in_druation (
            ap (λ z. reached s.sum_in_druation z) (sym (counted ∙ ap (λ m. pos (length m)) p))
            ∙ full),
        p,
      )
      stuck ((key, item) ∷ m) p full h = absurd (cc)

      only : set_value s v o fresh address ≡ none → (s.sum_in_druation ≡ pos 0) × (s.kvt_map ≡ [])
      only h = elim (Bool-cases (reached s.sum_in_druation s.pool.sum)) [
        | inl full ↦ stuck s.kvt_map refl full (rw full at h)
        | inr room ↦ let h' = rw room at h in absurd (cc)
      ]
