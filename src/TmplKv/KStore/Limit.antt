-- ===== src/TmplKv/KStore/Limit.antt =====
-- The limit of `tmplK` (tmplKV/tmplK.go).
use part.Common.{
  Bool-cases, List, Option, [], ap, ap₂, arith, false, inl, inr, leb, length, none, pos, refl, some,
  suc, sym, true, ℕ, ℤ, ◌+◌, ◌∙◌, ◌∷◌, ◌≡◌, ◌≤◌,
}
use mathlib.Core.Path.{subst}
use part.Common.Keys.{
  Eq, lookup, lookup-insert, length-insert_absent, length-insert_present, length-erase,
}
use part.IdPool.{get_id}
use part.Sync.Map.{is_some, store, load, delete, load_and_delete, len}
use part.Sync.Map.Counting.{IsCounted, store-IsCounted, delete-IsCounted}
use part.TmplKv.Times.{reached}
use part.TmplKv.KStore.{
  Item, KStore, new, free, free_len, set_key, add_key, replace_first, get, is_live, add_nat,
}
use part.TmplKv.KStore.Sound.{
  AllOwn, IsSound, own-store, own-delete, add-IsSound, free_lem, lookup-head,
}

-- Set with the number and the item of the Id that sync.Pool would give, Get, and a tick.
pub data Call {ℓ} (K : Type ℓ) : Type ℓ where
  set_call : K → ℕ → ℕ → Call K
  get_call : K → Call K
  tick_call : ℕ → Call K

module _ {ℓ} {K : Type ℓ} (e : Eq K) where
  full-IsSound :
      (s : KStore K) (key : K)
      → IsSound e s
      → load e s.kvt_map key ≡ none
      → IsSound e (replace_first e s key s.kvt_map.m).0
        × ((replace_first e s key s.kvt_map.m).0.sum_in_druation ≡ s.sum_in_druation)
  unfolding load store delete load_and_delete
  full-IsSound s key l absent = split s.kvt_map.m refl
    where
      split :
          (m : List (K × Item))
          → s.kvt_map.m ≡ m
          → IsSound e (replace_first e s key m).0
            × ((replace_first e s key m).0.sum_in_druation ≡ s.sum_in_druation)
      split [] p = (l, refl)
      split ((oldkey, item) ∷ m) p =
          let item' : Item = record { kv = item.kv; kt = s.now; uid = item.uid } in
          let here : lookup e oldkey s.kvt_map.m ≡ some item =
            ap (λ x. lookup e oldkey x) p ∙ lookup-head e oldkey item m in
          let has = l.own oldkey item here in
          let t = store e s.kvt_map key item' in
          let c = store-IsCounted e key item' s.kvt_map l.counted in
          let grown : length t.m ≡ suc (length s.kvt_map.m) =
            length-insert_absent e key item' s.kvt_map.m absent in
          let still : lookup e oldkey t.m ≡ some item =
            lookup-insert e key oldkey item' s.kvt_map.m ∙ elim (Bool-cases (e.beq key oldkey)) [
              | inl same ↦
                  let q : key ≡ oldkey = (e.beq_iff key oldkey).0 same in
                  let no_value : none ≡ some item = sym absent ∙ rw q here in absurd (cc)
              | inr other ↦ rw other here
            ] in
          let shrunk : suc (length (delete e t oldkey).m) ≡ length t.m =
            length-erase e oldkey t.m c.distinct still in
          let same : length (delete e t oldkey).m ≡ length s.kvt_map.m = omega arith in
          (
            record {
              counted = delete-IsCounted e oldkey t c;
              ids = l.ids ∙ ap (λ n. pos (n + length s.slow_back_list)) (sym same);
              waiting = l.waiting;
              own = own-delete e t oldkey (own-store e s.kvt_map key item' l.own has);
              bound = λ n eq. rw same (l.bound n eq);
            },
            refl,
          )

  abbrev Same : KStore K → KStore K → Type 0
  Same s' s = s'.sum_in_druation ≡ s.sum_in_druation

  abbrev Freed : KStore K → KStore K → ℕ → Type ℓ
  Freed s s' n =
      (s'.pool.sum ≡ pos (n + length s'.slow_back_list))
      × AllOwn s'.slow_back_list
      × (s'.kvt_map ≡ s.kvt_map)
      × (s'.sum_in_druation ≡ s.sum_in_druation)
      × (s'.now ≡ s.now)

  left :
      (s : KStore K) (key : K) (item : Item)
      → IsSound e s
      → load e s.kvt_map key ≡ some item
      → (n : ℕ) → suc n ≡ length s.kvt_map.m
      → length (delete e s.kvt_map key).m ≡ n
  unfolding load delete load_and_delete
  left s key item l h n size =
      let len = length-erase e key s.kvt_map.m l.counted.distinct h in omega arith

  -- Where the key has an entry, its Id is given back.
  freed :
      (s : KStore K) (key : K) (item : Item)
      → IsSound e s
      → load e s.kvt_map key ≡ some item
      → (n : ℕ) × (suc n ≡ length s.kvt_map.m) × Freed s (free s item.uid) n
  unfolding load delete load_and_delete
  freed s key item l h =
      let n = length (delete e s.kvt_map key).m in
      let size : suc n ≡ length s.kvt_map.m = length-erase e key s.kvt_map.m l.counted.distinct h in
      (
        n,
        size,
        free_lem s item.uid n l.waiting (l.own key item h)
            (l.ids ∙ ap (λ k. pos (k + length s.slow_back_list)) (sym size)),
      )

  set-IsSound :
      (s : KStore K) (key : K) (id i : ℕ)
      → IsSound e s
      → let s' = (set_key e s key (record { id = id; item = some i }) 0 0).0 in
        IsSound e s' × Same s' s
  unfolding set_key load store
  set-IsSound s key id i l = split (load e s.kvt_map key) refl
    where
      roomy :
          load e s.kvt_map key ≡ none
          → reached s.sum_in_druation (free_len s) ≡ false
          → IsSound e (add_key e s key (get_id s.pool (record { id = id; item = some i }) 0 0)).0
      roomy absent room =
          add-IsSound e s key id i (length s.kvt_map.m) l.counted l.ids l.waiting l.own
            (λ item. length-insert_absent e key item s.kvt_map.m absent)
            (λ n eq.
              let k = length s.slow_back_list in
              let room' : leb n (length s.kvt_map.m + k + k) ≡ false =
                ap₂ reached (sym eq) (ap (λ z. add_nat z k) (sym l.ids)) ∙ room in
              ground arith)

      known :
          (tmp : Item)
          → load e s.kvt_map key ≡ some tmp
          → let s' = free s tmp.uid in
            let r = (add_key e s' key (get_id s'.pool (record { id = id; item = some i }) 0 0)).0 in
            IsSound e r × Same r s
      known tmp h =
          let (n, size, (ids, own, map, limit, now)) = freed s key tmp l h in
          let s' = free s tmp.uid in
          (
            add-IsSound e s' key id i n (subst (IsCounted e) (sym map) l.counted) ids own
                (subst
                  (λ t. (k : K) (it : Item) → load e t k ≡ some it → is_some it.uid.item ≡ true)
                  (sym map) l.own)
                (λ item.
                  ap (λ t. length (store e t key item).m) map
                  ∙ length-insert_present e key item s.kvt_map.m h
                  ∙ sym size)
                (λ k eq. let b = l.bound k (sym limit ∙ eq) in omega arith),
            limit,
          )

      split :
          (o : Option Item)
          → load e s.kvt_map key ≡ o
          → let s' = (set_key e s key (record { id = id; item = some i }) 0 0).0 in
            IsSound e s' × Same s' s
      split none h = elim (Bool-cases (reached s.sum_in_druation (free_len s))) [
        | inl full ↦ rw (h, set_key, full) (full-IsSound s key l h)
        | inr room ↦ rw (h, set_key, room) (roomy h room, refl)
      ]
      split (some tmp) h = rw (h, set_key) (known tmp h)

  get-IsSound :
      (s : KStore K) (key : K) → IsSound e s → let s' = (get e s key).0 in IsSound e s' × Same s' s
  unfolding get
  get-IsSound s key l = split (load e s.kvt_map key) refl
    where
      split :
          (o : Option Item)
          → load e s.kvt_map key ≡ o
          → let s' = (get e s key).0 in IsSound e s' × Same s' s
      split none h = rw (h, get) (l, refl)
      split (some item) h = elim (Bool-cases (is_live e s (some item))) [
        | inl live ↦ rw (h, get, live) (l, refl)
        | inr dead ↦
            let (n, size, (ids, own, map, limit, now)) = freed s key item l h in
            let shrunk : length (delete e (free s item.uid).kvt_map key).m ≡ n =
              ap (λ t. length (delete e t key).m) map ∙ left s key item l h n size in
            rw (h, get, dead)
              (
                record {
                  counted =
                      subst (λ t. IsCounted e (delete e t key)) (sym map)
                        (delete-IsCounted e key s.kvt_map l.counted);
                  ids =
                      ids
                      ∙ ap (λ k. pos (k + length (free s item.uid).slow_back_list)) (sym shrunk);
                  waiting = own;
                  own =
                      subst
                        (λ t.
                          (k : K) (it : Item)
                          → load e (delete e t key) k ≡ some it
                          → is_some it.uid.item ≡ true)
                        (sym map) (own-delete e s.kvt_map key l.own);
                  bound = λ k eq. let b = l.bound k (sym limit ∙ eq) in omega arith;
                },
                limit,
              )
      ]

  abbrev pub step : Call K → KStore K → KStore K
  step (Call.set_call key id i) s = (set_key e s key (record { id = id; item = some i }) 0 0).0
  step (Call.get_call key) s = (get e s key).0
  step (Call.tick_call time) s = record s { now = time }

  abbrev pub run : List (Call K) → KStore K → KStore K
  run [] s = s
  run (c ∷ cs) s = run cs (step c s)

  step-IsSound :
      (c : Call K) (s : KStore K) → IsSound e s → IsSound e (step c s) × Same (step c s) s
  step-IsSound (Call.set_call key id i) s l = set-IsSound s key id i l
  step-IsSound (Call.get_call key) s l = get-IsSound s key l
  step-IsSound (Call.tick_call time) s l = (
    record { counted = l.counted; ids = l.ids; waiting = l.waiting; own = l.own; bound = l.bound },
    refl,
  )

  run-IsSound :
      (cs : List (Call K)) (s : KStore K) → IsSound e s → IsSound e (run cs s) × Same (run cs s) s
  run-IsSound [] s l = (l, refl)
  run-IsSound (c ∷ cs) s l =
      let (l', same) = step-IsSound c s l in
      let (l2, same2) = run-IsSound cs (step c s) l' in (l2, same2 ∙ same)

  -- After any sequence of Set, Get and ticks on a new store, the pool has one Id in use for each
  -- entry and each waiting Id, Len counts the entries, and a limit that is not negative bounds it.
  pub run_limited_ids :
      (cs : List (Call K)) (limit druation : ℤ)
      → let s = run cs (new limit druation) in
        (s.pool.sum ≡ pos (length s.kvt_map.m + length s.slow_back_list))
        × (len e s.kvt_map ≡ pos (length s.kvt_map.m))
        × ((n : ℕ) → limit ≡ pos n → length s.kvt_map.m ≤ n)
  unfolding new load len lookup
  run_limited_ids cs limit druation =
      let (l, same) = run-IsSound cs (new limit druation) (record {
        counted = record { counted = refl; distinct = tt };
        ids = refl;
        waiting = tt;
        own = λ k item h. absurd (cc);
        bound = λ n eq. omega arith;
      }) in
      (l.ids, l.counted.counted, λ n eq. l.bound n (same ∙ eq))
