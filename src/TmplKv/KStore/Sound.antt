-- ===== src/TmplKv/KStore/Sound.antt =====
-- What `tmplK` (tmplKV/tmplK.go) keeps: its map, its pool and its list of waiting ids.
use part.Common.{
  Bool-cases, List, [], ap, arith, inl, inr, length, length-append, none, pos, refl, some, suc, sym,
  true, ℕ, ◌++◌, ◌+◌, ◌∙◌, ◌∷◌, ◌≡◌, ◌≤◌,
}
use part.Common.Keys.{Eq, lookup, beq_self}
use part.IdPool.{PoolId, get_id}
use part.Sync.Map.{SyncMap, incr, decr, is_some, store, load, delete}
use part.Sync.Map.Access.{load-store, load-delete}
use part.Sync.Map.Counting.{IsCounted, store-IsCounted}
use part.TmplKv.Times.{exceeds}
use part.TmplKv.KStore.{Item, KStore, free, free_len, put_front, add_key}

-- Every waiting Id has an item.
abbrev pub AllOwn : List PoolId → Type 0
AllOwn [] = Unit
AllOwn (i ∷ is) = (is_some i.item ≡ true) × AllOwn is

AllOwn-append :
    (is : List PoolId) (i : PoolId) → AllOwn is → is_some i.item ≡ true → AllOwn (is ++ (i ∷ []))
AllOwn-append [] i own has = (has, tt)
AllOwn-append (j ∷ is) i (own, owns) has = (own, AllOwn-append is i owns has)

module _ {ℓ} {K : Type ℓ} where
  -- After `free`, one Id less than there were is neither waiting nor back in the pool.
  pub free_lem :
      (s : KStore K) (i : PoolId) (n : ℕ)
      → AllOwn s.slow_back_list
      → is_some i.item ≡ true
      → s.pool.sum ≡ pos (suc n + length s.slow_back_list)
      → let s' = free s i in
        (s'.pool.sum ≡ pos (n + length s'.slow_back_list))
        × AllOwn s'.slow_back_list
        × (s'.kvt_map ≡ s.kvt_map)
        × (s'.sum_in_druation ≡ s.sum_in_druation)
        × (s'.now ≡ s.now)
  unfolding free
  free_lem s i n own has h =
      let longer = length-append s.slow_back_list (i ∷ []) in
      let own' = AllOwn-append s.slow_back_list i own has in
      let full : KStore K = record s { slow_back_list = s.slow_back_list ++ (i ∷ []) } in
      elim (Bool-cases (exceeds (free_len full) s.sum_in_druation)) [
        | inr fits ↦ rw fits (h ∙ ap pos (omega arith), own', refl, refl, refl)
        | inl over ↦ rw over (front full.slow_back_list refl own' (h ∙ ap pos (omega arith)))
      ]
    where
      front :
          (is : List PoolId)
          → is ≡ s.slow_back_list ++ (i ∷ [])
          → AllOwn is
          → s.pool.sum ≡ pos (n + length is)
          → let s' = put_front (record s { slow_back_list = s.slow_back_list ++ (i ∷ []) }) is in
            (s'.pool.sum ≡ pos (n + length s'.slow_back_list))
            × AllOwn s'.slow_back_list
            × (s'.kvt_map ≡ s.kvt_map)
            × (s'.sum_in_druation ≡ s.sum_in_druation)
            × (s'.now ≡ s.now)
      front [] empty own h =
          let longer = length-append s.slow_back_list (i ∷ []) in
          let same : 0 ≡ length (s.slow_back_list ++ (i ∷ [])) = ap length empty in
          absurd (omega arith)
      front (j ∷ is) p (own, owns) h =
          let less : n + length (j ∷ is) ≡ suc (n + length is) = omega arith in
          (rw own (ap decr (h ∙ ap pos less)), owns, refl, refl, refl)

-- An Id in use for every entry and every one that waits, and no more entries than the limit.
pub record IsSound {ℓ} {K : Type ℓ} (e : Eq K) (s : KStore K) : Type ℓ where
  pub counted : IsCounted e s.kvt_map
  pub ids : s.pool.sum ≡ pos (length s.kvt_map.m + length s.slow_back_list)
  pub waiting : AllOwn s.slow_back_list
  pub own : (k : K) (item : Item) → load e s.kvt_map k ≡ some item → is_some item.uid.item ≡ true
  pub bound : (n : ℕ) → s.sum_in_druation ≡ pos n → length s.kvt_map.m ≤ n

module _ {ℓ} {K : Type ℓ} (e : Eq K) where
  pub own-store :
      (t : SyncMap K Item) (key : K) (item : Item)
      → ((k : K) (it : Item) → load e t k ≡ some it → is_some it.uid.item ≡ true)
      → is_some item.uid.item ≡ true
      → (k : K) (it : Item) → load e (store e t key item) k ≡ some it
      → is_some it.uid.item ≡ true
  own-store t key item own has k it h =
      let h' = rw (load-store e t key k item) at h in
      elim (Bool-cases (e.beq key k)) [
        | inl same ↦
            let h2 : some item ≡ some it = rw same at h' in
            (let q : item ≡ it = cc in ap (λ x. is_some x.uid.item) (sym q)) ∙ has
        | inr other ↦ own k it (rw other at h')
      ]

  pub own-delete :
      (t : SyncMap K Item) (key : K)
      → ((k : K) (it : Item) → load e t k ≡ some it → is_some it.uid.item ≡ true)
      → (k : K) (it : Item) → load e (delete e t key) k ≡ some it
      → is_some it.uid.item ≡ true
  own-delete t key own k it h =
      let h' = rw (load-delete e t key k) at h in
      elim (Bool-cases (e.beq key k)) [
        | inl same ↦ let h2 : none ≡ some it = rw same at h' in absurd (cc)
        | inr other ↦ own k it (rw other at h')
      ]

  pub add-IsSound :
      (s : KStore K) (key : K) (id i n : ℕ)
      → IsCounted e s.kvt_map
      → s.pool.sum ≡ pos (n + length s.slow_back_list)
      → AllOwn s.slow_back_list
      → ((k : K) (it : Item) → load e s.kvt_map k ≡ some it → is_some it.uid.item ≡ true)
      → ((item : Item) → length (store e s.kvt_map key item).m ≡ suc n)
      → ((l : ℕ) → s.sum_in_druation ≡ pos l → suc n ≤ l)
      → IsSound e (add_key e s key (get_id s.pool (record { id = id; item = some i }) 0 0)).0
  add-IsSound s key id i n c ids waiting own size bound =
      let item : Item = record { kv = id; kt = s.now; uid = record { id = id; item = some i } } in
      let len = size item in
      record {
        counted = store-IsCounted e key item s.kvt_map c;
        ids = ap incr ids ∙ ap pos (omega arith);
        waiting = waiting;
        own = own-store s.kvt_map key item own refl;
        bound = λ l eq. rw len (bound l eq);
      }

pub lookup-head {ℓ} :
    {K : Type ℓ} (e : Eq K) (k : K) (v : Item) (m : List (K × Item))
    → lookup e k ((k, v) ∷ m) ≡ some v
unfolding lookup
lookup-head e k v m = rw (beq_self e k) refl
