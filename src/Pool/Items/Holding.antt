-- ===== src/Pool/Items/Holding.antt =====
-- Two callers of the pool (pool/Pool.go) never hold one item, and the pool keeps to its maximum.
use part.Common.{
  ==_iff, Bool, Bool-cases, List, Option, Option-cases, [], ap, arith, false, if◌then◌else◌, inl,
  inr, length, ltb, ltb→lt, none, pos, refl, some, suc, sym, true, zero, ℕ, ℤ, ◌&&◌, ◌+◌, ◌==◌,
  ◌||◌, ◌∙◌, ◌∷◌, ◌≡◌, ◌≤◌, ◌⊎◌,
}
use part.Common.Keys.{
  nat_eq, lookup, insert, IsUnique, lookup-insert, IsUnique-insert, length-insert_absent,
  length-insert_present,
}
use mathlib.Core.Path.{subst}
use part.Pool.Items.{PoolFunc, Items, new, is_free, find_free, reused, get, below_max, put_one, put}

abbrev member : ℕ → List ℕ → Bool
member k [] = false
member k (x ∷ xs) = (x == k) || member k xs

abbrev pub IsDistinct : List ℕ → Type 0
IsDistinct [] = Unit
IsDistinct (x ∷ xs) = (member x xs ≡ false) × IsDistinct xs

-- Get with what InUse says at that time, the order of its range and the pointer that New would
-- give; and Put of the k-th held item.
pub data Call : Type 0 where
  get_call : (ℕ → Bool) → List ℕ → ℕ → Call
  put_call : ℕ → Call

abbrev pub nth_rest : List ℕ → ℕ → Option (ℕ × List ℕ)
nth_rest [] k = none
nth_rest (b ∷ bs) zero = some (b, bs)
nth_rest (b ∷ bs) (suc k) = elim (nth_rest bs k) [ none ↦ none | some (c, cs) ↦ some (c, b ∷ cs) ]

abbrev pub step : Call → Items → List ℕ → Items × List ℕ
step (Call.get_call in_use order p) t held = let r = get t in_use order p in (r.0, r.1 ∷ held)
step (Call.put_call k) t held = elim (nth_rest held k) [
  | none ↦ (t, held)
  | some (x, rest) ↦ (put t (x ∷ []), rest)
]

abbrev pub run : List Call → Items → List ℕ → Items × List ℕ
run [] t held = (t, held)
run (c ∷ cs) t held = let r = step c t held in run cs r.0 r.1

-- New gives a pointer that is neither held nor in the pool.
abbrev pub IsFresh : Call → Items → List ℕ → Type 0
IsFresh (Call.get_call in_use order p) t held =
    (member p held ≡ false) × (lookup nat_eq p t.mbuf ≡ none)
IsFresh (Call.put_call k) t held = Unit

abbrev pub AllFresh : List Call → Items → List ℕ → Type 0
AllFresh [] t held = Unit
AllFresh (c ∷ cs) t held = IsFresh c t held × (let r = step c t held in AllFresh cs r.0 r.1)

record IsHolding (t : Items) (held : List ℕ) : Type 0 where
  apart : (k : ℕ) → lookup nat_eq k t.mbuf ≡ some true → member k held ≡ false
  distinct : IsDistinct held
  unique : IsUnique nat_eq t.mbuf
  bound : (n : ℕ) → t.maxsize ≡ pos n → length t.mbuf ≤ n
  plain : t.pf.reuse ≡ none

nth_rest-cases :
    (held : List ℕ) (k : ℕ)
    → IsDistinct held
    → (nth_rest held k ≡ none)
      ⊎ ((x : ℕ) × (rest : List ℕ) × (nth_rest held k ≡ some (x, rest))
          × (member x rest ≡ false)
          × IsDistinct rest
          × ((j : ℕ) → member j held ≡ ((x == j) || member j rest)))
nth_rest-cases [] k d = inl refl
nth_rest-cases (b ∷ bs) zero (d, ds) = inr (b, bs, refl, d, ds, λ j. refl)
nth_rest-cases (c ∷ cs) (suc k) (d, ds) = elim (nth_rest-cases cs k ds) [
  | inl e ↦ inl (rw e refl)
  | inr (x, rest, e, new_x, ds', same) ↦
      let at_c = same c in
      inr (
        x,
        c ∷ rest,
        rw e refl,
        ground arith,
        (ground arith, ds'),
        λ j. let h = same j in ground arith,
      )
]

find_free-lookup :
    (pf : PoolFunc) (in_use : ℕ → Bool) (m : List (ℕ × Bool)) (order : List ℕ) (k : ℕ)
    → find_free pf in_use m order ≡ some k
    → lookup nat_eq k m ≡ some true
unfolding find_free
find_free-lookup pf in_use m [] k h = absurd (cc)
find_free-lookup pf in_use m (j ∷ js) k h = elim (Option-cases (lookup nat_eq j m)) [
  | inl missing ↦ find_free-lookup pf in_use m js k (rw (find_free, missing) at h)
  | inr (v, found) ↦ elim (Bool-cases (v && is_free pf in_use j)) [
    | inl here ↦
        let h' : some j ≡ some k = rw (find_free, found, here) at h in
        let same : j ≡ k = cc in
        let flag : v ≡ true = ground arith in
        ap (λ i. lookup nat_eq i m) (sym same) ∙ found ∙ ap some flag
    | inr further ↦ find_free-lookup pf in_use m js k (rw (find_free, found, further) at h)
  ]
]

reused-plain : (pf : PoolFunc) (k : ℕ) → pf.reuse ≡ none → reused pf k ≡ k
reused-plain pf k h = rw (h, reused) refl

get-IsHolding :
    (t : Items) (in_use : ℕ → Bool) (order : List ℕ) (p : ℕ) (held : List ℕ)
    → IsHolding t held
    → IsFresh (Call.get_call in_use order p) t held
    → let r = get t in_use order p in IsHolding r.0 (r.1 ∷ held)
unfolding get
get-IsHolding t in_use order p held l (new_p, absent) =
    split (find_free t.pf in_use t.mbuf order) refl
  where
    split :
        (o : Option ℕ)
        → find_free t.pf in_use t.mbuf order ≡ o
        → let r = get t in_use order p in IsHolding r.0 (r.1 ∷ held)
    split none e = rw (e, get) (either t.pf.has_new)
      where
        more : (n : ℕ) → IsHolding (record t { allocs = n }) (p ∷ held)
        more n = record {
          apart = λ j h. elim (Bool-cases (p == j)) [
            | inl same ↦
                let q : p ≡ j = (==_iff p j).0 same in
                let no_value : none ≡ some true = sym absent ∙ rw q h in absurd (cc)
            | inr other ↦ rw other (l.apart j h)
          ];
          distinct = (new_p, l.distinct);
          unique = l.unique;
          bound = l.bound;
          plain = l.plain;
        }

        either :
            (b : Bool)
            → let r : Items × ℕ = if b then (record t { allocs = t.allocs + 1 }, p) else (t, p) in
              IsHolding r.0 (r.1 ∷ held)
        either true = more (t.allocs + 1)
        either false = more t.allocs
    split (some k) e =
        let here = find_free-lookup t.pf in_use t.mbuf order k e in
        rw (e, get)
          (subst (λ x. IsHolding (record t { mbuf = insert nat_eq k false t.mbuf }) (x ∷ held))
            (sym (reused-plain t.pf k l.plain))
            (record {
              apart = λ j h.
                  let h' = rw (lookup-insert nat_eq k j false t.mbuf) at h in
                  elim (Bool-cases (k == j)) [
                    | inl same ↦ let h2 : some false ≡ some true = rw same at h' in absurd (cc)
                    | inr other ↦ rw other (l.apart j (rw other at h'))
                  ];
              distinct = (l.apart k here, l.distinct);
              unique = IsUnique-insert nat_eq k false t.mbuf l.unique;
              bound = λ n eq. rw (length-insert_present nat_eq k false t.mbuf here) (l.bound n eq);
              plain = l.plain;
            }))

put-IsHolding :
    (t : Items) (x : ℕ) (rest : List ℕ)
    → ((k : ℕ) → lookup nat_eq k t.mbuf ≡ some true → member k rest ≡ false)
    → member x rest ≡ false
    → IsDistinct rest
    → IsUnique nat_eq t.mbuf
    → ((n : ℕ) → t.maxsize ≡ pos n → length t.mbuf ≤ n)
    → t.pf.reuse ≡ none
    → IsHolding (put t (x ∷ [])) rest
unfolding put put_one
put-IsHolding t x rest apart new_x d u bound plain = split (lookup nat_eq x t.mbuf) refl
  where
    after :
        ((n : ℕ) → t.maxsize ≡ pos n → length (insert nat_eq x true t.mbuf) ≤ n)
        → IsHolding (record t { mbuf = insert nat_eq x true t.mbuf }) rest
    after within = record {
      apart = λ j h.
          let h' = rw (lookup-insert nat_eq x j true t.mbuf) at h in
          elim (Bool-cases (x == j)) [
            | inl same ↦ let q : x ≡ j = (==_iff x j).0 same in rw q at new_x
            | inr other ↦ apart j (rw other at h')
          ];
      distinct = d;
      unique = IsUnique-insert nat_eq x true t.mbuf u;
      bound = within;
      plain = plain;
    }

    split : (o : Option Bool) → lookup nat_eq x t.mbuf ≡ o → IsHolding (put t (x ∷ [])) rest
    split (some v) e =
        rw (e, put_one)
          (after (λ n eq. rw (length-insert_present nat_eq x true t.mbuf e) (bound n eq)))
    split none e = elim (Bool-cases (below_max t.maxsize (length t.mbuf))) [
      | inl fits ↦
          rw (e, put_one, fits)
            (after (λ n eq.
              let fits' : ltb (length t.mbuf) n ≡ true = rw eq at fits in
              let lt = ltb→lt _ _ fits' in
              rw (length-insert_absent nat_eq x true t.mbuf e) (omega arith)))
      | inr full ↦
          rw (e, put_one, full)
            (record { apart = apart; distinct = d; unique = u; bound = bound; plain = plain })
    ]

step-IsHolding :
    (c : Call) (t : Items) (held : List ℕ)
    → IsHolding t held
    → IsFresh c t held
    → let r = step c t held in IsHolding r.0 r.1
step-IsHolding (Call.get_call in_use order p) t held l fresh =
    get-IsHolding t in_use order p held l fresh
step-IsHolding (Call.put_call k) t held l fresh = elim (nth_rest-cases held k l.distinct) [
  | inl e ↦ rw (e, step) l
  | inr (x, rest, e, new_x, d, same) ↦
      rw (e, step)
        (put-IsHolding t x rest (λ j h. let m = l.apart j h in let s = same j in ground arith) new_x
          d l.unique l.bound l.plain)
]

run-IsHolding :
    (cs : List Call) (t : Items) (held : List ℕ)
    → IsHolding t held
    → AllFresh cs t held
    → let r = run cs t held in IsHolding r.0 r.1
run-IsHolding [] t held l fresh = l
run-IsHolding (c ∷ cs) t held l (fresh, later) =
    run-IsHolding cs _ _ (step-IsHolding c t held l fresh) later

-- From a new pool without Reuse, after any sequence of Get and Put of a held item in which New
-- gives fresh pointers, whatever InUse says at each Get and in whatever order each Get ranges over
-- the map, no item is held twice, and a pool with a maximum holds no more entries.
pub run-holds :
    (pf : PoolFunc) (maxsize : ℤ) (cs : List Call)
    → pf.reuse ≡ none
    → AllFresh cs (new pf maxsize) []
    → let r = run cs (new pf maxsize) [] in
      IsDistinct r.1 × ((n : ℕ) → r.0.maxsize ≡ pos n → length r.0.mbuf ≤ n)
unfolding new lookup
run-holds pf maxsize cs plain fresh =
    let l =
      run-IsHolding cs (new pf maxsize) []
        (record {
          apart = λ k h. refl;
          distinct = tt;
          unique = tt;
          bound = λ n eq. omega arith;
          plain = plain;
        })
        fresh in
    (l.distinct, l.bound)
