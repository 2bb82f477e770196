-- ===== src/Pool/Items.antt =====
-- `Buf` of pool/Pool.go. A pointer is a number and the Go map is a list of entries; the order in
-- which Get ranges over it is an argument. The rate of the Gets, a float, is left out.
pub mod Holding
pub mod Counts
mod Tests
use part.Common.{
  ==_iff, ==_refl, Bool, Bool-cases, List, Option, [], ap, append-nil, append_assoc, ap₂, arith,
  drop, drop-append_exact, drop-append_sum, drop-drop, drop-min, drop-take, drop_all, false,
  get_elem?, if◌then◌else◌, inl, inr, leb, leb→le, length, length-append, length-drop,
  length-replicate, length-set, length-take, le→leb, ltb, ltb→lt, lt→ltb, max, min, negsuc, none,
  not, pos, refl, replicate, require, set, some, suc, sym, take, take-append, take-append-drop,
  take-append_exact, take-append_sum, take-min, take-take, take_all, true, zero, ℕ, ℤ, ◌%◌, ◌&&◌,
  ◌*◌, ◌++◌, ◌+◌, ◌-◌, ◌/◌, ◌<◌, ◌==◌, ◌>>=◌, ◌>>◌, ◌^◌, ◌||◌, ◌↔◌, ◌∙◌, ◌∷◌, ◌≡◌, ◌≢◌, ◌≤◌, ◌⊎◌,
}
use part.Common.Keys.{Eq, nat_eq, lookup, insert}

-- The functions a client may give. What Pool returns is dropped. InUse looks at an item, which may
-- change at any time: its answers during a call are an argument of that call.
pub record PoolFunc : Type 0 where
  pub has_new : Bool
  pub has_in_use : Bool
  pub reuse : Option (ℕ → ℕ)

pub record Items : Type 0 where
  pub maxsize : ℤ
  pub allocs : ℕ
  pub pf : PoolFunc
  pub mbuf : List (ℕ × Bool)

pub record State : Type 0 where
  pub pooled : ℕ
  pub nopooled : ℕ
  pub inuse : ℕ
  pub nouse : ℕ
  pub sum : ℕ
  pub allos : ℕ

pub new : PoolFunc → ℤ → Items
new pf maxsize = record { maxsize = maxsize; allocs = 0; pf = pf; mbuf = [] }

abbrev pub used : PoolFunc → (ℕ → Bool) → ℕ → Bool → Bool
used pf in_use k v = if pf.has_in_use then in_use k else not v

-- One round of the loop that counts.
pub count_entry : PoolFunc → (ℕ → Bool) → ℕ → Bool → State → State
count_entry pf in_use k v s =
    let here : State =
      if v then record s { pooled = s.pooled + 1 } else record s { nopooled = s.nopooled + 1 } in
    if used pf in_use k v
    then record here { inuse = s.inuse + 1 }
    else record here { nouse = s.nouse + 1 }

pub count_entries : PoolFunc → (ℕ → Bool) → List (ℕ × Bool) → State → State
unfolding count_entry
count_entries pf in_use [] s = s
count_entries pf in_use ((k, v) ∷ m) s = count_entries pf in_use m (count_entry pf in_use k v s)

pub state : Items → (ℕ → Bool) → State
unfolding count_entries
state t in_use = count_entries t.pf in_use t.mbuf (record {
  pooled = 0;
  nopooled = 0;
  inuse = 0;
  nouse = 0;
  sum = length t.mbuf;
  allos = t.allocs;
})

abbrev pub is_free : PoolFunc → (ℕ → Bool) → ℕ → Bool
is_free pf in_use k = if pf.has_in_use then not (in_use k) else true

-- The first of these keys that is pooled and not in use.
pub find_free : PoolFunc → (ℕ → Bool) → List (ℕ × Bool) → List ℕ → Option ℕ
find_free pf in_use m [] = none
find_free pf in_use m (k ∷ ks) =
    let rest = find_free pf in_use m ks in
    elim (lookup nat_eq k m) [
      | none ↦ rest
      | some v ↦ if v && is_free pf in_use k then some k else rest
    ]

abbrev pub reused : PoolFunc → ℕ → ℕ
reused pf k = elim (pf.reuse) [ none ↦ k | some f ↦ f k ]

-- `order` are the keys in the order of the range, and `p` is the pointer that New, or new(T), would
-- give.
pub get : Items → (ℕ → Bool) → List ℕ → ℕ → Items × ℕ
unfolding find_free
get t in_use order p = elim (find_free t.pf in_use t.mbuf order) [
  | some k ↦ (record t { mbuf = insert nat_eq k false t.mbuf }, reused t.pf k)
  | none ↦ if t.pf.has_new then (record t { allocs = t.allocs + 1 }, p) else (t, p)
]

abbrev pub below_max : ℤ → ℕ → Bool
below_max (pos n) l = ltb l n
below_max (negsuc zero) l = true
below_max (negsuc (suc n)) l = false

pub put_one : Items → ℕ → Items
put_one t k = elim (lookup nat_eq k t.mbuf) [
  | some v ↦ record t { mbuf = insert nat_eq k true t.mbuf }
  | none ↦
      if below_max t.maxsize (length t.mbuf)
      then record t { mbuf = insert nat_eq k true t.mbuf }
      else t
]

pub put : Items → List ℕ → Items
unfolding put_one
put t [] = t
put t (k ∷ ks) = put (put_one t k) ks
