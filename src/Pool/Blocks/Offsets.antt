-- ===== src/Pool/Blocks/Offsets.antt =====
-- Offsets of blocks (pool/Blocks.go): how often one occurs, the elements that its block covers, and
-- the queue of a new pool.
use part.Common.{
  ==_refl, Bool-cases, List, Option, [], ap, append-nil, append_assoc, arith, false, if◌then◌else◌,
  inl, inr, leb, length, length-append, ltb, lt→ltb, none, refl, some, suc, sym, zero, ℕ, ◌&&◌, ◌*◌,
  ◌++◌, ◌+◌, ◌<◌, ◌==◌, ◌∙◌, ◌∷◌, ◌≡◌, ◌≤◌, ◌⊎◌,
}
use part.Pool.Blocks.{Chan, Lent, send, send_range}

abbrev pub count : ℕ → List ℕ → ℕ
count i [] = 0
count i (x ∷ xs) = (if i == x then 1 else 0) + count i xs

pub count-append : (i : ℕ) (xs ys : List ℕ) → count i (xs ++ ys) ≡ count i xs + count i ys
count-append i [] ys = omega arith
count-append i (x ∷ xs) ys = let ih = count-append i xs ys in omega arith

pub mul-le : (a b s : ℕ) → a ≤ b → a * s ≤ s * b
mul-le a b s h = grind arith

-- The blocks that callers hold, and the calls: Get, and putBack of the k-th held block.
pub data Call : Type 0 where
  get_call : Call
  put_call : ℕ → Call

abbrev pub nth_rest : List Lent → ℕ → Option (Lent × List Lent)
nth_rest [] k = none
nth_rest (b ∷ bs) zero = some (b, bs)
nth_rest (b ∷ bs) (suc k) = elim (nth_rest bs k) [ none ↦ none | some (c, cs) ↦ some (c, b ∷ cs) ]

abbrev pub offsets : List Lent → List ℕ
offsets [] = []
offsets (b ∷ bs) = b.offset ∷ offsets bs

pub send-room :
    (c : Chan) (x : ℕ)
    → length c.queue < c.capacity
    → send c x ≡ some (record c { queue = c.queue ++ (x ∷ []) })
unfolding send
send-room c x h = rw (lt→ltb _ _ h) refl

abbrev pub OwnRange : ℕ → List Lent → Type 0
OwnRange size [] = Unit
OwnRange size (b ∷ bs) =
    ((b.first ≡ b.offset * size) × (b.last ≡ (b.offset + 1) * size)) × OwnRange size bs

abbrev pub Picked : List Lent → Lent → List Lent → Type 0
Picked held b rest =
    ((i : ℕ) → count i (offsets held) ≡ (if i == b.offset then 1 else 0) + count i (offsets rest))
    × (length held ≡ suc (length rest))
    × ((size : ℕ) → OwnRange size held → OwnRange size rest)

pub nth_rest-cases :
    (held : List Lent) (k : ℕ)
    → (nth_rest held k ≡ none)
      ⊎ ((b : Lent) × (rest : List Lent) × (nth_rest held k ≡ some (b, rest)) × Picked held b rest)
nth_rest-cases [] k = inl refl
nth_rest-cases (b ∷ bs) zero = inr (b, bs, refl, ((λ i. refl), refl, λ size own. own.1))
nth_rest-cases (c ∷ cs) (suc k) = elim (nth_rest-cases cs k) [
  | inl e ↦ inl (rw e refl)
  | inr (b, rest, e, (cnt, len, own)) ↦ inr (
    b,
    c ∷ rest,
    rw e refl,
    ((λ i. let ih = cnt i in omega arith), omega arith, λ size o. (o.0, own size o.1)),
  )
]

-- No two blocks share an element.
abbrev pub Apart : Lent → List Lent → Type 0
Apart b [] = Unit
Apart b (c ∷ cs) = ((b.last ≤ c.first) ⊎ (c.last ≤ b.first)) × Apart b cs

abbrev pub AllApart : List Lent → Type 0
AllApart [] = Unit
AllApart (b ∷ bs) = Apart b bs × AllApart bs

pub own-Apart :
    (size : ℕ) (b : Lent) (cs : List Lent)
    → (b.first ≡ b.offset * size) × (b.last ≡ (b.offset + 1) * size)
    → OwnRange size cs
    → count b.offset (offsets cs) ≡ 0
    → Apart b cs
own-Apart size b [] own owns h = tt
own-Apart size b (c ∷ cs) own ((first, last), owns) h = elim (Bool-cases (b.offset == c.offset)) [
  | inl same ↦ let h' = rw same at h in absurd (omega arith)
  | inr other ↦ (ranges other, own-Apart size b cs own owns (let h' = rw other at h in omega arith))
]
  where
    ranges : (b.offset == c.offset) ≡ false → (b.last ≤ c.first) ⊎ (c.last ≤ b.first)
    ranges other =
        let sides : (b.offset < c.offset) ⊎ (c.offset < b.offset) = ground arith in
        elim sides [
          | inl lt ↦ inl (let m = mul-le (b.offset + 1) c.offset size (omega arith) in grind arith)
          | inr lt ↦ inr (let m = mul-le (c.offset + 1) b.offset size (omega arith) in grind arith)
        ]

pub own-AllApart :
    (size : ℕ) (bs : List Lent)
    → OwnRange size bs
    → ((i : ℕ) → count i (offsets bs) ≤ 1)
    → AllApart bs
own-AllApart size [] own h = tt
own-AllApart size (b ∷ bs) (own, owns) h =
    let one = h b.offset in
    let self = ==_refl b.offset in
    (
      own-Apart size b bs own owns (let one' = rw self at one in omega arith),
      own-AllApart size bs owns (λ i. let hi = h i in omega arith),
    )

pub upto : ℕ → ℕ → List ℕ
upto zero i = []
upto (suc k) i = i ∷ upto k (i + 1)

pub length-upto : (k i : ℕ) → length (upto k i) ≡ k
unfolding upto
length-upto zero i = refl
length-upto (suc k) i = ap suc (length-upto k (i + 1))

pub count-upto : (j k i : ℕ) → count j (upto k i) ≡ (if leb i j && ltb j (i + k) then 1 else 0)
unfolding upto
count-upto j zero i = ground arith
count-upto j (suc k) i = let ih = count-upto j k (i + 1) in ground arith

pub send_range-upto :
    (k i : ℕ) (c : Chan)
    → length c.queue + k ≤ c.capacity
    → send_range k i c ≡ some (record c { queue = c.queue ++ upto k i })
unfolding send_range upto
send_range-upto zero i c h = ap (λ q. some (record c { queue = q })) (sym (append-nil c.queue))
send_range-upto (suc k) i c h =
    let longer = length-append c.queue (i ∷ []) in
    rw (send-room c i (omega arith)) (
      send_range-upto k (i + 1) (record c { queue = c.queue ++ (i ∷ []) }) (omega arith)
      ∙ ap (λ q. some (record c { queue = q })) (append_assoc c.queue (i ∷ []) (upto k (i + 1))))
