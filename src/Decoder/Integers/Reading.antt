-- ===== src/Decoder/Integers/Reading.antt =====
-- What Btoi and its siblings (decoder/tool/B_I.go) read at any offset, also near the end.
use mathlib.Core.Path.{subst}
use native.Mathlib.Nat.{pow-succ'}
use part.Common.{
  Bool-cases, List, [], ap, append_assoc, arith, drop, drop_all, get_elem?, inl, inr, leb, leb→le,
  length, length-append, length-drop, length-replicate, length-take, le→leb, ltb, lt→ltb, min, refl,
  replicate, set, some, suc, sym, take, take-append-drop, true, zero, ℕ, ◌*◌, ◌++◌, ◌+◌, ◌-◌, ◌>>=◌,
  ◌^◌, ◌∙◌, ◌∷◌, ◌≡◌, ◌≤◌,
}
use part.Decoder.Integers.{
  copy_bytes, join, join_from, available, btoi, btoui32, btoi32, btoui16, btoi16, btoi64,
}

get_elem?-middle :
    (pre : List ℕ) (c : ℕ) (s : List ℕ) → get_elem? (pre ++ (c ∷ s)) (length pre) ≡ some c
get_elem?-middle [] c s = refl
get_elem?-middle (x ∷ pre) c s = get_elem?-middle pre c s

set-middle :
    (pre : List ℕ) (c d : ℕ) (s : List ℕ) → set (pre ++ (c ∷ s)) (length pre) d ≡ pre ++ (d ∷ s)
set-middle [] c d s = refl
set-middle (x ∷ pre) c d s = ap (λ l. x ∷ l) (set-middle pre c d s)

-- The bytes `w` take the place of as many in the target.
copy_bytes_lem :
    (w pre post head z tail : List ℕ) (i shift offset : ℕ)
    → length pre ≡ offset + i
    → length head ≡ i + shift
    → length z ≡ length w
    → copy_bytes (length w) i shift (pre ++ (w ++ post)) offset (head ++ (z ++ tail))
      ≡ some (head ++ (w ++ tail))
unfolding copy_bytes
copy_bytes_lem [] pre post head [] tail i shift offset p h l = refl
copy_bytes_lem [] pre post head (x ∷ z) tail i shift offset p h l = absurd (omega arith)
copy_bytes_lem (c ∷ w) pre post head [] tail i shift offset p h l = absurd (omega arith)
copy_bytes_lem (c ∷ w) pre post head (x ∷ z) tail i shift offset p h l =
    let lp = length-append pre (c ∷ []) in
    let lh = length-append head (c ∷ []) in
    let total = length-append head (x ∷ (z ++ tail)) in
    let found : get_elem? (pre ++ (c ∷ (w ++ post))) (offset + i) ≡ some c =
      ap (λ k. get_elem? (pre ++ (c ∷ (w ++ post))) k) (sym p)
      ∙ get_elem?-middle pre c (w ++ post) in
    let written : set (head ++ (x ∷ (z ++ tail))) (i + shift) c ≡ head ++ (c ∷ (z ++ tail)) =
      ap (λ k. set (head ++ (x ∷ (z ++ tail))) k c) (sym h) ∙ set-middle head x c (z ++ tail) in
    let inside : ltb (i + shift) (length (head ++ (x ∷ (z ++ tail)))) ≡ true =
      lt→ltb _ _ (omega arith) in
    rw (found, inside, written)
      (rw
          (
            sym (append_assoc pre (c ∷ []) (w ++ post)),
            sym (append_assoc head (c ∷ []) (z ++ tail)),
          )
          (copy_bytes_lem w (pre ++ (c ∷ [])) post (head ++ (c ∷ [])) z tail (i + 1) shift offset
            (omega arith) (omega arith) (omega arith))
        ∙ ap some (append_assoc head (c ∷ []) (w ++ tail)))

join_from-append : (n : ℕ) (xs ys : List ℕ) → join_from n (xs ++ ys) ≡ join_from (join_from n xs) ys
join_from-append n [] ys = refl
join_from-append n (x ∷ xs) ys = join_from-append (n * 256 + x) xs ys

join_from-zeros : (n k : ℕ) → join_from n (replicate k 0) ≡ n * 256 ^ k
join_from-zeros n zero = grind arith
join_from-zeros n (suc k) =
    let power : 256 ^ suc k ≡ 256 * 256 ^ k = pow-succ' 256 k in
    let ih = join_from-zeros (n * 256 + 0) k in
    let product : (n * 256 + 0) * 256 ^ k ≡ n * (256 * 256 ^ k) = grind arith in
    ih ∙ product ∙ ap (λ m. n * m) (sym power)

abbrev zeros : ℕ → List ℕ
zeros n = replicate n 0

replicate-append : (h m : ℕ) → zeros (h + m) ≡ zeros h ++ zeros m
replicate-append zero m = let e : 0 + m ≡ m = omega arith in ap (λ k. zeros k) e
replicate-append (suc h) m =
    let e : suc h + m ≡ suc (h + m) = omega arith in
    ap (λ k. zeros k) e ∙ ap (λ l. 0 ∷ l) (replicate-append h m)

abbrev pub window : List ℕ → ℕ → ℕ → List ℕ
window b offset size = take size (drop offset b)

available-window :
    (b : List ℕ) (offset size : ℕ) → available b offset size ≡ length (window b offset size)
available-window b offset size =
    sym (length-take size (drop offset b) ∙ ap (λ l. min size l) (length-drop offset b))

-- The window of `b` is copied behind `h` zeros and in front of `m`.
copied :
    (b : List ℕ) (offset size h m : ℕ)
    → let w = window b offset size in
      copy_bytes (available b offset size) 0 h b offset (zeros (h + (length w + m)))
      ≡ some (zeros h ++ (w ++ zeros m))
unfolding copy_bytes
copied b offset size h m =
    let w = window b offset size in
    let split : zeros (h + (length w + m)) ≡ zeros h ++ (zeros (length w) ++ zeros m) =
      replicate-append h (length w + m) ∙ ap (λ l. zeros h ++ l) (replicate-append (length w) m) in
    rw (available-window b offset size, split)
      (elim (Bool-cases (leb offset (length b))) [
        | inl inside ↦
            let rest = drop size (drop offset b) in
            let whole : take offset b ++ (w ++ rest) ≡ b =
              ap (λ l. take offset b ++ l) (take-append-drop size (drop offset b))
              ∙ take-append-drop offset b in
            let le = leb→le offset (length b) inside in
            let len = length-take offset b in
            let zs : length (zeros h) ≡ h = length-replicate h 0 in
            let zw : length (zeros (length w)) ≡ length w = length-replicate (length w) 0 in
            subst
              (λ l.
                copy_bytes (length w) 0 h l offset (zeros h ++ (zeros (length w) ++ zeros m))
                ≡ some (zeros h ++ (w ++ zeros m)))
              whole
              (copy_bytes_lem w (take offset b) rest (zeros h) (zeros (length w)) (zeros m) 0 h
                offset (omega arith) (omega arith) zw)
        | inr past ↦
            let none_left : w ≡ [] =
              ap (λ l. take size l) (drop_all offset b (ground arith)) ∙ take_nothing size in
            nothing w none_left
      ])
  where
    take_nothing : (k : ℕ) → take k [] ≡ zeros 0
    take_nothing zero = refl
    take_nothing (suc k) = refl

    nothing :
        (w : List ℕ)
        → w ≡ []
        → copy_bytes (length w) 0 h b offset (zeros h ++ (zeros (length w) ++ zeros m))
          ≡ some (zeros h ++ (w ++ zeros m))
    nothing [] e = refl
    nothing (c ∷ w) e = absurd (cc)

join-padded : (h m : ℕ) (w : List ℕ) → join (zeros h ++ (w ++ zeros m)) ≡ join w * 256 ^ m
join-padded h m w =
    join_from-append 0 (zeros h) (w ++ zeros m)
    ∙ ap (λ n. join_from n (w ++ zeros m)) (join_from-zeros 0 h ∙ omega arith)
    ∙ join_from-append 0 w (zeros m)
    ∙ join_from-zeros (join w) m

-- Btoi of at most 8 bytes does not panic: bytes that are missing at the end of the slice count as
-- zeros behind those that are there.
pub btoi_lem :
    (b : List ℕ) (offset size : ℕ)
    → size ≤ 8
    → let w = window b offset size in btoi b offset size ≡ some (join w * 256 ^ (size - length w))
unfolding btoi
btoi_lem b offset size h =
    let w = window b offset size in
    let len = length-take size (drop offset b) in
    let eight : 8 ≡ (8 - size) + (length w + (size - length w)) = omega arith in
    let read =
      ap (λ n. copy_bytes (available b offset size) 0 (8 - size) b offset (zeros n)) eight
      ∙ copied b offset size (8 - size) (size - length w) in
    rw (le→leb size 8 h, read) (ap some (join-padded (8 - size) (size - length w) w))

copied-last :
    (b : List ℕ) (offset size : ℕ)
    → let l = available b offset size in
      copy_bytes l 0 (size - l) b offset (zeros size) >>= (λ bu. some (join bu))
      ≡ some (join (window b offset size))
copied-last b offset size =
    let w = window b offset size in
    let len = length-take size (drop offset b) in
    let l : available b offset size ≡ length w = available-window b offset size in
    let room : size ≡ (size - length w) + (length w + 0) = omega arith in
    let read : copy_bytes (available b offset size) 0 (size - available b offset size) b offset
          (zeros size)
        ≡ some (zeros (size - length w) ++ (w ++ zeros 0)) =
      ap (λ n. copy_bytes (available b offset size) 0 (size - n) b offset (zeros size)) l
      ∙ ap (λ n. copy_bytes (available b offset size) 0 (size - length w) b offset (zeros n)) room
      ∙ copied b offset size (size - length w) 0 in
    ap (λ o. o >>= (λ bu. some (join bu))) read
    ∙ ap some (join-padded (size - length w) 0 w ∙ omega arith)

-- The others do not panic: where bytes are missing at the end of the slice, they give the number
-- that those there spell.
pub btoui_lem :
    (b : List ℕ) (offset : ℕ)
    → (btoui32 b offset ≡ some (join (window b offset 4)))
      × (btoi32 b offset ≡ some (join (window b offset 4)))
      × (btoui16 b offset ≡ some (join (window b offset 2)))
      × (btoi16 b offset ≡ some (join (window b offset 2)))
      × (btoi64 b offset ≡ some (join (window b offset 8)))
unfolding btoui32 btoi32 btoui16 btoi16 btoi64
btoui_lem b offset = (
  copied-last b offset 4,
  copied-last b offset 4,
  copied-last b offset 2,
  copied-last b offset 2,
  copied-last b offset 8,
)
