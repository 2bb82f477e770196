-- ===== src/Slice/Index/Reading.antt =====
-- Append and Read of slice/SliceIndex.go against the items that the index holds.
use part.Common.{
  Bool, Bool-cases, List, Option, [], ap, append-nil, append_assoc, ap₂, arith, drop,
  drop-append_sum, drop-drop, drop-take, drop_all, inl, inr, length, length-append, length-drop,
  length-take, le→leb, ltb, min, none, refl, some, suc, sym, take, take-append, take-append-drop,
  take-append_sum, take-min, take-take, true, zero, ℕ, ◌++◌, ◌+◌, ◌-◌, ◌<◌, ◌==◌, ◌↔◌, ◌∙◌, ◌∷◌,
  ◌≡◌, ◌≤◌,
}
use part.Slice.Index.{
  Index, touch, last_of, append_parts, grow_last, append_part, parts_items, items, read_loop, read,
  parts_size, size,
}

-- Every part lies in the source, begins before its end, and the bounds come in pairs.
abbrev pub PartsIn : ℕ → List ℕ → Type 0
PartsIn n [] = Unit
PartsIn n (a ∷ []) = ⊥
PartsIn n (a ∷ b ∷ rest) = (a ≤ b) × (b ≤ n) × PartsIn n rest

abbrev pub IsValid {ℓ} : {A : Type ℓ} → Index A → Type 0
IsValid x = PartsIn (length x.source) x.buf

grow_last-cons :
    (o : Option ℕ) (a b c : ℕ) (rest : List ℕ) (s e : ℕ)
    → grow_last o (a ∷ b ∷ c ∷ rest) s e ≡ a ∷ b ∷ grow_last o (c ∷ rest) s e
grow_last-cons none a b c rest s e = refl
grow_last-cons (some l) a b c rest s e = elim (Bool-cases (s == l)) [
  | inl meets ↦ elim (Bool-cases (ltb l e)) [
    | inl longer ↦ rw (meets, longer)
    | inr shorter ↦ rw (meets, shorter)
  ]
  | inr apart ↦ rw apart
]

module _ {ℓ} {A : Type ℓ} (src : List A) where
  -- Read's loop gives the first items, leaves the others, and panics on no valid index.
  read_loop_lem :
      (buf : List ℕ) (room : ℕ)
      → PartsIn (length src) buf
      → (rest : List ℕ) × (read_loop src buf room ≡ some (rest, take room (parts_items src buf)))
        × (parts_items src rest ≡ drop room (parts_items src buf))
        × PartsIn (length src) rest
  unfolding read_loop parts_items
  read_loop_lem [] zero v = ([], refl, refl, tt)
  read_loop_lem [] (suc room) v = ([], refl, refl, tt)
  read_loop_lem (a ∷ []) room v = absurd v
  read_loop_lem (a ∷ b ∷ buf) room (ab, bn, v) =
      let (rest, ran, left, v') = read_loop_lem buf (room - (b - a)) v in
      let part = take (b - a) (drop a src) in
      let later = parts_items src buf in
      let size : length part ≡ b - a =
        omega (arith, length-take (b - a) (drop a src), length-drop a src) in
      elim (Bool-cases (ltb 0 room)) [
        | inr full ↦
            let e : room ≡ 0 = ground arith in
            (
              a ∷ b ∷ buf,
              rw full (ap (λ r. some (a ∷ b ∷ buf, take r (part ++ later))) (sym e)),
              ap (λ r. drop r (part ++ later)) (sym e),
              (ab, bn, v),
            )
        | inl more ↦ elim (Bool-cases (b - a == min room (length part))) [
          | inl whole ↦
              let fit : b - a ≤ room = ground arith in
              (
                rest,
                rw (more, le→leb a b ab, le→leb b (length src) bn, whole, ran)
                    (ap (λ l. some (rest, l))
                      (ap₂ ◌++◌ (take-min room part) (ap (λ k. take (room - k) later) (sym size))
                        ∙ sym (take-append_sum room part later))),
                left
                    ∙ ap (λ k. drop (room - k) later) (sym size)
                    ∙ ap (λ l. l ++ drop (room - length part) later)
                        (sym (drop_all room part (omega arith)))
                    ∙ sym (drop-append_sum room part later),
                v',
              )
          | inr short ↦
              let small : room < b - a = ground arith in
              let n : min room (length part) ≡ room = omega arith in
              (
                (a + min room (length part)) ∷ b ∷ buf,
                rw (more, le→leb a b ab, le→leb b (length src) bn, short)
                    (ap (λ l. some ((a + min room (length part)) ∷ b ∷ buf, l))
                      (take-min room part ∙ sym (take-append room part later (omega arith)))),
                rest_items room small n,
                (omega arith, bn, v),
              )
        ]
      ]
    where
      part' : List A
      part' = take (b - a) (drop a src)

      rest_items :
          (r : ℕ)
          → r < b - a
          → min r (length part') ≡ r
          → parts_items src ((a + min r (length part')) ∷ b ∷ buf)
            ≡ drop r (part' ++ parts_items src buf)
      rest_items r small n =
          let size : length part' ≡ b - a =
            omega (arith, length-take (b - a) (drop a src), length-drop a src) in
          let head : take (b - (a + min r (length part'))) (drop (a + min r (length part')) src)
              ≡ drop r part' =
            ap₂ (λ k j. take k (drop j src)) (omega arith) (omega arith)
            ∙ sym (drop-take r (b - a) (drop a src) ∙ ap (take (b - a - r)) (drop-drop r a src)) in
          let none_left : 0 ≡ r - length part' = omega arith in
          ap₂ ◌++◌ head (ap (λ k. drop k (parts_items src buf)) none_left)
          ∙ sym (drop-append_sum r part' (parts_items src buf))

  -- Extending a part by one that starts at its end.
  join_parts :
      (a b e : ℕ)
      → a ≤ b
      → b ≤ e
      → take (e - a) (drop a src) ≡ take (b - a) (drop a src) ++ take (e - b) (drop b src)
  join_parts a b e ab be =
      let from = drop a src in
      sym (take-append-drop (b - a) (take (e - a) from))
      ∙ ap₂ ◌++◌ (take-take (b - a) (e - a) from (omega arith)) (
          drop-take (b - a) (e - a) from
          ∙ ap₂ take (omega arith) (drop-drop (b - a) a src ∙ ap (λ k. drop k src) (omega arith)))

  append_parts_lem :
      (buf : List ℕ) (s e : ℕ)
      → PartsIn (length src) buf
      → s ≤ e
      → e ≤ length src
      → (parts_items src (append_parts buf s e) ≡ parts_items src buf ++ take (e - s) (drop s src))
        × PartsIn (length src) (append_parts buf s e)
  unfolding append_parts parts_items
  append_parts_lem [] s e v se en = (append-nil _, (se, en, tt))
  append_parts_lem (a ∷ []) s e v se en = absurd v
  append_parts_lem (a ∷ b ∷ []) s e (ab, bn, v) se en =
      let part = take (b - a) (drop a src) in
      let new = take (e - s) (drop s src) in
      elim (Bool-cases (s == b)) [
        | inl meets ↦
            let at_b : b ≡ s = ground arith in
            elim (Bool-cases (ltb b e)) [
              | inl longer ↦
                  rw (meets, longer)
                    (
                      append-nil _
                          ∙ join_parts a b e ab (omega arith)
                          ∙ ap₂ ◌++◌ (sym (append-nil part))
                              (ap (λ k. take (e - k) (drop k src)) at_b),
                      (omega arith, en, tt),
                    )
              | inr shorter ↦
                  let nothing : 0 ≡ e - s = ground arith in
                  rw (meets, shorter)
                    (
                      sym (append-nil (part ++ []))
                          ∙ ap (λ k. (part ++ []) ++ take k (drop s src)) nothing,
                      (ab, bn, tt),
                    )
            ]
        | inr apart ↦ rw apart (
          ap (λ l. part ++ l) (append-nil new) ∙ ap (λ l. l ++ new) (sym (append-nil part)),
          (ab, bn, (se, en, tt)),
        )
      ]
  append_parts_lem (a ∷ b ∷ c ∷ rest) s e (ab, bn, v) se en =
      let (more, v') = append_parts_lem (c ∷ rest) s e v se en in
      rw (grow_last-cons (last_of (c ∷ rest)) a b c rest s e) (
        ap (λ l. take (b - a) (drop a src) ++ l) more
            ∙ sym (append_assoc (take (b - a) (drop a src)) _ _),
        (ab, bn, v'),
      )

module _ {ℓ} {A : Type ℓ} where
  -- Append of a part of the source makes its elements readable after those that were, and keeps the
  -- index valid.
  pub append_part_lem :
      (x : Index A) (s e : ℕ)
      → IsValid x
      → s ≤ e
      → e ≤ length x.source
      → (items (append_part x s e) ≡ items x ++ take (e - s) (drop s x.source))
        × IsValid (append_part x s e)
  unfolding append_part items
  append_part_lem x s e v se en = append_parts_lem x.source x.buf s e v se en

  -- Read of `n` elements from a valid index does not panic, gives the first `n` readable elements, or
  -- all if there are fewer, leaves the others readable in a valid index, and reports io.EOF exactly
  -- where no part is left.
  pub read_lem :
      (x : Index A) (n : ℕ)
      → IsValid x
      → (x' : Index A) × (eof : Bool) × (read x n ≡ some (x', take n (items x), eof))
        × (items x' ≡ drop n (items x))
        × IsValid x'
        × ((eof ≡ true) ↔ (x'.buf ≡ []))
  unfolding read items
  read_lem x n v =
      let (rest, ran, left, v') = read_loop_lem x.source x.buf n v in
      (
        record x { buf = rest; modified = touch x.modified },
        length rest == 0,
        rw ran,
        left,
        v',
        empty rest,
      )
    where
      empty : (l : List ℕ) → ((length l == 0) ≡ true) ↔ (l ≡ [])
      empty [] = ((λ _. refl), (λ _. refl))
      empty (y ∷ l) = ((λ h. ground arith), (λ h. cc))

  size_parts :
      (src : List A) (buf : List ℕ)
      → PartsIn (length src) buf
      → parts_size buf ≡ length (parts_items src buf)
  unfolding parts_size parts_items
  size_parts src [] v = refl
  size_parts src (a ∷ []) v = absurd v
  size_parts src (a ∷ b ∷ rest) (ab, bn, v) = omega (
    arith,
    size_parts src rest v,
    length-append (take (b - a) (drop a src)) (parts_items src rest),
    length-take (b - a) (drop a src),
    length-drop a src,
  )

  -- Size is the number of readable elements.
  pub size-items : (x : Index A) → IsValid x → size x ≡ length (items x)
  unfolding size items
  size-items x v = size_parts x.source x.buf v
