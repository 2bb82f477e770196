-- ===== src/Slice/Ops/Ends.antt =====
-- Adding and deleting at the ends of a slice, slice/common.go: DelFront, AddFront, LoopAddBack,
-- LoopAddFront.
use part.Common.{
  List, [], ap, arith, drop, drop-min, false, length, length-append, length-drop, length-take,
  le→leb, ltb, min, none, set, some, suc, sym, take, take-append_exact, take-take, true, ℕ, ◌++◌,
  ◌+◌, ◌-◌, ◌<◌, ◌∙◌, ◌∷◌, ◌≡◌, ◌≤◌,
}
use part.Slice.GoSlice.{GoSlice, cap, elems, copy, append}
use part.Slice.GoSlice.Laws.{
  len-append, le-cap-append, take-append_mem, copy_count, take-copy, cap-copy,
}
use part.Slice.Ops.{del_front, del_back, add_back, add_front, loop_add_back, loop_add_front}

-- The length lies within the array.
abbrev pub IsSound {ℓ} : {A : Type ℓ} → GoSlice A → Type 0
IsSound s = s.len ≤ cap s

module _ {ℓ} {A : Type ℓ} where
  length-elems : (s : GoSlice A) → IsSound s → length (elems s) ≡ s.len
  length-elems s v = omega (arith, length-take s.len s.mem)

  -- DelFront drops the first elements, all of them if there are fewer.
  pub del_front_lem :
      (s : GoSlice A) (n : ℕ)
      → IsSound s
      → (s' : GoSlice A) × (del_front s n ≡ some s')
        × (elems s' ≡ drop n (elems s))
        × (s'.len ≡ s.len - n)
        × IsSound s'
  unfolding del_front
  del_front_lem s n v =
      let k = min s.len n in
      let rest = drop k (elems s) in
      let size : length rest ≡ s.len - n =
        omega (arith, length-drop k (elems s), length-elems s v) in
      let moved = copy s rest in
      let count : moved.0 ≡ length rest = copy_count s rest (omega arith) in
      let room : moved.0 ≤ cap moved.1 = omega (arith, cap-copy s rest v) in
      (
        record (moved.1) { len = moved.0 },
        rw (le→leb _ _ room),
        take-copy s rest moved.0 (omega arith) count ∙ dropped,
        count ∙ size,
        room,
      )
    where
      dropped : drop (min s.len n) (elems s) ≡ drop n (elems s)
      dropped =
          let e : min s.len n ≡ min n (length (elems s)) = omega (arith, length-elems s v) in
          ap (λ j. drop j (elems s)) e ∙ drop-min n (elems s)

module _ {ℓ} {A : Type ℓ} (zero_value : A) (slack : ℕ → ℕ → ℕ) where
  add_back_lem :
      (s : GoSlice A) (t : A)
      → IsSound s
      → (elems (add_back zero_value slack s t) ≡ elems s ++ t ∷ [])
        × ((add_back zero_value slack s t).len ≡ s.len + 1)
        × IsSound (add_back zero_value slack s t)
  unfolding add_back
  add_back_lem s t v = (
    take-append_mem zero_value slack s (t ∷ []) _ v (len-append zero_value slack s (t ∷ [])),
    omega (arith, len-append zero_value slack s (t ∷ [])),
    omega
        (arith, len-append zero_value slack s (t ∷ []), le-cap-append zero_value slack s (t ∷ [])),
  )

  -- LoopAddBack on a slice that is not empty drops the first element and adds one at the back: the
  -- length stays.
  pub loop_add_back_lem :
      (s : GoSlice A) (t : A)
      → IsSound s
      → 0 < s.len
      → (s' : GoSlice A) × (loop_add_back zero_value slack s t ≡ some s')
        × (elems s' ≡ drop 1 (elems s) ++ t ∷ [])
        × (s'.len ≡ s.len)
  unfolding loop_add_back
  loop_add_back_lem s t v some_left =
      let (s1, ran, items, size, v1) = del_front_lem s 1 v in
      let (items2, size2, _) = add_back_lem s1 t v1 in
      (add_back zero_value slack s1 t, rw ran, items2 ∙ ap (λ l. l ++ t ∷ []) items, omega arith)

  write_front :
      (old new : List A) (t : A) (k : ℕ)
      → 0 < length old
      → take (1 + k) (set (take 1 old ++ new) 0 t) ≡ t ∷ take k new
  write_front [] new t k h = absurd (omega arith)
  write_front (x ∷ old) new t k h = let e : 1 + k ≡ suc k = omega arith in rw e

  -- AddFront puts one element in front of the others.
  pub add_front_lem :
      (s : GoSlice A) (t : A)
      → IsSound s
      → (s' : GoSlice A) × (add_front zero_value slack s t ≡ some s')
        × (elems s' ≡ t ∷ elems s)
        × (s'.len ≡ s.len + 1)
  unfolding add_front
  add_front_lem s t v =
      let longer = append zero_value slack s (zero_value ∷ []) in
      let len1 : longer.len ≡ s.len + 1 =
        omega (arith, len-append zero_value slack s (zero_value ∷ [])) in
      let room : s.len + 1 ≤ cap longer =
        omega (arith, le-cap-append zero_value slack s (zero_value ∷ []) v) in
      let tail : GoSlice A = record {
        mem = drop 1 longer.mem;
        len = longer.len - 1;
        is_nil = false;
      } in
      let moved = copy tail (elems longer) in
      let size : length (elems longer) ≡ s.len + 1 =
        omega (arith, length-take longer.len longer.mem) in
      let count : moved.0 ≡ s.len = omega arith in
      let all : elems longer ≡ elems s ++ zero_value ∷ [] =
        take-append_mem zero_value slack s (zero_value ∷ []) longer.len v
          (len-append zero_value slack s (zero_value ∷ [])) in
      let whole : cap moved.1 ≡ cap tail = omega (
        arith,
        length-append (take moved.0 (elems longer)) (drop moved.0 tail.mem),
        length-take moved.0 (elems longer),
        length-drop moved.0 tail.mem,
        length-drop 1 longer.mem,
      ) in
      let fits : 1 + moved.0 ≤ length (take 1 longer.mem ++ moved.1.mem) = omega (
        arith,
        length-append (take 1 longer.mem) moved.1.mem,
        length-take 1 longer.mem,
        length-drop 1 longer.mem,
      ) in
      (
        record longer { mem = set (take 1 longer.mem ++ moved.1.mem) 0 t; len = 1 + moved.0 },
        rw (le→leb _ _ fits),
        write_front longer.mem moved.1.mem t moved.0 (omega arith)
            ∙ ap (λ l. t ∷ l)
                (take-append_exact moved.0 (take moved.0 (elems longer)) _
                    (omega (arith, length-take moved.0 (elems longer)))
                  ∙ ap (λ l. take moved.0 l) all
                  ∙ take-append_exact moved.0 (elems s) (zero_value ∷ [])
                      (omega (arith, length-elems s v))),
        omega arith,
      )

  -- LoopAddFront on a slice that is not empty drops the last element and puts one in front; on an
  -- empty slice it panics.
  pub loop_add_front_lem :
      (s : GoSlice A) (t : A)
      → IsSound s
      → (s.len ≡ 0 → loop_add_front zero_value slack s t ≡ none)
        × (0 < s.len
            → (s' : GoSlice A) × (loop_add_front zero_value slack s t ≡ some s')
              × (elems s' ≡ t ∷ take (s.len - 1) (elems s))
              × (s'.len ≡ s.len))
  unfolding loop_add_front del_back
  loop_add_front_lem s t v = (
    (λ e. let none_left : ltb 0 s.len ≡ false = ground arith in rw none_left),
    (λ h.
        let left : ltb 0 s.len ≡ true = ground arith in
        let shorter : GoSlice A = record s { len = s.len - 1 } in
        let fits : s.len - 1 ≤ cap s = omega arith in
        let (s', ran, items, size) = add_front_lem shorter t fits in
        (
          s',
          rw (left, le→leb _ _ fits) ran,
          items ∙ ap (λ l. t ∷ l) (sym (take-take (s.len - 1) s.len s.mem (omega arith))),
          omega arith,
        )),
  )
