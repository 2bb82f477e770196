-- ===== src/Slice/Ops.antt =====
-- The functions on plain slices of slice/common.go. A callback that may stop the loop is a function
-- on a state of its own, `C → List A → C × Bool`, whose `false` stops; `none` is a panic.
pub mod Pieces
pub mod Ends
mod Tests
use part.Common.{
  ==_iff, ==_refl, Bool, Bool-cases, List, Option, [], ap, append-nil, append_assoc, ap₂, arith,
  drop, drop-append_exact, drop-min, drop-take, drop_all, false, get_elem?, if◌then◌else◌, inl, inr,
  leb, leb→le, length, length-append, length-drop, length-replicate, length-set, length-take,
  le→leb, ltb, ltb→lt, lt→ltb, max, min, negsuc, none, not, pos, refl, replicate, require, set,
  some, suc, sym, take, take-append, take-append-drop, take-append_exact, take-min, take-take,
  take_all, true, zero, ℕ, ℤ, ◌%◌, ◌&&◌, ◌*◌, ◌++◌, ◌+◌, ◌-◌, ◌/◌, ◌<◌, ◌==◌, ◌>>=◌, ◌>>◌, ◌^◌,
  ◌||◌, ◌↔◌, ◌∙◌, ◌∷◌, ◌≡◌, ◌≢◌, ◌≤◌, ◌⊎◌,
}
use part.Slice.GoSlice.{GoSlice, cap, elems, reslice, copy, append}

-- The loop `for j` over the separators, with Go's `==` as a parameter.
module _ {ℓ} {A : Type ℓ} (eqb : A → A → Bool) where
  pub is_sep : List A → A → Bool
  is_sep [] x = false
  is_sep (y ∷ ys) x = eqb x y || is_sep ys x

  module _ {κ} {C : Type κ} (sep : List A) (callback : C → List A → C × Bool) where
    -- Split: `cur` is `s[p:i]` and the last argument is `s[i:]`.
    pub split_loop : C → List A → List A → C
    split_loop c cur [] = (callback c cur).0
    split_loop c cur (x ∷ rest) = elim (is_sep sep x) [
      | true ↦ elim (callback c cur).1 [
        | true ↦ split_loop (callback c cur).0 [] rest
        | false ↦ (callback c cur).0
      ]
      | false ↦ split_loop c (cur ++ x ∷ []) rest
    ]

    pub split : C → List A → C
    split c s = split_loop c [] s

    -- SplitAfter: the next piece starts at the separator, `p = i`.
    pub split_after_loop : C → List A → List A → C
    split_after_loop c cur [] = (callback c cur).0
    split_after_loop c cur (x ∷ rest) = elim (is_sep sep x) [
      | true ↦ elim (callback c cur).1 [
        | true ↦ split_after_loop (callback c cur).0 (x ∷ []) rest
        | false ↦ (callback c cur).0
      ]
      | false ↦ split_after_loop c (cur ++ x ∷ []) rest
    ]

    pub split_after : C → List A → C
    split_after c s = split_after_loop c [] s

module _ {ℓ} {A : Type ℓ} where
  -- `(*s)[:copy(*s, (*s)[min(len(*s), beforeIndex):])]`.
  pub del_front : GoSlice A → ℕ → Option (GoSlice A)
  del_front s before =
      let moved = copy s (drop (min s.len before) (elems s)) in reslice moved.1 moved.0

  pub del_back : GoSlice A → ℕ → Option (GoSlice A)
  del_back s from = reslice s from

  -- Del: `kept` is `(*s)[:i]` and the last argument `(*s)[i:]`; `f` may change the element that it
  -- is given a pointer to.
  pub del_loop : (A → A × Bool) → List A → List A → List A
  del_loop f kept [] = kept
  del_loop f kept (x ∷ rest) = del_loop f (if (f x).1 then kept else kept ++ (f x).0 ∷ []) rest

  pub del : (A → A × Bool) → List A → List A
  del f s = del_loop f [] s

  -- Range: the calls of `yield`, with the state of its caller.
  pub range_loop {κ} : {C : Type κ} → (C → ℕ → A → C × Bool) → C → ℕ → List A → C
  range_loop yield c i [] = c
  range_loop yield c i (x ∷ s) = elim (yield c i x).1 [
    | true ↦ range_loop yield (yield c i x).0 (i + 1) s
    | false ↦ (yield c i x).0
  ]

  -- Search: the index and the element, `none` for `-1, nil`.
  pub search_loop : (A → Bool) → ℕ → List A → Option (ℕ × A)
  search_loop okf i [] = none
  search_loop okf i (x ∷ s) = elim (okf x) [
    | true ↦ some (i, x)
    | false ↦ search_loop okf (i + 1) s
  ]

  pub search_first : (A → Bool) → List A → Option (ℕ × A)
  search_first okf s = search_loop okf 0 s

module _ {ℓ} {A : Type ℓ} (zero_value : A) (slack : ℕ → ℕ → ℕ) where
  pub add_back : GoSlice A → A → GoSlice A
  add_back s t = append zero_value slack s (t ∷ [])

  -- AddFront: make room at the end, move all by one, write the first element.
  pub add_front : GoSlice A → A → Option (GoSlice A)
  add_front s t = do
    let longer = append zero_value slack s (zero_value ∷ [])
    let moved =
        copy (record { mem = drop 1 longer.mem; len = longer.len - 1; is_nil = false })
          (elems longer)
    let shifted : GoSlice A = record longer { mem = take 1 longer.mem ++ moved.1.mem }
    s' ← reslice shifted (1 + moved.0)
    some (record s' { mem = set s'.mem 0 t })

  pub loop_add_back : GoSlice A → A → Option (GoSlice A)
  loop_add_back s t = do s' ← del_front s 1; some (add_back s' t)

  -- `len(*s)-1` is -1 on an empty slice, and slicing panics.
  pub loop_add_front : GoSlice A → A → Option (GoSlice A)
  loop_add_front s t = do require (ltb 0 s.len); s' ← del_back s (s.len - 1); add_front s' t

  pub resize : GoSlice A → ℕ → Option (GoSlice A)
  resize s size =
      if leb size s.len || leb size (cap s)
      then reslice s size
      else some
          (append zero_value slack (record s { len = cap s }) (replicate (size - cap s) zero_value))

  -- Append: the slice with one more element, and the index of that element.
  pub append_one : GoSlice A → GoSlice A × ℕ
  append_one s = (
    (if ltb s.len (cap s)
        then record s { len = s.len + 1 }
        else append zero_value slack s (zero_value ∷ [])),
    s.len,
  )
