-- ===== src/Slice/GoSlice/Laws.antt =====
-- What `append` on a Go slice guarantees, whatever the runtime's growth.
use part.Common.{
  ℕ, ◌+◌, ◌-◌, ◌≤◌, min, ◌≡◌, ◌∙◌, ap, ap₂, false, some, List, ◌++◌, append_assoc, append-nil,
  length, take, drop, replicate, arith, leb, if◌then◌else◌, le→leb, length-append, length-take,
  length-drop, length-replicate, take-append_exact, take_all, drop_all, Bool-cases, inl, inr,
}
use part.Slice.GoSlice.{GoSlice, cap, append, make, copy, part_of}

module _ {ℓ} {A : Type ℓ} (zero_value : A) (slack : ℕ → ℕ → ℕ) where
  pub len-append :
      (s : GoSlice A) (xs : List A) → (append zero_value slack s xs).len ≡ s.len + length xs
  unfolding append
  len-append s xs = ground arith

  pub le-cap-append :
      (s : GoSlice A) (xs : List A)
      → s.len ≤ cap s
      → s.len + length xs ≤ cap (append zero_value slack s xs)
  unfolding append
  le-cap-append s xs h =
      let n = s.len + length xs in
      ground (
        arith,
        length-append (take s.len s.mem) (xs ++ drop n s.mem),
        length-append (take s.len s.mem) (xs ++ replicate (slack (cap s) n) zero_value),
        length-append xs (drop n s.mem),
        length-append xs (replicate (slack (cap s) n) zero_value),
        length-take s.len s.mem,
      )

  pub cap-le-append :
      (s : GoSlice A) (xs : List A) → s.len ≤ cap s → cap s ≤ cap (append zero_value slack s xs)
  unfolding append
  cap-le-append s xs h =
      let n = s.len + length xs in
      ground (
        arith,
        length-append (take s.len s.mem) (xs ++ drop n s.mem),
        length-append (take s.len s.mem) (xs ++ replicate (slack (cap s) n) zero_value),
        length-append xs (drop n s.mem),
        length-append xs (replicate (slack (cap s) n) zero_value),
        length-take s.len s.mem,
        length-drop n s.mem,
      )

  -- The elements of the result are those of the slice, then the new ones.
  pub take-append_mem :
      (s : GoSlice A) (xs : List A) (n : ℕ)
      → s.len ≤ cap s
      → n ≡ s.len + length xs
      → take n (append zero_value slack s xs).mem ≡ take s.len s.mem ++ xs
  unfolding append
  take-append_mem s xs n h e = elim (Bool-cases (leb (s.len + length xs) (cap s))) [
    | inl fits ↦ rw (fits, ← append_assoc) (take-append_exact n _ _ count)
    | inr moved ↦ rw (moved, ← append_assoc) (take-append_exact n _ _ count)
  ]
    where
      count : n ≡ length (take s.len s.mem ++ xs)
      count = omega (arith, length-append (take s.len s.mem) xs, length-take s.len s.mem)

  -- In place, the array keeps its size.
  pub cap-append_fits :
      (s : GoSlice A) (xs : List A)
      → s.len + length xs ≤ cap s
      → cap (append zero_value slack s xs) ≡ cap s
  unfolding append
  cap-append_fits s xs h =
      let n = s.len + length xs in
      ground (
        arith,
        length-append (take s.len s.mem) (xs ++ drop n s.mem),
        length-append xs (drop n s.mem),
        length-take s.len s.mem,
        length-drop n s.mem,
      )

  pub is_nil-append_cons :
      (s : GoSlice A) (xs : List A)
      → s.is_nil ≡ false
      → (append zero_value slack s xs).is_nil ≡ false
  unfolding append
  is_nil-append_cons s xs h = ground arith

  -- Only an empty append leaves a nil slice nil.
  pub is_nil-append_lem :
      (s : GoSlice A) (xs : List A)
      → (append zero_value slack s xs).is_nil
        ≡ (if leb (s.len + length xs) (cap s) then s.is_nil else false)
  unfolding append
  is_nil-append_lem s xs = ground arith

module _ {ℓ} {A : Type ℓ} where
  pub part_of_front : (s : GoSlice A) (n : ℕ) → n ≤ cap s → part_of s 0 n ≡ some (take n s.mem)
  part_of_front s n h =
      let whole : n - 0 ≡ n = omega arith in
      rw (le→leb 0 n (omega arith), le→leb n (cap s) h) (ap (λ k. some (take k s.mem)) whole)

  pub part_of_lem :
      (s : GoSlice A) (m n : ℕ)
      → m ≤ n
      → n ≤ cap s
      → part_of s m n ≡ some (take (n - m) (drop m s.mem))
  part_of_lem s m n h k = rw (le→leb m n h, le→leb n (cap s) k)

  -- Copying a whole list over the front of an array, and over a new array of its length.
  pub copy_count : (s : GoSlice A) (xs : List A) → length xs ≤ s.len → (copy s xs).0 ≡ length xs
  copy_count s xs h = omega arith

  pub take-copy :
      (s : GoSlice A) (xs : List A) (k : ℕ)
      → length xs ≤ s.len
      → k ≡ length xs
      → take k (copy s xs).1.mem ≡ xs
  take-copy s xs k h e =
      take-append_exact k (take (min s.len (length xs)) xs) _
        (omega (arith, length-take (min s.len (length xs)) xs))
      ∙ take_all (min s.len (length xs)) xs (omega arith)

  pub cap-copy : (s : GoSlice A) (xs : List A) → s.len ≤ cap s → cap (copy s xs).1 ≡ cap s
  cap-copy s xs h =
      let k = min s.len (length xs) in
      omega (arith, length-append (take k xs) (drop k s.mem), length-take k xs, length-drop k s.mem)

  pub copy_to_new :
      (zero_value : A) (xs : List A) (n : ℕ)
      → n ≡ length xs
      → (copy (make zero_value n) xs).1.mem ≡ xs
  copy_to_new zero_value xs n e =
      let k = min n (length xs) in
      ap₂ ◌++◌ (take_all k xs (omega arith))
        (drop_all k (replicate n zero_value) (omega (arith, length-replicate n zero_value)))
      ∙ append-nil xs
