-- ===== src/Slice/Buf/Valid.antt =====
-- The representation invariant of `Buf`, the view of its contents, and what the building blocks of
-- the methods do to both.
use part.Common.{
  ℕ, ◌+◌, ◌≤◌, ◌≡◌, refl, sym, ◌∙◌, ap, true, false, not, ◌&&◌, none, some, List, ◌++◌, length,
  take, replicate, arith, ltb, le→leb, length-take, length-replicate, take-append, take-take,
}
use part.Slice.GoSlice.{GoSlice, cap, append}
use part.Slice.GoSlice.Laws.{
  len-append, le-cap-append, take-append_mem, is_nil-append_lem, is_nil-append_cons,
  cap-append_fits,
}
use part.Slice.Buf.{Buf, bump, extend, append_tail}
use part.Slice.Buf.Spec.{State}

-- The readable part and the slice lie inside the array, and a nil slice has none.
pub record IsValid {ℓ} {A : Type ℓ} (b : Buf A) : Type 0 where
  pub size_in : b.bufsize ≤ cap b.buf
  pub len_in : b.buf.len ≤ cap b.buf
  pub nil_empty : b.buf.is_nil ≡ true → cap b.buf ≡ 0

abbrev pub contents {ℓ} : {A : Type ℓ} → Buf A → List A
contents b = take b.bufsize b.buf.mem

abbrev pub view {ℓ} : {A : Type ℓ} → Buf A → State A
view b = record { limit = b.maxsize; started = not b.buf.is_nil; items = contents b }

module _ {ℓ} {A : Type ℓ} where
  pub length-contents : (b : Buf A) → IsValid b → length (contents b) ≡ b.bufsize
  length-contents b v = omega (arith, length-take b.bufsize b.buf.mem)

module _ {ℓ} {A : Type ℓ} (zero_value : A) (slack : ℕ → ℕ → ℕ) where
  -- Appending from the readable part of an array `base` of a buffer.
  module _ (b : Buf A) (base : GoSlice A) (xs : List A) (fits : b.bufsize ≤ cap base) where
    abbrev pub appended : Buf A
    appended = record b {
      buf = append zero_value slack (record base { len = b.bufsize }) xs;
      bufsize = b.bufsize + length xs;
      modified = bump b.modified;
    }

    pub append_tail_lem : append_tail zero_value slack b base xs ≡ some (appended, none)
    append_tail_lem = rw (le→leb _ _ fits)

    pub appended-IsValid : base.is_nil ≡ false → IsValid appended
    appended-IsValid not_nil =
        let s : GoSlice A = record base { len = b.bufsize } in
        record {
          size_in = omega (arith, le-cap-append zero_value slack s xs);
          len_in =
              omega (arith, len-append zero_value slack s xs, le-cap-append zero_value slack s xs);
          nil_empty = λ e. ground (arith, is_nil-append_cons zero_value slack s xs);
        }

    pub contents-appended : contents appended ≡ take b.bufsize base.mem ++ xs
    contents-appended =
        take-append_mem zero_value slack (record base { len = b.bufsize }) xs _ fits refl

    pub started-appended :
        base.is_nil ≡ false
        → (append zero_value slack (record base { len = b.bufsize }) xs).is_nil ≡ false
    started-appended e = is_nil-append_cons zero_value slack (record base { len = b.bufsize }) xs e

  -- Growing the array by `n` elements at its end.
  module _ (s : GoSlice A) (n : ℕ) where
    pub cap-extend : cap s + n ≤ cap (extend zero_value slack s n)
    cap-extend = omega (
      arith,
      le-cap-append zero_value slack (record s { len = cap s }) (replicate n zero_value),
      length-replicate n zero_value,
    )

    pub len-extend : (extend zero_value slack s n).len ≡ cap s + n
    len-extend = omega (
      arith,
      len-append zero_value slack (record s { len = cap s }) (replicate n zero_value),
      length-replicate n zero_value,
    )

    -- The old elements stay.
    pub take-extend : (k : ℕ) → k ≤ cap s → take k (extend zero_value slack s n).mem ≡ take k s.mem
    take-extend k h =
        sym (take-take k whole _ (omega arith))
        ∙ ap (λ t. take k t) all
        ∙ take-append k (take (cap s) s.mem) (replicate n zero_value)
            (omega (arith, length-take (cap s) s.mem))
        ∙ take-take k (cap s) s.mem h
      where
        whole : ℕ
        whole = cap s + length (replicate n zero_value)

        all :
            take whole (extend zero_value slack s n).mem
            ≡ take (cap s) s.mem ++ replicate n zero_value
        all =
            take-append_mem zero_value slack (record s { len = cap s }) (replicate n zero_value)
              whole (omega arith) refl

    pub is_nil-extend : (extend zero_value slack s n).is_nil ≡ s.is_nil && not (ltb 0 n)
    is_nil-extend = ground (
      arith,
      is_nil-append_lem zero_value slack (record s { len = cap s }) (replicate n zero_value),
      length-replicate n zero_value,
    )

    pub nil_empty-extend :
        (s.is_nil ≡ true → cap s ≡ 0)
        → (extend zero_value slack s n).is_nil ≡ true
        → cap (extend zero_value slack s n) ≡ 0
    nil_empty-extend empty e = ground (
      arith,
      is_nil-extend,
      cap-append_fits zero_value slack (record s { len = cap s }) (replicate n zero_value),
      length-replicate n zero_value,
    )
