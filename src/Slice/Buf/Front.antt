-- ===== src/Slice/Buf/Front.antt =====
-- RemoveFront and Read of slice/Slice.go against the list of the contents.
use part.Common.{
  ℕ, ◌-◌, ◌≤◌, ◌<◌, min, max, pos, ◌≡◌, refl, sym, ◌∙◌, ap, true, false, not, Option, none, some,
  [], length, take, drop, arith, ltb, ◌==◌, length-take, length-drop, drop-take, drop_all, take-min,
  drop-min, inl, inr, Bool-cases,
}
use part.Slice.GoSlice.{GoSlice, cap, copy}
use part.Slice.GoSlice.Laws.{part_of_lem, part_of_front, copy_count, take-copy, cap-copy}
use part.Slice.Buf.{
  Buf, Err, over_len, bump, reset_size, remove_front, remove_front_pos, read, get_pure_buf,
}
use part.Slice.Buf.Spec
use part.Slice.Buf.Spec.{Op, Reply, State}
use part.Slice.Buf.Valid.{IsValid, contents, view, length-contents}

module _ {ℓ} {A : Type ℓ} (zero_value : A) (slack : ℕ → ℕ → ℕ) where
  -- A valid buffer needs no more room: resetSize only moves the slice's end.
  pub reset_size_lem :
      (b : Buf A)
      → IsValid b
      → reset_size zero_value slack b
        ≡ record b { buf = record (b.buf) { len = max b.buf.len b.bufsize } }
  unfolding reset_size
  reset_size_lem b v =
      let room : ltb (cap b.buf) b.bufsize ≡ false = ground (arith, v.size_in) in
      elim (Bool-cases (ltb b.buf.len b.bufsize)) [
        | inl short ↦
            let e : b.bufsize ≡ max b.buf.len b.bufsize = ground arith in
            rw (room, short) (ap (λ k. record b { buf = record (b.buf) { len = k } }) e)
        | inr long ↦
            let e : b.buf.len ≡ max b.buf.len b.bufsize = ground arith in
            rw (room, long) (ap (λ k. record b { buf = record (b.buf) { len = k } }) e)
      ]

  -- The buffer after RemoveFront of fewer items than it has.
  shifted : Buf A → ℕ → Buf A
  shifted b n =
      let moved =
        copy (record (b.buf) { len = max b.buf.len b.bufsize })
          (take (b.bufsize - n) (drop n b.buf.mem)) in
      record b { buf = moved.1; bufsize = moved.0; modified = bump b.modified }

  shift_length :
      (b : Buf A) (n : ℕ)
      → IsValid b
      → length (take (b.bufsize - n) (drop n b.buf.mem)) ≡ b.bufsize - n
  shift_length b n v =
      omega (arith, length-take (b.bufsize - n) (drop n b.buf.mem), length-drop n b.buf.mem)

  module _ (b : Buf A) (n : ℕ) (v : IsValid b) where
    longer : GoSlice A
    longer = record (b.buf) { len = max b.buf.len b.bufsize }

    shifted-IsValid : IsValid (shifted b n)
    unfolding shifted longer
    shifted-IsValid =
        let rest = take (b.bufsize - n) (drop n b.buf.mem) in
        record {
          size_in = omega (arith, cap-copy longer rest, shift_length b n v);
          len_in = omega (arith, cap-copy longer rest);
          nil_empty = λ e. omega (arith, cap-copy longer rest, v.nil_empty e);
        }

    contents-shifted : contents (shifted b n) ≡ drop n (contents b)
    unfolding shifted longer
    contents-shifted =
        let rest = take (b.bufsize - n) (drop n b.buf.mem) in
        take-copy longer rest (copy longer rest).0 (omega (arith, shift_length b n v))
          (copy_count longer rest (omega (arith, shift_length b n v)))
        ∙ sym (drop-take n b.bufsize b.buf.mem)

  remove_front_shifts :
      (b : Buf A) (n : ℕ)
      → IsValid b
      → n < b.bufsize
      → remove_front_pos zero_value slack b n ≡ some (shifted b n, none)
  unfolding remove_front_pos shifted longer
  remove_front_shifts b n v h =
      let enough : ltb b.bufsize n ≡ false = ground arith in
      let more : (b.bufsize == n) ≡ false = ground arith in
      rw (enough, more, reset_size_lem b v)
        (rw (part_of_lem (longer b n v) n b.bufsize (omega arith) v.size_in))

  -- What RemoveFront of `n > 0` items leaves, in each of its three cases.
  pub remove_front_refines :
      (b : Buf A) (n : ℕ)
      → IsValid b
      → (n == 0) ≡ false
      → (r : Buf A × Option Err) × (remove_front_pos zero_value slack b n ≡ some r)
        × (([], r.1) ≡ (Spec.remove_pos (view b) n (drop n (contents b))).1)
        × IsValid r.0
        × (view r.0 ≡ (Spec.remove_pos (view b) n (drop n (contents b))).0)
  remove_front_refines b n v asked = elim (Bool-cases (ltb b.bufsize n)) [
    | inl over ↦
        let over' : ltb (length (contents b)) n ≡ true = rw (length-contents b v) over in
        (
          (b, some over_len),
          unfold remove_front_pos in rw over,
          rw (asked, over'),
          v,
          rw (asked, over'),
        )
    | inr within ↦
        let within' : ltb (length (contents b)) n ≡ false = rw (length-contents b v) within in
        let seen : (b' : Buf A)
            → b'.maxsize ≡ b.maxsize
            → b'.buf.is_nil ≡ b.buf.is_nil
            → contents b' ≡ drop n (contents b)
            → view b' ≡ (Spec.remove_pos (view b) n (drop n (contents b))).0 =
          λ b' p q e.
            rw (asked, within') (λ i. record { limit = p i; started = not (q i); items = e i }) in
        elim (Bool-cases (b.bufsize == n)) [
          | inl all ↦
              let gone = record b { bufsize = 0; modified = bump b.modified } in
              let whole : length (contents b) ≤ n = ground (arith, length-contents b v) in
              (
                (gone, none),
                unfold remove_front_pos in rw (within, all),
                rw (asked, within'),
                omega arith,
                seen gone refl refl (sym (drop_all n (contents b) whole)),
              )
          | inr rest ↦ (
            (shifted b n, none),
            remove_front_shifts b n v (ground arith),
            rw (asked, within'),
            shifted-IsValid b n v,
            seen (shifted b n) (unfold shifted in refl) (unfold shifted in refl)
                (contents-shifted b n v),
          )
        ]
  ]

  pub remove_front-nothing :
      (b : Buf A) (n : ℕ)
      → (n == 0) ≡ true
      → remove_front zero_value slack b (pos n) ≡ some (b, none)
  unfolding remove_front
  remove_front-nothing b n e = rw e

  pub remove_front-something :
      (b : Buf A) (n : ℕ)
      → (n == 0) ≡ false
      → remove_front zero_value slack b (pos n) ≡ remove_front_pos zero_value slack b n
  unfolding remove_front
  remove_front-something b n e = rw e

  -- Read of `n` items from a buffer that is not empty.
  pub read_refines :
      (b : Buf A) (n : ℕ)
      → IsValid b
      → (b' : Buf A) × (read zero_value slack b n
          ≡ some (b', (Spec.step (Op.read n) (view b)).1.0, (Spec.step (Op.read n) (view b)).1.1))
        × IsValid b'
        × (view b' ≡ (Spec.step (Op.read n) (view b)).0)
  unfolding read get_pure_buf Spec.step
  read_refines b n v = elim (Bool-cases (ltb 0 b.bufsize)) [
    | inr empty ↦
        let empty' : ltb 0 (length (contents b)) ≡ false = rw (length-contents b v) empty in
        (b, rw (empty, empty'), v, rw empty')
    | inl full ↦
        let full' : ltb 0 (length (contents b)) ≡ true = rw (length-contents b v) full in
        let items = contents b in
        let k = min n (length items) in
        let fits : ltb (length items) k ≡ false = ground arith in
        elim (Bool-cases (k == 0)) [
          | inl nothing ↦
              let k0 : k ≡ 0 = ground arith in
              let n0 : n ≡ 0 = ground (arith, length-contents b v) in
              (
                b,
                rw (full, full', part_of_front b.buf b.bufsize v.size_in)
                    (rw (remove_front-nothing b k nothing)
                      (ap (λ t. some (b, t, none)) (take-min n items))),
                v,
                rw full' (
                    ap (λ t. record { limit = b.maxsize; started = not b.buf.is_nil; items = t })
                      (sym (ap (λ j. drop j items) n0))),
              )
          | inr something ↦
              let (r, ran, e, v', seen) = remove_front_refines b k v something in
              (
                r.0,
                rw (full, full', part_of_front b.buf b.bufsize v.size_in)
                    (rw (remove_front-something b k something, ran)
                      (ap (λ t. some (r.0, t, none)) (take-min n items))),
                v',
                rw full' (
                    seen
                    ∙ rw (something, fits)
                        (ap
                          (λ t. record { limit = b.maxsize; started = not b.buf.is_nil; items = t })
                          (drop-min n items))),
              )
        ]
  ]
