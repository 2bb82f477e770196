-- ===== src/Slice/Buf/Steps.antt =====
-- Append, Write, SetFrom, RemoveBack, Reset, Clear and GetCopyBuf of a valid `Buf`
-- (slice/Slice.go) return what the list of its contents returns.
use part.Common.{
  ℕ, ◌+◌, ◌-◌, ◌≤◌, ℤ, pos, negsuc, ◌≡◌, refl, sym, ◌∙◌, ap, ap₂, true, false, not, Option, none,
  some, List, [], ◌++◌, length, take, arith, ltb, ◌==◌, if◌then◌else◌, ◌>>=◌, take-take, inl, inr,
  Bool-cases,
}
use part.Slice.GoSlice.{GoSlice, cap, make}
use part.Slice.GoSlice.Laws.{
  len-append, le-cap-append, take-append_mem, is_nil-append_cons, part_of_front, copy_to_new,
}
use part.Slice.Buf.{
  Buf, Err, over_max, exceeds, append_data, set_from, remove_front, remove_back, read, write,
  expand_cap, expand_cap_to, reset, clear, bump, get_copy_buf, append_tail, set_from_tail,
}
use part.Slice.Buf.Spec
use part.Slice.Buf.Spec.{Op, Reply, State}
use part.Slice.Buf.Valid.{
  IsValid, contents, view, length-contents, appended, append_tail_lem, appended-IsValid,
  contents-appended, started-appended,
}

-- A call with nothing to take out.
abbrev pub with_error {ℓ} : {A : Type ℓ} → Buf A × Option Err → Buf A × Reply A
with_error (b, e) = (b, ([], e))

module _ {ℓ} {A : Type ℓ} (zero_value : A) (slack : ℕ → ℕ → ℕ) where
  unfoldable pub step : Op A → Buf A → Option (Buf A × Reply A)
  step (Op.append xs) b = do r ← append_data zero_value slack b xs; some (with_error r)
  step (Op.write xs) b = do (b', n, e) ← write zero_value slack b xs; some (b', ([], e))
  step (Op.set_from xs) b = some (with_error (set_from zero_value slack b xs))
  step (Op.remove_front n) b = do r ← remove_front zero_value slack b n; some (with_error r)
  step (Op.remove_back n) b = some (with_error (remove_back b n))
  step (Op.read n) b = do (b', xs, e) ← read zero_value slack b n; some (b', (xs, e))
  step (Op.expand_cap n) b = some (expand_cap zero_value slack b n, ([], none))
  step (Op.expand_cap_to n) b = some (expand_cap_to zero_value slack b n, ([], none))
  step Op.reset b = some (reset b, ([], none))
  step Op.clear b = some (clear b, ([], none))
  step Op.copy_out b = do xs ← get_copy_buf zero_value slack b; some (b, (xs, none))

  -- The outcome of `op` on `b`: no panic, the reply of the list, and its list in a valid buffer.
  abbrev pub Outcome : Op A → Buf A → Type ℓ
  Outcome op b =
      (b' : Buf A) × (step op b ≡ some (b', (Spec.step op (view b)).1))
      × IsValid b'
      × (view b' ≡ (Spec.step op (view b)).0)

  -- What the tail of Append leaves, from an array `base` that holds the contents.
  module _ (xs : List A) (b : Buf A) (base : GoSlice A) (fits : b.bufsize ≤ cap base)
      (not_nil : base.is_nil ≡ false) (same : take b.bufsize base.mem ≡ contents b) where
    view-appended :
        view (appended zero_value slack b base xs fits)
        ≡ record { limit = b.maxsize; started = true; items = contents b ++ xs }
    view-appended = λ i. record {
      limit = b.maxsize;
      started = not (started-appended zero_value slack b base xs fits not_nil i);
      items = items i;
    }
      where
        items : contents (appended zero_value slack b base xs fits) ≡ contents b ++ xs
        items = contents-appended zero_value slack b base xs fits ∙ ap (λ t. t ++ xs) same

  -- The view of a buffer that has an array.
  pub view-old :
      (b : Buf A)
      → b.buf.is_nil ≡ false
      → view b ≡ record { limit = b.maxsize; started = true; items = contents b }
  view-old b old = λ i. record { limit = b.maxsize; started = not (old i); items = contents b }

  pub append_data_old :
      (b : Buf A) (xs : List A)
      → b.buf.is_nil ≡ false
      → exceeds b.maxsize (b.bufsize + length xs) ≡ false
      → append_data zero_value slack b xs ≡ append_tail zero_value slack b b.buf xs
  unfolding append_data
  append_data_old b xs old within =
      ap₂
        (λ c d.
          if c
          then append_tail zero_value slack b (make zero_value (length xs)) xs
          else if d
          then some (b, some over_max)
          else append_tail zero_value slack b b.buf xs)
        old within

  -- Append against the list: the new buffer and the error.
  pub append_refines :
      (xs : List A) (b : Buf A)
      → IsValid b
      → (r : Buf A × Option Err) × (append_data zero_value slack b xs ≡ some r)
        × (([], r.1) ≡ (Spec.add xs (view b)).1)
        × IsValid r.0
        × (view r.0 ≡ (Spec.add xs (view b)).0)
  unfolding append_data Spec.add
  append_refines xs b v = elim (Bool-cases b.buf.is_nil) [
    | inl nil ↦
        let base = make zero_value (length xs) in
        let empty : b.bufsize ≡ 0 = omega (arith, v.nil_empty nil) in
        let fits : b.bufsize ≤ cap base = omega arith in
        let same : take b.bufsize base.mem ≡ contents b = rw empty in
        (
          (appended zero_value slack b base xs fits, none),
          rw nil (append_tail_lem zero_value slack b base xs fits),
          rw nil,
          appended-IsValid zero_value slack b base xs fits refl,
          rw nil (view-appended xs b base fits refl same),
        )
    | inr old ↦ elim (Bool-cases (exceeds b.maxsize (b.bufsize + length xs))) [
      | inl over ↦
          let over' : exceeds b.maxsize (length (contents b) + length xs) ≡ true =
            rw (length-contents b v) over in
          ((b, some over_max), rw (old, over), rw (old, over'), v, rw (old, over'))
      | inr within ↦
          let within' : exceeds b.maxsize (length (contents b) + length xs) ≡ false =
            rw (length-contents b v) within in
          (
            (appended zero_value slack b b.buf xs v.size_in, none),
            append_data_old b xs old within ∙ append_tail_lem zero_value slack b b.buf xs v.size_in,
            rw (old, within'),
            appended-IsValid zero_value slack b b.buf xs v.size_in old,
            view-appended xs b b.buf v.size_in old refl ∙ sym (rw (old, within')),
          )
    ]
  ]

  module _ (xs : List A) (b : Buf A) (base : GoSlice A) (not_nil : base.is_nil ≡ false) where
    set_taken-IsValid : IsValid (set_from_tail zero_value slack b base xs).0
    set_taken-IsValid =
        let s : GoSlice A = record base { len = 0 } in
        record {
          size_in = omega (arith, le-cap-append zero_value slack s xs);
          len_in =
              omega (arith, len-append zero_value slack s xs, le-cap-append zero_value slack s xs);
          nil_empty = λ e. ground (arith, is_nil-append_cons zero_value slack s xs);
        }

    view-set_taken :
        view (set_from_tail zero_value slack b base xs).0
        ≡ record { limit = b.maxsize; started = true; items = xs }
    view-set_taken = λ i. record {
      limit = b.maxsize;
      started = not (is_nil-append_cons zero_value slack (record base { len = 0 }) xs not_nil i);
      items =
          take-append_mem zero_value slack (record base { len = 0 }) xs (length xs) (omega arith)
            (omega arith) i;
    }

  pub append-Outcome : (xs : List A) (b : Buf A) → IsValid b → Outcome (Op.append xs) b
  unfolding step Spec.step
  append-Outcome xs b v =
      let (r, ran, e, v', seen) = append_refines xs b v in
      (r.0, rw ran (ap (λ x. some (r.0, x)) e), v', seen)

  pub write-Outcome : (xs : List A) (b : Buf A) → IsValid b → Outcome (Op.write xs) b
  unfolding step write Spec.step
  write-Outcome xs b v =
      let (r, ran, e, v', seen) = append_refines xs b v in
      (r.0, rw ran (ap (λ x. some (r.0, x)) e), v', seen)

  -- SetFrom against the list.
  pub set_from-Outcome : (xs : List A) (b : Buf A) → IsValid b → Outcome (Op.set_from xs) b
  unfolding step set_from Spec.step
  set_from-Outcome xs b v = elim (Bool-cases b.buf.is_nil) [
    | inl nil ↦
        let base = make zero_value (length xs) in
        (
          (set_from_tail zero_value slack b base xs).0,
          rw nil,
          set_taken-IsValid xs b base refl,
          rw nil (view-set_taken xs b base refl),
        )
    | inr old ↦ elim (Bool-cases (exceeds b.maxsize (b.bufsize + length xs))) [
      | inl over ↦
          let over' : exceeds b.maxsize (length (contents b) + length xs) ≡ true =
            rw (length-contents b v) over in
          (b, rw (old, over, over'), v, rw (old, over'))
      | inr within ↦
          let within' : exceeds b.maxsize (length (contents b) + length xs) ≡ false =
            rw (length-contents b v) within in
          (
            (set_from_tail zero_value slack b b.buf xs).0,
            rw (old, within, within'),
            set_taken-IsValid xs b b.buf old,
            view-set_taken xs b b.buf old ∙ sym (rw (old, within')),
          )
    ]
  ]

  pub remove_back-Outcome : (n : ℤ) (b : Buf A) → IsValid b → Outcome (Op.remove_back n) b
  unfolding step remove_back Spec.step
  remove_back-Outcome (negsuc n) b v = (b, refl, v, refl)
  remove_back-Outcome (pos n) b v = elim (Bool-cases (n == 0)) [
    | inl none_asked ↦ (b, rw none_asked, v, rw none_asked)
    | inr some_asked ↦ elim (Bool-cases (ltb b.bufsize n)) [
      | inl over ↦
          let over' : ltb (length (contents b)) n ≡ true = rw (length-contents b v) over in
          (b, rw (some_asked, over, over'), v, rw (some_asked, over'))
      | inr within ↦
          let within' : ltb (length (contents b)) n ≡ false = rw (length-contents b v) within in
          let short = record b { bufsize = b.bufsize - n; modified = bump b.modified } in
          let left : contents short ≡ take (length (contents b) - n) (contents b) =
            rw (length-contents b v)
              (sym (take-take (b.bufsize - n) b.bufsize b.buf.mem (omega arith))) in
          let seen : view short ≡ (Spec.step (Op.remove_back (pos n)) (view b)).0 =
            rw (some_asked, within')
              (ap (λ t. record { limit = b.maxsize; started = not b.buf.is_nil; items = t })
                left) in
          elim (Bool-cases (b.bufsize == n)) [
            | inl all ↦
                let gone : 0 ≡ b.bufsize - n = ground arith in
                (
                  short,
                  rw (some_asked, within, within', all)
                      (ap
                        (λ k.
                          some (record b { bufsize = k; modified = bump b.modified }, ([], none)))
                        gone),
                  omega arith,
                  seen,
                )
            | inr rest ↦ (short, rw (some_asked, within, within', rest), omega arith, seen)
          ]
    ]
  ]

  pub reset-Outcome : (b : Buf A) → IsValid b → Outcome Op.reset b
  unfolding step reset Spec.step
  reset-Outcome b v = (reset b, refl, omega arith, refl)

  pub clear-Outcome : (b : Buf A) → IsValid b → Outcome Op.clear b
  unfolding step clear Spec.step
  clear-Outcome b v = (clear b, refl, ground arith, refl)

  pub copy_out-Outcome : (b : Buf A) → IsValid b → Outcome Op.copy_out b
  unfolding step get_copy_buf Spec.step
  copy_out-Outcome b v = (
    b,
    rw (part_of_front b.buf b.bufsize v.size_in) (
        ap (λ xs. some (b, (xs, none)))
          (copy_to_new zero_value (contents b) b.bufsize (sym (length-contents b v)))),
    v,
    refl,
  )
