-- ===== src/Slice/Buf/Limits.antt =====
-- Sizes, limits and modification tokens of `Buf`, slice/Slice.go.
use part.Common.{
  ℕ, ◌+◌, ◌-◌, ◌^◌, ◌≤◌, ◌<◌, pos, ◌≡◌, ◌≢◌, refl, ◌∙◌, ◌⊎◌, true, false, Option, none, some, List,
  length, arith, ltb, inl, inr, Bool-cases,
}
use part.Slice.GoSlice.{cap, make}
use part.Slice.Buf.{
  Buf, Err, over_max, bump, exceeds, new, append_data, get_modified, had_modified, set_size,
  add_size, reset_size, size,
}
use part.Slice.Buf.Valid.{
  IsValid, contents, cap-extend, len-extend, nil_empty-extend, appended, append_tail_lem,
  contents-appended,
}
use part.Slice.Buf.Steps.{append_data_old}

module _ {ℓ} {A : Type ℓ} (zero_value : A) (slack : ℕ → ℕ → ℕ) where
  reset_size-IsValid :
      (b : Buf A)
      → b.buf.len ≤ cap b.buf
      → (b.buf.is_nil ≡ true → cap b.buf ≡ 0)
      → IsValid (reset_size zero_value slack b)
        × ((reset_size zero_value slack b).bufsize ≡ b.bufsize)
  unfolding reset_size
  reset_size-IsValid b h e = elim (Bool-cases (ltb (cap b.buf) b.bufsize)) [
    | inl small ↦
        let n = b.bufsize - cap b.buf in
        rw small (
          record {
            size_in = ground (arith, cap-extend zero_value slack b.buf n);
            len_in =
                omega
                  (arith, len-extend zero_value slack b.buf n, cap-extend zero_value slack b.buf n);
            nil_empty = nil_empty-extend zero_value slack b.buf n e;
          },
          refl,
        )
    | inr roomy ↦ elim (Bool-cases (ltb b.buf.len b.bufsize)) [
      | inl short ↦
          rw (roomy, short)
            (record { size_in = ground arith; len_in = ground arith; nil_empty = e }, refl)
      | inr long ↦
          rw (roomy, long) (record { size_in = ground arith; len_in = h; nil_empty = e }, refl)
    ]
  ]

  -- SetSize and AddSize grow the array when they must: the buffer stays valid and has the size asked
  -- for.
  pub resize-IsValid :
      (b : Buf A) (n : ℕ)
      → IsValid b
      → IsValid (set_size zero_value slack b n)
        × (size (set_size zero_value slack b n) ≡ n)
        × IsValid (add_size zero_value slack b n)
        × (size (add_size zero_value slack b n) ≡ size b + n)
  unfolding size set_size add_size
  resize-IsValid b n v =
      let (v1, e1) = reset_size-IsValid (record b { bufsize = n }) v.len_in v.nil_empty in
      let (v2, e2) =
        reset_size-IsValid (record b { bufsize = b.bufsize + n }) v.len_in v.nil_empty in
      (touch v1, e1, touch v2, e2)
    where
      touch : {c : Buf A} → IsValid c → IsValid (record c { modified = bump c.modified })
      touch w = record { size_in = w.size_in; len_in = w.len_in; nil_empty = w.nil_empty }

  -- Append refuses, and then changes nothing, or takes the data.
  append_cases :
      (b : Buf A) (xs : List A)
      → IsValid b
      → ((append_data zero_value slack b xs ≡ some (b, some over_max))
          × (b.buf.is_nil ≡ false)
          × (exceeds b.maxsize (b.bufsize + length xs) ≡ true))
        ⊎ ((b' : Buf A) × (append_data zero_value slack b xs ≡ some (b', none))
            × (b'.bufsize ≡ b.bufsize + length xs)
            × (b'.modified ≡ bump b.modified)
            × ((b.buf.is_nil ≡ true) ⊎ (exceeds b.maxsize (b.bufsize + length xs) ≡ false)))
  append_cases b xs v = elim (Bool-cases b.buf.is_nil) [
    | inl nil ↦
        let base = make zero_value (length xs) in
        let fits : b.bufsize ≤ cap base = omega (arith, v.nil_empty nil) in
        inr (
          appended zero_value slack b base xs fits,
          unfold append_data in rw nil (append_tail_lem zero_value slack b base xs fits),
          refl,
          refl,
          inl nil,
        )
    | inr old ↦ elim (Bool-cases (exceeds b.maxsize (b.bufsize + length xs))) [
      | inl over ↦ inl (unfold append_data in rw (old, over), old, over)
      | inr within ↦ inr (
        appended zero_value slack b b.buf xs v.size_in,
        append_data_old zero_value slack b xs old within
            ∙ append_tail_lem zero_value slack b b.buf xs v.size_in,
        refl,
        refl,
        inr within,
      )
    ]
  ]

  -- A buffer that has an array and keeps within its limit still does after an Append, whether the
  -- data were taken or refused.
  pub append_within :
      (b : Buf A) (xs : List A) (m : ℕ)
      → IsValid b
      → b.buf.is_nil ≡ false
      → b.maxsize ≡ pos m
      → 0 < m
      → size b ≤ m
      → (r : Buf A × Option Err) × (append_data zero_value slack b xs ≡ some r)
        × (size r.0 ≤ m)
        × (r.1 ≡ none → size r.0 ≡ size b + length xs)
        × (r.1 ≢ none → (r.0 ≡ b) × (m < size b + length xs))
  unfolding size
  append_within b xs m v old limit some_limit within = elim (append_cases b xs v) [
    | inl (ran, _, over) ↦
        ((b, some over_max), ran, within, (λ e. cc), (λ _. (refl, ground (arith, limit))))
    | inr (b', ran, grew, _, why) ↦
        ((b', none), ran, bound grew why, (λ _. grew), (λ ne. absurd (ne refl)))
  ]
    where
      bound :
          {n : ℕ}
          → n ≡ b.bufsize + length xs
          → (b.buf.is_nil ≡ true) ⊎ (exceeds b.maxsize (b.bufsize + length xs) ≡ false)
          → n ≤ m
      bound grew (inl nil) = absurd (cc)
      bound grew (inr ok) =
          let ok' : exceeds (pos m) (b.bufsize + length xs) ≡ false = rw limit at ok in ground arith

  -- With an Append that succeeds the token taken before it shows a modification, of the same buffer;
  -- with one that is refused it shows none.
  pub had_modified-append :
      (b : Buf A) (xs : List A)
      → IsValid b
      → b.modified.t < 2 ^ 64
      → (r : Buf A × Option Err) × (append_data zero_value slack b xs ≡ some r)
        × (r.1 ≡ none → had_modified r.0 (get_modified b) ≡ (true, none))
        × (r.1 ≢ none → had_modified r.0 (get_modified b) ≡ (false, none))
  unfolding had_modified get_modified
  had_modified-append b xs v small = elim (append_cases b xs v) [
    | inl (ran, _, _) ↦ ((b, some over_max), ran, (λ e. cc), (λ _. ground arith))
    | inr (b', ran, _, touched, _) ↦
        ((b', none), ran, (λ _. rw touched (ground arith)), (λ ne. absurd (ne refl)))
  ]

  -- The first Append to a fresh buffer is never refused, however small the limit is.
  pub append_first_unlimited :
      (p m : ℕ) (xs : List A)
      → (b' : Buf A) × (append_data zero_value slack (new p (some (pos m))) xs ≡ some (b', none))
        × (size b' ≡ length xs)
        × (contents b' ≡ xs)
  unfolding new append_data size
  append_first_unlimited p m xs =
      let b = new {A = A} p (some (pos m)) in
      let base = make zero_value (length xs) in
      let fits : 0 ≤ cap base = omega arith in
      (
        appended zero_value slack b base xs fits,
        append_tail_lem zero_value slack b base xs fits,
        omega arith,
        contents-appended zero_value slack b base xs fits,
      )
