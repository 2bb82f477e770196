-- ===== src/Slice/Buf/Refine.antt =====
-- Every call of a valid `Buf` (slice/Slice.go) returns what the list of its contents returns, and
-- never panics.
use part.Common.{
  ℕ, ◌-◌, ℤ, pos, negsuc, ◌≡◌, refl, ◌∙◌, ap, true, not, ◌||◌, Option, some, List, [], ◌∷◌, arith,
  leb, ltb, ◌==◌, ◌>>=◌, inl, inr, Bool-cases,
}
use part.Slice.GoSlice.{cap}
use part.Slice.Buf.{Buf, remove_front, expand_cap, expand_cap_to, extend, new}
use part.Slice.Buf.Front.{
  remove_front-nothing, remove_front-something, remove_front_refines, read_refines,
}
use part.Slice.Buf.Spec
use part.Slice.Buf.Spec.{Op, Reply, State}
use part.Slice.Buf.Valid.{
  IsValid, contents, view, cap-extend, len-extend, take-extend, is_nil-extend, nil_empty-extend,
}
use part.Slice.Buf.Steps.{
  step, Outcome, append-Outcome, write-Outcome, set_from-Outcome, remove_back-Outcome,
  reset-Outcome, clear-Outcome, copy_out-Outcome,
}

module _ {ℓ} {A : Type ℓ} (zero_value : A) (slack : ℕ → ℕ → ℕ) where
  pub run : List (Op A) → Buf A → Option (Buf A × List (Reply A))
  run [] b = some (b, [])
  run (op ∷ ops) b = do
    (b', r) ← step zero_value slack op b
    (b'', rs) ← run ops b'
    some (b'', r ∷ rs)

  -- Growth keeps the contents, and leaves a nil buffer nil only where nothing is asked for.
  module _ (n : ℕ) (b : Buf A) (v : IsValid b) where
    grown : Buf A
    grown = record b { buf = extend zero_value slack b.buf n }

    grown-IsValid : IsValid grown
    unfolding grown
    grown-IsValid = record {
      size_in = omega (arith, cap-extend zero_value slack b.buf n);
      len_in =
          omega (arith, len-extend zero_value slack b.buf n, cap-extend zero_value slack b.buf n);
      nil_empty = nil_empty-extend zero_value slack b.buf n v.nil_empty;
    }

    view-grown :
        view grown
        ≡ record { limit = b.maxsize; started = not b.buf.is_nil || ltb 0 n; items = contents b }
    unfolding grown
    view-grown = λ i. record {
      limit = b.maxsize;
      started = started i;
      items = take-extend zero_value slack b.buf n b.bufsize v.size_in i;
    }
      where
        started : not (extend zero_value slack b.buf n).is_nil ≡ not b.buf.is_nil || ltb 0 n
        started = ground (arith, is_nil-extend zero_value slack b.buf n)

  expand_cap-Outcome :
      (n : ℕ) (b : Buf A) → IsValid b → Outcome zero_value slack (Op.expand_cap n) b
  unfolding step expand_cap Spec.step grown
  expand_cap-Outcome n b v = (grown n b v, refl, grown-IsValid n b v, view-grown n b v)

  expand_cap_to-Outcome :
      (n : ℕ) (b : Buf A) → IsValid b → Outcome zero_value slack (Op.expand_cap_to n) b
  unfolding step expand_cap_to Spec.step grown
  expand_cap_to-Outcome n b v = elim (Bool-cases (leb n (cap b.buf))) [
    | inl roomy ↦ (b, rw roomy, v, same roomy)
    | inr tight ↦
        let started : ltb 0 (n - cap b.buf) ≡ ltb 0 n = ground arith in
        (
          grown (n - cap b.buf) b v,
          rw tight,
          grown-IsValid (n - cap b.buf) b v,
          view-grown (n - cap b.buf) b v
              ∙ ap
                  (λ c. record {
                    limit = b.maxsize;
                    started = not b.buf.is_nil || c;
                    items = contents b;
                  })
                  started,
        )
  ]
    where
      same :
          leb n (cap b.buf) ≡ true
          → view b ≡ record {
            limit = b.maxsize;
            started = not b.buf.is_nil || ltb 0 n;
            items = contents b;
          }
      same roomy =
          let started : not b.buf.is_nil ≡ not b.buf.is_nil || ltb 0 n = ground arith in
          ap (λ c. record { limit = b.maxsize; started = c; items = contents b }) started

  remove_front-Outcome :
      (n : ℤ) (b : Buf A) → IsValid b → Outcome zero_value slack (Op.remove_front n) b
  unfolding step Spec.step
  remove_front-Outcome (negsuc n) b v = (b, unfold remove_front in refl, v, refl)
  remove_front-Outcome (pos n) b v = elim (Bool-cases (n == 0)) [
    | inl nothing ↦
        (b, rw (remove_front-nothing zero_value slack b n nothing, nothing), v, rw nothing)
    | inr something ↦
        let (r, ran, e, v', seen) = remove_front_refines zero_value slack b n v something in
        (
          r.0,
          rw (remove_front-something zero_value slack b n something, ran)
              (ap (λ x. some (r.0, x)) e),
          v',
          seen,
        )
  ]

  read-Outcome : (n : ℕ) (b : Buf A) → IsValid b → Outcome zero_value slack (Op.read n) b
  unfolding step
  read-Outcome n b v =
      let (b', ran, v', seen) = read_refines zero_value slack b n v in (b', rw ran, v', seen)

  pub step-Outcome : (op : Op A) (b : Buf A) → IsValid b → Outcome zero_value slack op b
  step-Outcome (Op.append xs) = append-Outcome zero_value slack xs
  step-Outcome (Op.set_from xs) = set_from-Outcome zero_value slack xs
  step-Outcome (Op.write xs) = write-Outcome zero_value slack xs
  step-Outcome (Op.remove_front n) = remove_front-Outcome n
  step-Outcome (Op.remove_back n) = remove_back-Outcome zero_value slack n
  step-Outcome (Op.read n) = read-Outcome n
  step-Outcome (Op.expand_cap n) = expand_cap-Outcome n
  step-Outcome (Op.expand_cap_to n) = expand_cap_to-Outcome n
  step-Outcome Op.reset = reset-Outcome zero_value slack
  step-Outcome Op.clear = clear-Outcome zero_value slack
  step-Outcome Op.copy_out = copy_out-Outcome zero_value slack

  run-Outcome :
      (ops : List (Op A)) (b : Buf A)
      → IsValid b
      → (b' : Buf A) × (run ops b ≡ some (b', (Spec.run ops (view b)).1))
        × IsValid b'
        × (view b' ≡ (Spec.run ops (view b)).0)
  unfolding run Spec.run
  run-Outcome [] b v = (b, refl, v, refl)
  run-Outcome (op ∷ ops) b v =
      let (b1, ran, v1, seen) = step-Outcome op b v in
      let (b2, ran2, v2, seen2) = run-Outcome ops b1 v1 in
      (b2, rw (ran, ran2) (rw seen), v2, seen2 ∙ ap (λ s. (Spec.run ops s).0) seen)

  -- From a fresh buffer, any sequence of calls of Append, SetFrom, Write, RemoveFront, RemoveBack,
  -- Read, ExpandCap, ExpandCapTo, Reset, Clear and GetCopyBuf runs without a panic, returns exactly
  -- the items and errors that the list of items with its limit returns, and leaves a valid buffer
  -- that holds the items of that list, whatever capacity the runtime gives its arrays.
  pub run_refines :
      (ops : List (Op A)) (p : ℕ) (limit : Option ℤ)
      → (b' : Buf A) × (run ops (new p limit) ≡ some (b', (Spec.run ops (Spec.start limit)).1))
        × IsValid b'
        × (view b' ≡ (Spec.run ops (Spec.start limit)).0)
  unfolding new
  run_refines ops p limit = run-Outcome ops (new p limit) (ground arith)
