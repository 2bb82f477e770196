-- ===== src/Slice/Index/Faults.antt =====
-- Where RemoveBack, RemoveFront, Merge and Equal of slice/SliceIndex.go do not do what their names
-- say.
use part.Common.{
  Bool, List, [], ap, arith, drop, false, get_elem?, leb, length, length-append, ltb, none, not,
  refl, some, suc, take, true, ℕ, ◌++◌, ◌+◌, ◌-◌, ◌<◌, ◌==◌, ◌∙◌, ◌∷◌, ◌≡◌, ◌≢◌, ◌≤◌,
}
use part.Slice.Index.{
  Index, Token, touch, items, parts_items, remove_back, remove_back_loop, remove_back_round,
  remove_front, remove_front_loop, remove_front_round, merge, merge_loop, equal, equal_loop,
  equal_end,
}

get_elem?-length {ℓ} : {A : Type ℓ} (xs : List A) → get_elem? xs (length xs) ≡ none
get_elem?-length [] = refl
get_elem?-length (x ∷ xs) = get_elem?-length xs

module _ {ℓ} {A : Type ℓ} where
  -- RemoveBack of `n > 0` elements panics on every index that is not empty.
  pub remove_back_panics : (x : Index A) (n : ℕ) → 0 < n → x.buf ≢ [] → remove_back x n ≡ none
  unfolding remove_back remove_back_loop remove_back_round
  remove_back_panics x n h ne = go x.buf refl
    where
      go : (l : List ℕ) → x.buf ≡ l → remove_back x n ≡ none
      go [] e = absurd (ne e)
      go (y ∷ l) e =
          let asked : ltb 0 n ≡ true = ground arith in
          let past : get_elem? x.buf (length l + 1) ≡ none =
            let more : length l + 1 ≡ suc (length l) = omega arith in
            rw (e, more) (get_elem?-length (y ∷ l)) in
          let size : length x.buf ≡ suc (length l) = ap length e in
          ap (λ k. remove_back_loop k n x) size ∙ rw (asked, past)

  -- RemoveFront of fewer elements than the only part has panics.
  pub remove_front_panics :
      (src : List A) (m : Token) (a b n : ℕ)
      → 0 < n
      → n < b - a
      → remove_front (record { buf = a ∷ b ∷ []; source = src; modified = m }) n ≡ none
  unfolding remove_front remove_front_loop remove_front_round
  remove_front_panics src m a b n h small =
      let asked : ltb 0 n ≡ true = ground arith in
      let inside : ltb n (b - a) ≡ true = ground arith in rw (asked, inside) (rw asked)

  -- Merge of a part that lies strictly between two readable parts puts it in front of both, so the
  -- readable elements are no longer in the order of the source.
  pub merge_between :
      (src : List A) (m : Token) (a b c d s e : ℕ)
      → a ≤ b
      → b < s
      → s ≤ e
      → e < c
      → let x : Index A = record { buf = a ∷ b ∷ c ∷ d ∷ []; source = src; modified = m } in
        (x' : Index A) × (merge x s e ≡ some x') × (items x' ≡ take (e - s) (drop s src) ++ items x)
  unfolding merge merge_loop items parts_items
  merge_between src m a b c d s e ab bs se ec =
      let t1 : ltb e a ≡ false = ground arith in
      let t2 : leb e b ≡ false = ground arith in
      let t2' : leb a e ≡ true = ground arith in
      let t3 : leb s b ≡ false = ground arith in
      let t3' : leb a s ≡ true = ground arith in
      let t4 : ltb e c ≡ true = ground arith in
      (
        record { buf = s ∷ e ∷ a ∷ b ∷ c ∷ d ∷ []; source = src; modified = touch m },
        rw (t1, t2, t2', t3, t3', t4),
        refl,
      )

  module _ (eqb : A → A → Bool) (eqb_refl : (v : A) → eqb v v ≡ true) where
    equal_loop_prefix :
        (k : ℕ) (l extra : List A) → equal_loop eqb k l (l ++ extra) ≡ some (k + length l)
    unfolding equal_loop
    equal_loop_prefix k [] extra = ap some (omega arith)
    equal_loop_prefix k (v ∷ l) extra =
        let ih = equal_loop_prefix (k + 1) l extra in
        rw (eqb_refl v, equal_loop) (ih ∙ ap some (omega arith))

    -- Where the readable elements are a proper prefix of `b`, Equal returns true unless exactly one
    -- element is missing.
    pub equal_prefix :
        (x : Index A) (extra : List A) → equal eqb x (items x ++ extra) ≡ not (length extra == 1)
    unfolding equal equal_end
    equal_prefix x extra =
        let l = items x in
        ap (λ r. equal_end eqb r (l ++ extra)) (equal_loop_prefix 0 l extra)
        ∙ ground (arith, length-append l extra)
