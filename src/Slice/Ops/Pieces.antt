-- ===== src/Slice/Ops/Pieces.antt =====
-- What Split, SplitAfter, Del and Search of slice/common.go compute.
use part.Common.{
  Bool, Bool-cases, List, Option, [], ap, append-nil, append_assoc, arith, false, get_elem?,
  if◌then◌else◌, inl, inr, none, refl, some, suc, sym, true, zero, ℕ, ◌++◌, ◌+◌, ◌∙◌, ◌∷◌, ◌≡◌,
}
use part.Slice.Ops.{
  is_sep, split_loop, split, split_after_loop, split_after, del_loop, del, search_loop,
  search_first,
}

-- Calling a callback on pieces in turn, until it says stop.
pub feed {ℓ κ} : {A : Type ℓ} {C : Type κ} → (C → List A → C × Bool) → C → List (List A) → C
feed callback c [] = c
feed callback c (p ∷ ps) = elim (callback c p).1 [
  | true ↦ feed callback (callback c p).0 ps
  | false ↦ (callback c p).0
]

module _ {ℓ} {A : Type ℓ} where
  -- An element in front of the first piece.
  abbrev pub glue : A → List (List A) → List (List A)
  glue x [] = (x ∷ []) ∷ []
  glue x (p ∷ ps) = (x ∷ p) ∷ ps

  abbrev prepend : List A → List (List A) → List (List A)
  prepend cur [] = cur ∷ []
  prepend cur (p ∷ ps) = (cur ++ p) ∷ ps

  prepend-glue :
      (cur : List A) (x : A) (ps : List (List A))
      → prepend (cur ++ x ∷ []) ps ≡ prepend cur (glue x ps)
  prepend-glue cur x [] = refl
  prepend-glue cur x (p ∷ ps) = ap (λ t. t ∷ ps) (append_assoc cur (x ∷ []) p)

  abbrev pub concat : List (List A) → List A
  concat [] = []
  concat (p ∷ ps) = p ++ concat ps

module _ {ℓ} {A : Type ℓ} (eqb : A → A → Bool) (sep : List A) where
  -- The pieces between separators, by recursion on the text.
  unfoldable pub pieces : List A → List (List A)
  pieces [] = [] ∷ []
  pieces (x ∷ s) = if is_sep eqb sep x then [] ∷ pieces s else glue x (pieces s)

  -- The pieces that start at each separator.
  unfoldable pub pieces_at : List A → List (List A)
  pieces_at [] = [] ∷ []
  pieces_at (x ∷ s) = if is_sep eqb sep x then [] ∷ glue x (pieces_at s) else glue x (pieces_at s)

  pieces-cons : (s : List A) → (p : List A) × (ps : List (List A)) × (pieces s ≡ p ∷ ps)
  unfolding pieces
  pieces-cons [] = ([], [], refl)
  pieces-cons (x ∷ s) =
      let (p, ps, e) = pieces-cons s in
      elim (Bool-cases (is_sep eqb sep x)) [
        | inl cut ↦ ([], pieces s, rw cut)
        | inr more ↦ (x ∷ p, ps, rw (more, e))
      ]

  pieces_at-cons : (s : List A) → (p : List A) × (ps : List (List A)) × (pieces_at s ≡ p ∷ ps)
  unfolding pieces_at
  pieces_at-cons [] = ([], [], refl)
  pieces_at-cons (x ∷ s) =
      let (p, ps, e) = pieces_at-cons s in
      elim (Bool-cases (is_sep eqb sep x)) [
        | inl cut ↦ ([], glue x (pieces_at s), rw cut)
        | inr more ↦ (x ∷ p, ps, rw (more, e))
      ]

  prepend-pieces : (s : List A) → prepend [] (pieces s) ≡ pieces s
  prepend-pieces s = let (p, ps, e) = pieces-cons s in rw e

  module _ {κ} {C : Type κ} (callback : C → List A → C × Bool) where
    feed_last : (c : C) (p : List A) → feed callback c (p ∷ []) ≡ (callback c p).0
    unfolding feed
    feed_last c p = elim (Bool-cases (callback c p).1) [
      | inl go ↦ rw (go, feed)
      | inr stop ↦ rw (stop, feed)
    ]

    -- A call on one piece, followed by the rest only if it returns true.
    feed_first :
        (c : C) (cur : List A) (rest : C) (ps : List (List A))
        → rest ≡ feed callback (callback c cur).0 ps
        → (elim (callback c cur).1 [ true ↦ rest | false ↦ (callback c cur).0 ])
          ≡ feed callback c ((cur ++ []) ∷ ps)
    unfolding feed
    feed_first c cur rest ps e = rw append-nil (elim (Bool-cases (callback c cur).1) [
      | inl go ↦ rw (go, feed) e
      | inr stop ↦ rw (stop, feed)
    ])

    split_loop-feed :
        (c : C) (cur s : List A)
        → split_loop eqb sep callback c cur s ≡ feed callback c (prepend cur (pieces s))
    unfolding split_loop pieces
    split_loop-feed c cur [] =
        sym (feed_last c cur) ∙ ap (λ t. feed callback c (t ∷ [])) (sym (append-nil cur))
    split_loop-feed c cur (x ∷ s) =
        let here = split_loop-feed (callback c cur).0 [] s in
        let on = split_loop-feed c (cur ++ x ∷ []) s in
        elim (Bool-cases (is_sep eqb sep x)) [
          | inl cut ↦
              rw (cut, split_loop)
                (feed_first c cur _ (pieces s)
                  (here ∙ ap (feed callback (callback c cur).0) (prepend-pieces s)))
          | inr more ↦
              rw (more, split_loop) (on ∙ ap (feed callback c) (prepend-glue cur x (pieces s)))
        ]

    -- Split calls the callback on the pieces between the separators, from first to last, and stops
    -- at the first call that returns false.
    pub split-feed : (c : C) (s : List A) → split eqb sep callback c s ≡ feed callback c (pieces s)
    unfolding split
    split-feed c s = split_loop-feed c [] s ∙ ap (feed callback c) (prepend-pieces s)

    -- SplitAfter likewise, for pieces that begin at the separators.
    split_after_loop-feed :
        (c : C) (cur s : List A)
        → split_after_loop eqb sep callback c cur s ≡ feed callback c (prepend cur (pieces_at s))
    unfolding split_after_loop pieces_at
    split_after_loop-feed c cur [] =
        sym (feed_last c cur) ∙ ap (λ t. feed callback c (t ∷ [])) (sym (append-nil cur))
    split_after_loop-feed c cur (x ∷ s) =
        let here = split_after_loop-feed (callback c cur).0 (x ∷ []) s in
        let on = split_after_loop-feed c (cur ++ x ∷ []) s in
        elim (Bool-cases (is_sep eqb sep x)) [
          | inl cut ↦
              rw (cut, split_after_loop)
                (feed_first c cur _ (glue x (pieces_at s))
                  (here ∙ ap (feed callback (callback c cur).0) (prepend_one x s)))
          | inr more ↦
              rw (more, split_after_loop)
                (on ∙ ap (feed callback c) (prepend-glue cur x (pieces_at s)))
        ]
      where
        prepend_one : (y : A) (r : List A) → prepend (y ∷ []) (pieces_at r) ≡ glue y (pieces_at r)
        prepend_one y r = let (p, ps, e) = pieces_at-cons r in rw e

  concat-pieces_at : (s : List A) → concat (pieces_at s) ≡ s
  unfolding pieces_at
  concat-pieces_at [] = refl
  concat-pieces_at (x ∷ s) =
      let (p, ps, e) = pieces_at-cons s in
      let ih = concat-pieces_at s in
      let ih' : p ++ concat ps ≡ s = rw e at ih in
      elim (Bool-cases (is_sep eqb sep x)) [
        | inl cut ↦ rw (cut, e) (ap (λ t. x ∷ t) ih')
        | inr more ↦ rw (more, e) (ap (λ t. x ∷ t) ih')
      ]

  -- SplitAfter calls the callback on pieces, each but the first beginning at a separator, that
  -- together spell the text, and stops at the first call that returns false.
  pub split_after-feed {κ} :
      {C : Type κ} (callback : C → List A → C × Bool) (c : C) (s : List A)
      → (split_after eqb sep callback c s ≡ feed callback c (pieces_at s))
        × (concat (pieces_at s) ≡ s)
  unfolding split_after
  split_after-feed callback c s = (
    split_after_loop-feed callback c [] s
        ∙ ap (feed callback c) (let (p, ps, e) = pieces_at-cons s in rw e),
    concat-pieces_at s,
  )

module _ {ℓ} {A : Type ℓ} where
  -- The elements that stay, each as the callback leaves it.
  abbrev pub kept_of : (A → A × Bool) → List A → List A
  kept_of f [] = []
  kept_of f (x ∷ s) = if (f x).1 then kept_of f s else (f x).0 ∷ kept_of f s

  del_loop-append : (f : A → A × Bool) (kept s : List A) → del_loop f kept s ≡ kept ++ kept_of f s
  unfolding del_loop
  del_loop-append f kept [] = sym (append-nil kept)
  del_loop-append f kept (x ∷ s) =
      let ih = del_loop-append f (if (f x).1 then kept else kept ++ (f x).0 ∷ []) s in
      ih ∙ elim (Bool-cases (f x).1) [
        | inl gone ↦ rw gone
        | inr stays ↦ rw stays (append_assoc kept ((f x).0 ∷ []) (kept_of f s))
      ]

  -- Del keeps exactly the elements for which the callback returns false, in order, as the callback
  -- leaves them.
  pub del-kept_of : (f : A → A × Bool) (s : List A) → del f s ≡ kept_of f s
  unfolding del
  del-kept_of f s = del_loop-append f [] s

  -- Nothing before `i` passes.
  abbrev pub NoneBefore : (A → Bool) → ℕ → List A → Type 0
  NoneBefore okf i [] = Unit
  NoneBefore okf zero (x ∷ s) = Unit
  NoneBefore okf (suc i) (x ∷ s) = (okf x ≡ false) × NoneBefore okf i s

  abbrev pub Found : (A → Bool) → ℕ → List A → Option (ℕ × A) → Type ℓ
  Found okf i s none = (k : ℕ) (x : A) → get_elem? s k ≡ some x → okf x ≡ false
  Found okf i s (some (j, x)) =
      (k : ℕ) × (j ≡ i + k) × (get_elem? s k ≡ some x) × (okf x ≡ true) × NoneBefore okf k s

  Found-later :
      (okf : A → Bool) (i : ℕ) (y : A) (s : List A)
      → okf y ≡ false
      → (r : Option (ℕ × A)) → Found okf (i + 1) s r
      → Found okf i (y ∷ s) r
  Found-later okf i y s miss none h = later
    where
      later : (k : ℕ) (x : A) → get_elem? (y ∷ s) k ≡ some x → okf x ≡ false
      later zero x e = let e' : y ≡ x = cc in rw (← e') miss
      later (suc k) x e = h k x e
  Found-later okf i y s miss (some (j, x)) (k, e, at_k, hit, before) =
      (suc k, omega arith, at_k, hit, (miss, before))

  search_loop-Found : (okf : A → Bool) (i : ℕ) (s : List A) → Found okf i s (search_loop okf i s)
  unfolding search_loop
  search_loop-Found okf i [] = λ k x e. cc
  search_loop-Found okf i (y ∷ s) =
      let ih = search_loop-Found okf (i + 1) s in
      elim (Bool-cases (okf y)) [
        | inl hit ↦ rw (hit, search_loop) (0, omega arith, refl, hit, tt)
        | inr miss ↦
            rw (miss, search_loop) (Found-later okf i y s miss (search_loop okf (i + 1) s) ih)
      ]

  -- Search returns the index and the element of the first element that passes; it returns -1 exactly
  -- where none passes.
  pub search_first-Found : (okf : A → Bool) (s : List A) → Found okf 0 s (search_first okf s)
  unfolding search_first
  search_first-Found okf s = search_loop-Found okf 0 s
