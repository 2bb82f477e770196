-- ===== src/Slice/Index.antt =====
-- `SliceIndexNoLock` of slice/SliceIndex.go: readable parts `[buf[i], buf[i+1])` of a source slice.
-- The wrapper SliceIndex makes the same calls under a lock. Bounds are `ℕ`, and a size counts a part
-- with its end before its start as empty; `none` is a panic of the runtime.
pub mod Reading
pub mod Faults
mod Tests
use part.Common.{
  ==_iff, ==_refl, Bool, Bool-cases, List, Option, [], ap, append-nil, append_assoc, ap₂, arith,
  drop, drop-append_exact, drop-min, drop-take, drop_all, false, get_elem?, if◌then◌else◌, inl, inr,
  leb, leb→le, length, length-append, length-drop, length-replicate, length-set, length-take,
  le→leb, ltb, ltb→lt, lt→ltb, max, min, negsuc, none, not, pos, refl, replicate, require, set,
  some, suc, sym, take, take-append, take-append-drop, take-append_exact, take-min, take-take,
  take_all, true, zero, ℕ, ℤ, ◌%◌, ◌&&◌, ◌*◌, ◌++◌, ◌+◌, ◌-◌, ◌/◌, ◌<◌, ◌==◌, ◌>>=◌, ◌>>◌, ◌^◌,
  ◌||◌, ◌↔◌, ◌∙◌, ◌∷◌, ◌≡◌, ◌≢◌, ◌≤◌, ◌⊎◌,
}

-- ErrNoSameSliceIndex and ErrNoModified of ActSlice.
pub data IndexErr : Type 0 where
  no_same_slice_index no_modified : IndexErr

-- SliceIndexModified.
pub record Token : Type 0 where
  pub p : ℕ
  pub t : ℕ

pub record Index {ℓ} (A : Type ℓ) : Type ℓ where
  pub buf : List ℕ
  pub source : List A
  pub modified : Token

-- `modified.t += 1` on a uint64.
abbrev pub touch : Token → Token
touch m = record m { t = (m.t + 1) % 2 ^ 64 }

-- `source[s:e]`, which panics out of range.
abbrev pub source_part {ℓ} : {A : Type ℓ} → List A → ℕ → ℕ → Option (List A)
source_part src s e =
    if leb s e && leb e (length src) then some (take (e - s) (drop s src)) else none

-- The last element of `buf` and the others, for `t.buf[len(t.buf)-1]`.
abbrev pub last_of : List ℕ → Option ℕ
last_of [] = none
last_of (x ∷ []) = some x
last_of (x ∷ y ∷ xs) = last_of (y ∷ xs)

-- `buf[i] = e` at the last index.
abbrev pub set_last : List ℕ → ℕ → List ℕ
set_last [] e = []
set_last (y ∷ []) e = e ∷ []
set_last (y ∷ z ∷ ys) e = y ∷ set_last (z ∷ ys) e

-- Append: the last part grows where the new one starts at its end, else a part is added.
abbrev pub grow_last : Option ℕ → List ℕ → ℕ → ℕ → List ℕ
grow_last none buf s e = buf ++ s ∷ e ∷ []
grow_last (some l) buf s e =
    if s == l then if ltb l e then set_last buf e else buf else buf ++ s ∷ e ∷ []

pub append_parts : List ℕ → ℕ → ℕ → List ℕ
append_parts buf s e = grow_last (last_of buf) buf s e

pub parts_size : List ℕ → ℕ
parts_size [] = 0
parts_size (a ∷ []) = 0
parts_size (a ∷ b ∷ rest) = (b - a) + parts_size rest

module _ {ℓ} {A : Type ℓ} where
  pub new_index : List A → Index A
  new_index src = record { buf = []; source = src; modified = record { p = 0; t = 0 } }

  pub get_token : Index A → Token
  get_token x = x.modified

  -- HadModified: `none` is a nil error, which says that there was a modification.
  pub had_changed : Index A → Token → Option IndexErr
  had_changed x mt =
      if not (x.modified.p == mt.p)
      then some no_same_slice_index
      else if mt.t == x.modified.t
      then some no_modified
      else none

  -- One round of Merge's loop: `before` is `buf[:i]`, the last argument `buf[i:]`.
  pub merge_loop : Index A → ℕ → ℕ → List ℕ → List ℕ → Option (Index A)
  merge_loop x s e before [] =
      some (record x { buf = x.buf ++ s ∷ e ∷ []; modified = touch x.modified })
  merge_loop x s e before (a ∷ []) =
      if ltb e a then some (record x { buf = s ∷ e ∷ x.buf; modified = touch x.modified }) else none
  merge_loop x s e before (a ∷ b ∷ rest) =
      let on = merge_loop x s e (before ++ a ∷ b ∷ []) rest in
      if ltb e a
      then some (record x { buf = s ∷ e ∷ x.buf; modified = touch x.modified })
      else if leb a e && leb e b
      then some (
          if ltb s a
          then record x { buf = before ++ s ∷ b ∷ rest; modified = touch x.modified }
          else x)
      else if leb a s && leb s b
      then some (
          if ltb b e
          then record x { buf = before ++ a ∷ e ∷ rest; modified = touch x.modified }
          else x)
      else on

  pub merge : Index A → ℕ → ℕ → Option (Index A)
  merge x s e = merge_loop x s e [] x.buf

  pub append_part : Index A → ℕ → ℕ → Index A
  append_part x s e = record x { buf = append_parts x.buf s e; modified = touch x.modified }

  pub size : Index A → ℕ
  unfolding parts_size
  size x = parts_size x.buf

  pub clear : Index A → Index A
  clear x = record x { buf = []; modified = touch x.modified }

  pub reset : Index A → Index A
  reset x = record x { buf = []; modified = touch x.modified }

  pub is_empty : Index A → Bool
  is_empty x = length x.buf == 0

  -- The elements that Iter yields, in order.
  pub parts_items : List A → List ℕ → List A
  parts_items src [] = []
  parts_items src (a ∷ []) = []
  parts_items src (a ∷ b ∷ rest) = take (b - a) (drop a src) ++ parts_items src rest

  pub items : Index A → List A
  items x = parts_items x.source x.buf

  -- Read's loop into the room left: the remaining parts and what was copied.
  pub read_loop : List A → List ℕ → ℕ → Option (List ℕ × List A)
  read_loop src [] room = some ([], [])
  read_loop src (a ∷ []) room = some (a ∷ [], [])
  read_loop src (a ∷ b ∷ rest) room =
      let on = read_loop src rest (room - (b - a)) in
      if ltb 0 room
      then (do
        part ← source_part src a b
        let n = min room (length part)
        let out = take n part
        (if b - a == n
            then (on >>= λ r. some (r.0, out ++ r.1))
            else some ((a + n) ∷ b ∷ rest, out)))
      else some (a ∷ b ∷ rest, [])

  -- Read into a slice of length `n`: the index, the elements, and whether the error is io.EOF.
  pub read : Index A → ℕ → Option (Index A × List A × Bool)
  unfolding read_loop
  read x n = do
    r ← read_loop x.source x.buf n
    some (record x { buf = r.0; modified = touch x.modified }, r.1, length r.0 == 0)

  -- One round of RemoveBack at index `i`: the `n` left and the index.
  pub remove_back_round : ℕ → ℕ → Index A → Option (ℕ × Index A)
  remove_back_round i n x = do
    hi ← get_elem? x.buf (i + 1)
    lo ← get_elem? x.buf i
    some (
        if ltb n (hi - lo)
        then (n, record x { buf = set x.buf (i + 1) (hi - n); modified = touch x.modified })
        else (
          n - (hi - lo),
          record x { buf = take (length x.buf - 2) x.buf; modified = touch x.modified },
        ))

  -- RemoveBack's loop starts at `i = len(t.buf)-1` and goes down.
  pub remove_back_loop : ℕ → ℕ → Index A → Option (Index A)
  remove_back_loop zero n x = some x
  remove_back_loop (suc i) n x =
      let on = (do r ← remove_back_round i n x; remove_back_loop i r.0 r.1) in
      if ltb 0 n then on else some x

  pub remove_back : Index A → ℕ → Option (Index A)
  remove_back x n = remove_back_loop (length x.buf) n x

  -- One round of RemoveFront at index `i`; where `n` is less than the part, `n` stays as it was.
  pub remove_front_round : ℕ → ℕ → Index A → Option (ℕ × Index A)
  remove_front_round i n x = do
    hi ← get_elem? x.buf (i + 1)
    lo ← get_elem? x.buf i
    some (
        if ltb n (hi - lo)
        then (n, record x { buf = set x.buf i (lo + n); modified = touch x.modified })
        else (n - (hi - lo), record x { buf = drop 2 x.buf; modified = touch x.modified }))

  -- RemoveFront's loop, `rounds` at most: `i` grows by one each round, so `len(t.buf)` rounds end it.
  pub remove_front_loop : ℕ → ℕ → ℕ → Index A → Option (Index A)
  remove_front_loop zero i n x = some x
  remove_front_loop (suc rounds) i n x =
      let on = (do r ← remove_front_round i n x; remove_front_loop rounds (i + 1) r.0 r.1) in
      if ltb 0 n && ltb i (length x.buf) then on else some x

  pub remove_front : Index A → ℕ → Option (Index A)
  remove_front x n = remove_front_loop (length x.buf) 0 n x

  -- Equal's loop over the items: `matched` and the rest of `b`; `none` is an early `return false`.
  module _ (eqb : A → A → Bool) where
    pub equal_loop : ℕ → List A → List A → Option ℕ
    equal_loop matched [] b = some matched
    equal_loop matched (v ∷ vs) [] = none
    equal_loop matched (v ∷ vs) (y ∷ b) = elim (eqb y v) [
      | true ↦ equal_loop (matched + 1) vs b
      | false ↦ none
    ]

    -- `return matched != len(b)-1`; with an empty `b` the right side is -1.
    pub equal_end : Option ℕ → List A → Bool
    equal_end none b = false
    equal_end (some matched) b = not (matched + 1 == length b)

    pub equal : Index A → List A → Bool
    unfolding equal_loop equal_end
    equal x b = equal_end (equal_loop 0 (items x) b) b
