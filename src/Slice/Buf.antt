-- ===== src/Slice/Buf.antt =====
-- `Buf` of slice/Slice.go: the state and its methods. A method returns the new buffer; `none` is a
-- panic of the runtime, and an error value is an `Option Err` whose `none` is Go's nil. Sizes are
-- `ℕ`: SetSize and AddSize are modelled for sums that are not negative. What the runtime adds when
-- it grows an array, `slack`, and the zero value of the element type are parameters.
pub mod Spec
pub mod Valid
pub mod Front
pub mod Steps
pub mod Refine
pub mod Limits
mod Tests
use part.Common.{
  ℕ, zero, ◌+◌, ◌-◌, ◌%◌, ◌^◌, min, ℤ, pos, negsuc, Bool, true, false, not, ◌&&◌, Option, none,
  some, List, [], ◌∷◌, ◌++◌, length, take, replicate, ltb, leb, ◌==◌, if◌then◌else◌, ◌>>=◌,
}
use part.Slice.GoSlice.{GoSlice, cap, reslice, part_of, copy, make, append}

-- The errors that the methods return: ErrOverMax, ErrOverLen, ErrNoSameBuf, io.EOF.
pub data Err : Type 0 where
  over_max over_len no_same_buf eof : Err

-- A token of modification: the buffer's address and its counter, a uint64.
pub record Modified : Type 0 where
  pub p : ℕ
  pub t : ℕ

pub record Buf {ℓ} (A : Type ℓ) : Type ℓ where
  pub maxsize : ℤ
  pub bufsize : ℕ
  pub modified : Modified
  pub buf : GoSlice A

-- The nil slice of a fresh buffer.
abbrev pub nil_slice {ℓ} : {A : Type ℓ} → GoSlice A
nil_slice = record { mem = []; len = 0; is_nil = true }

-- `modified.t += 1` on a uint64.
abbrev pub bump : Modified → Modified
bump m = record m { t = (m.t + 1) % 2 ^ 64 }

-- `t.maxsize != 0 && n > t.maxsize`.
abbrev pub exceeds : ℤ → ℕ → Bool
exceeds (pos m) n = not (m == 0) && ltb m n
exceeds (negsuc m) n = true

module _ {ℓ} {A : Type ℓ} where
  -- The buffer at address `p`; with no argument maxsize is 0.
  pub new : ℕ → Option ℤ → Buf A
  new p limit = record {
    maxsize = elim limit [ none ↦ pos 0 | some m ↦ m ];
    bufsize = 0;
    modified = record { p = p; t = 0 };
    buf = nil_slice;
  }

  pub clear : Buf A → Buf A
  clear b = record b { buf = nil_slice; bufsize = 0; modified = bump b.modified }

  pub size : Buf A → ℕ
  size b = b.bufsize

  pub is_empty : Buf A → Bool
  is_empty b = b.bufsize == 0

  pub reset : Buf A → Buf A
  reset b = record b { bufsize = 0; modified = bump b.modified }

  pub set_modified : Buf A → Buf A
  set_modified b = record b { modified = bump b.modified }

  pub get_modified : Buf A → Modified
  get_modified b = b.modified

  pub had_modified : Buf A → Modified → Bool × Option Err
  had_modified b mt =
      (not (b.modified.t == mt.t), if b.modified.p == mt.p then none else some no_same_buf)

  pub get_raw_buf : Buf A → ℕ → ℕ → Option (List A)
  get_raw_buf b from to = part_of b.buf from to

  pub get_pure_buf : Buf A → Option (List A)
  get_pure_buf b = part_of b.buf 0 b.bufsize

  pub remove_back : Buf A → ℤ → Buf A × Option Err
  remove_back b (negsuc n) = (b, none)
  remove_back b (pos n) =
      if n == 0
      then (b, none)
      else if ltb b.bufsize n
      then (b, some over_len)
      else if b.bufsize == n
      then (record b { bufsize = 0; modified = bump b.modified }, none)
      else (record b { bufsize = b.bufsize - n; modified = bump b.modified }, none)

module _ {ℓ} {A : Type ℓ} (zero_value : A) (slack : ℕ → ℕ → ℕ) where
  -- `append(s[:cap(s)], make([]T, n)...)`.
  abbrev pub extend : GoSlice A → ℕ → GoSlice A
  extend s n = append zero_value slack (record s { len = cap s }) (replicate n zero_value)

  pub reset_size : Buf A → Buf A
  reset_size b =
      if ltb (cap b.buf) b.bufsize
      then record b { buf = extend b.buf (b.bufsize - cap b.buf) }
      else if ltb b.buf.len b.bufsize
      then record b { buf = record (b.buf) { len = b.bufsize } }
      else b

  pub set_size : Buf A → ℕ → Buf A
  set_size b n =
      let b' = reset_size (record b { bufsize = n }) in record b' { modified = bump b'.modified }

  pub add_size : Buf A → ℕ → Buf A
  add_size b n =
      let b' = reset_size (record b { bufsize = b.bufsize + n }) in
      record b' { modified = bump b'.modified }

  pub expand_cap_to : Buf A → ℕ → Buf A
  expand_cap_to b n =
      if leb n (cap b.buf) then b else record b { buf = extend b.buf (n - cap b.buf) }

  pub expand_cap : Buf A → ℕ → Buf A
  expand_cap b n = record b { buf = extend b.buf n }

  -- `t.buf = append(t.buf[:t.bufsize], data...)` and what follows it.
  abbrev pub append_tail : Buf A → GoSlice A → List A → Option (Buf A × Option Err)
  append_tail b base xs = do
    s ← reslice base b.bufsize
    some (
      record b {
        buf = append zero_value slack s xs;
        bufsize = b.bufsize + length xs;
        modified = bump b.modified;
      },
      none,
    )

  -- Append; a nil buffer is allocated first, with no look at maxsize.
  pub append_data : Buf A → List A → Option (Buf A × Option Err)
  append_data b xs =
      if b.buf.is_nil
      then append_tail b (make zero_value (length xs)) xs
      else if exceeds b.maxsize (b.bufsize + length xs)
      then some (b, some over_max)
      else append_tail b b.buf xs

  -- AppendTo: the destination after the call, and the error.
  pub append_to : Buf A → Buf A → Option (Buf A × Option Err)
  unfolding get_pure_buf append_data
  append_to b to = do xs ← get_pure_buf b; append_data to xs

  abbrev pub set_from_tail : Buf A → GoSlice A → List A → Buf A × Option Err
  set_from_tail b base xs = (
    record b {
      buf = append zero_value slack (record base { len = 0 }) xs;
      bufsize = length xs;
      modified = bump b.modified;
    },
    none,
  )

  pub set_from : Buf A → List A → Buf A × Option Err
  set_from b xs =
      if b.buf.is_nil
      then set_from_tail b (make zero_value (length xs)) xs
      else if exceeds b.maxsize (b.bufsize + length xs)
      then (b, some over_max)
      else set_from_tail b b.buf xs

  -- One link of `Appends`: BufAppendsI.Append, with the error kept so far.
  pub appends_one : Buf A × Option Err → List A → Option (Buf A × Option Err)
  unfolding append_data
  appends_one (b, some e) xs = some (b, some e)
  appends_one (b, none) [] = some (b, none)
  appends_one (b, none) (x ∷ xs) = append_data b (x ∷ xs)

  appends_from : Buf A × Option Err → List (List A) → Option (Buf A × Option Err)
  unfolding appends_one
  appends_from s [] = some s
  appends_from s (xs ∷ rest) = do s' ← appends_one s xs; appends_from s' rest

  -- Appends, for a callback that appends the given pieces in turn.
  pub appends : Buf A → List (List A) → Option (Buf A × Option Err)
  unfolding appends_from
  appends b pieces = appends_from (b, none) pieces

  -- RemoveFront with `n > 0`; `t.bufsize = copy(t.buf, t.buf[n:t.bufsize])`.
  pub remove_front_pos : Buf A → ℕ → Option (Buf A × Option Err)
  remove_front_pos b n =
      if ltb b.bufsize n
      then some (b, some over_len)
      else if b.bufsize == n
      then some (record b { bufsize = 0; modified = bump b.modified }, none)
      else do
        let b' = reset_size b
        rest ← part_of b'.buf n b'.bufsize
        let moved = copy b'.buf rest
        some (record b' { buf = moved.1; bufsize = moved.0; modified = bump b'.modified }, none)

  pub remove_front : Buf A → ℤ → Option (Buf A × Option Err)
  remove_front b (negsuc n) = some (b, none)
  remove_front b (pos n) = if n == 0 then some (b, none) else remove_front_pos b n

  pub get_copy_buf : Buf A → Option (List A)
  get_copy_buf b = do
    xs ← part_of b.buf 0 b.bufsize
    let out = copy (make zero_value b.bufsize) xs
    some (out.1.mem)

  -- Read into a slice of length `n`: the buffer, the elements copied out, the error.
  pub read : Buf A → ℕ → Option (Buf A × List A × Option Err)
  read b n =
      if ltb 0 b.bufsize
      then (do
        xs ← get_pure_buf b
        let k = min n (length xs)
        r ← remove_front b (pos k)
        some (r.0, take k xs, none))
      else some (b, [], some eof)

  -- Write: the length is reported whether or not the append succeeds.
  pub write : Buf A → List A → Option (Buf A × ℕ × Option Err)
  unfolding append_data
  write b xs = do r ← append_data b xs; some (r.0, length xs, r.1)
