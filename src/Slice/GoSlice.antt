-- ===== src/Slice/GoSlice.antt =====
-- Go slices as values: the backing array from the slice's first element to its capacity, the
-- length, and whether the slice is nil. Two slices never share an array here: each function below
-- is used where the code owns the array.
pub mod Laws
use part.Common.{
  ℕ, ◌+◌, ◌-◌, min, Bool, false, ◌&&◌, Option, none, some, List, [], ◌∷◌, ◌++◌, length, take, drop,
  replicate, leb, if◌then◌else◌,
}

pub record GoSlice {ℓ} (A : Type ℓ) : Type ℓ where
  pub mem : List A
  pub len : ℕ
  pub is_nil : Bool

module _ {ℓ} {A : Type ℓ} where
  abbrev pub cap : GoSlice A → ℕ
  cap s = length s.mem

  -- The elements below the length.
  abbrev pub elems : GoSlice A → List A
  elems s = take s.len s.mem

  -- `s[:n]`, which panics beyond the capacity.
  abbrev pub reslice : GoSlice A → ℕ → Option (GoSlice A)
  reslice s n = if leb n (cap s) then some (record s { len = n }) else none

  -- The elements of `s[from:to]`, which panics unless `from <= to <= cap(s)`.
  abbrev pub part_of : GoSlice A → ℕ → ℕ → Option (List A)
  part_of s from to =
      if leb from to && leb to (cap s) then some (take (to - from) (drop from s.mem)) else none

  -- `copy(s, xs)`: the count, and the slice with its first elements overwritten.
  abbrev pub copy : GoSlice A → List A → ℕ × GoSlice A
  copy s xs = let k = min s.len (length xs) in (k, record s { mem = take k xs ++ drop k s.mem })

-- `make([]A, n)`, filled with the zero value.
abbrev pub make {ℓ} : {A : Type ℓ} → A → ℕ → GoSlice A
make zero_value n = record { mem = replicate n zero_value; len = n; is_nil = false }

-- `append(s, xs...)` writes into spare capacity, else it moves to a larger array. How much larger
-- is the runtime's choice: `slack c n` elements beyond the `n` that are needed, from capacity `c`.
unfoldable pub append {ℓ} : {A : Type ℓ} → A → (ℕ → ℕ → ℕ) → GoSlice A → List A → GoSlice A
append zero_value slack s xs =
    let n = s.len + length xs in
    if leb n (cap s)
    then record s { mem = take s.len s.mem ++ (xs ++ drop n s.mem); len = n }
    else record {
      mem = take s.len s.mem ++ (xs ++ replicate (slack (cap s) n) zero_value);
      len = n;
      is_nil = false;
    }
