-- ===== src/Slice/Index/Tests.antt =====
-- `SliceIndexNoLock` of slice/SliceIndex.go on a concrete index, and the theorems at inputs.
use part.Common.{Bool, List, [], arith, drop, length, some, take, true, ℕ, ◌++◌, ◌-◌, ◌↔◌, ◌∷◌, ◌≡◌}
use part.Slice.Index.{Index, Token, items, append_part, read, size}
use part.Slice.Index.Reading.{IsValid, append_part_lem, read_lem, size-items}

abbrev letters : List ℕ
letters = 10 ∷ 11 ∷ 12 ∷ 13 ∷ 14 ∷ 15 ∷ 16 ∷ 17 ∷ []

abbrev fresh : Token
fresh = record { p = 0; t = 0 }

abbrev two_parts : Index ℕ
two_parts = record { buf = 0 ∷ 2 ∷ 4 ∷ 6 ∷ []; source = letters; modified = fresh }

two_parts-IsValid : IsValid two_parts
two_parts-IsValid = omega arith

append_part_example :
    (items (append_part two_parts 6 8) ≡ items two_parts ++ take (8 - 6) (drop 6 letters))
    × IsValid (append_part two_parts 6 8)
append_part_example = append_part_lem two_parts 6 8 two_parts-IsValid (omega arith) (omega arith)

read_example :
    (x' : Index ℕ) × (eof : Bool) × (read two_parts 3 ≡ some (x', take 3 (items two_parts), eof))
    × (items x' ≡ drop 3 (items two_parts))
    × IsValid x'
    × ((eof ≡ true) ↔ (x'.buf ≡ []))
read_example = read_lem two_parts 3 two_parts-IsValid

size-items_example : size two_parts ≡ length (items two_parts)
size-items_example = size-items two_parts two_parts-IsValid
