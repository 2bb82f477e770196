-- ===== src/Slice/Ops/Tests.antt =====
-- The functions of slice/common.go on concrete slices, and the theorems at inputs.
use part.Common.{Bool, List, [], length, ltb, refl, ℕ, ◌++◌, ◌==◌, ◌∷◌, ◌≡◌}
use part.Slice.Ops.{split, search_first, split_loop, is_sep}
use part.Slice.Ops.Pieces.{feed, pieces, split-feed, Found, search_first-Found}

-- Keep at most two pieces.
abbrev two_pieces : List (List ℕ) → List ℕ → List (List ℕ) × Bool
two_pieces acc p = (acc ++ p ∷ [], ltb (length acc) 1)

abbrev text : List ℕ
text = 7 ∷ 0 ∷ 8 ∷ 9 ∷ 0 ∷ 6 ∷ []

split-text : split ◌==◌ (0 ∷ []) two_pieces [] text ≡ (7 ∷ []) ∷ (8 ∷ 9 ∷ []) ∷ []
unfolding split split_loop is_sep
split-text = refl

split-feed_example :
    split ◌==◌ (0 ∷ []) two_pieces [] text ≡ feed two_pieces [] (pieces ◌==◌ (0 ∷ []) text)
split-feed_example = split-feed ◌==◌ (0 ∷ []) two_pieces [] text

search_first-Found_example : Found (ltb 7) 0 text (search_first (ltb 7) text)
search_first-Found_example = search_first-Found (ltb 7) text
