-- ===== src/Decoder/Integers/Tests.antt =====
-- Witnesses for the theorems on integers as bytes.
use part.Common.{List, [], arith, some, ℕ, ◌++◌, ◌∷◌, ◌≡◌}
use part.Decoder.Integers.{itob64, itob32, itob16, btoui32, btoi32, btoui16, btoi16, btoi64}
use part.Decoder.Integers.RoundTrip.{btoi-itob}

abbrev pre : List ℕ
pre = 7 ∷ []

abbrev post : List ℕ
post = 9 ∷ 9 ∷ []

btoi-itob_example :
    (btoi64 (pre ++ (itob64 18446744073709551615 ++ post)) 1 ≡ some 18446744073709551615)
    × (btoi32 (pre ++ (itob32 70000 ++ post)) 1 ≡ some 70000)
    × (btoui32 (pre ++ (itob32 70000 ++ post)) 1 ≡ some 70000)
    × (btoi16 (pre ++ (itob16 300 ++ post)) 1 ≡ some 300)
    × (btoui16 (pre ++ (itob16 300 ++ post)) 1 ≡ some 300)
btoi-itob_example =
    btoi-itob 18446744073709551615 70000 300 pre post (omega arith) (omega arith) (omega arith)
